-- ===== src/Pms5003.antt =====
-- The driver of the PMS5003 dust sensor (src/sensors/pms5003/pms5003.c), as it is compiled: with
-- hkPMS5003_HUMID_COMPENSATION off (include/config/arm.h). `poll` is one round of vPMS5003_Task,
-- given the bytes that the transfer delivered before the semaphore timed out, if it did.
pub mod Frames
mod Tests
use hk_rtos.Base.{ℕ, zero, suc, ◌+◌, ◌*◌, ◌-◌, ◌^◌, Bool, true, false, not, Option, none, some}
use hk_rtos.Base.{◌==◌, ◌||◌, if◌then◌else◌, bit_or, u16}
use hk_rtos.Crc.{Buffer}

-- PMS5003_PACKET_LENGTH.
abbrev pub packet_length : ℕ
packet_length = 32

pub record DataPacket : Type 0 where
  pub pm1 : ℕ
  pub pm2_5 : ℕ
  pub pm10 : ℕ

-- The loop of PMS5003_ValidatePacket from index `i` on, with `left` rounds left.
sum_from : Buffer → ℕ → ℕ → ℕ → ℕ
sum_from raw zero i checksum = checksum
sum_from raw (suc left) i checksum = sum_from raw left (i + 1) (u16 (checksum + raw i))

-- `(raw[k] << 8) | raw[k + 1]` as a u16.
word_at : Buffer → ℕ → ℕ
word_at raw k = u16 (bit_or (raw k * 2 ^ 8) (raw (k + 1)))

pub validate_packet : Buffer → Bool
unfolding sum_from word_at
validate_packet raw =
    if not (raw 0 == 0x42) || not (raw 1 == 0x4D)
    then false
    else sum_from raw (packet_length - 2) 0 0 == word_at raw 30

pub process_data : Buffer → DataPacket → DataPacket
unfolding validate_packet word_at
process_data raw d =
    if not (validate_packet raw)
    then d
    else record { pm1 = word_at raw 4; pm2_5 = word_at raw 6; pm10 = word_at raw 8 }

-- The packet that goes to the queue, if one does, and the packet after.
pub poll : Option Buffer → DataPacket → Option DataPacket × DataPacket
unfolding process_data
poll none d = (none, d)
poll (some raw) d = (some (process_data raw d), process_data raw d)
