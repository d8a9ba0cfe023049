-- ===== src/Sgp30.antt =====
-- The driver of the SGP30 gas sensor (src/sensors/sgp30/sgp30.c), as it is compiled: with
-- hkSGP30_HUMID_COMPENSATION off (include/config/arm.h). `poll` is one round of vSGP30_Task.
pub mod Checksum
pub mod Locking
pub mod Polling
mod Tests
use hk_rtos.Base.{ℕ, zero, suc, ◌+◌, ◌*◌, ◌^◌, Bool, true, false, not, Option, none, some}
use hk_rtos.Base.{[], ◌∷◌, bit_and, bit_or, bit_xor, ◌==◌, if◌then◌else◌, u8, u16, ltb}
use hk_rtos.Base.Int.{ℤ}
use hk_rtos.Crc.{Buffer}
use hk_rtos.Bus.{Device, M, pure, ◌>>=◌, ◌>>◌, mutex_enter, mutex_exit, i2c_write, i2c_read, fill}
use hk_rtos.Bus.{success, generic_error}

-- The inner loop of SGP30_CRC, with `n` rounds left.
crc_bits : ℕ → ℕ → ℕ
crc_bits zero crc = crc
crc_bits (suc n) crc =
    crc_bits n (if not (bit_and crc 0x80 == 0) then u8 (bit_xor (crc * 2) 0x31) else u8 (crc * 2))

-- The outer loop from index `i` on, with `left` rounds left.
crc_from : Buffer → ℕ → ℕ → ℕ → ℕ
crc_from d zero i crc = crc
crc_from d (suc left) i crc = crc_from d left (u8 (i + 1)) (crc_bits 8 (bit_xor crc (d i)))

pub crc : Buffer → ℕ → ℕ
unfolding crc_bits crc_from
crc d len = crc_from d len 0 0xFF

-- The values of `status`: the enumerators that the driver gives it, and 3, which main() gives it first.
pub data Status : Type 0 where
  init ready read_in_progress : Status

unfoldable pub is_in_progress : Status → Bool
is_in_progress read_in_progress = true
is_in_progress _ = false

is_ready : Status → Bool
is_ready ready = true
is_ready _ = false

pub record Config : Type 0 where
  pub address : ℕ
  pub status : Status
  pub raw_data : Buffer
  pub length : ℕ

pub record DataPacket : Type 0 where
  pub eco2 : ℕ
  pub tvoc : ℕ

module _ (dev : Device) where
  unfoldable pub write_command : Config → ℕ → M ℤ
  write_command c command = do
    mutex_enter
    w ← i2c_write dev c.address (0x20 ∷ command ∷ []) false
    elim w [ none ↦ (do mutex_exit; pure generic_error) | some _ ↦ (do mutex_exit; pure success) ]

  -- SGP30_Init: the buffer is cleared, then SGP30_INIT (0x03) is sent.
  pub init_sensor : Config → M (ℤ × Config)
  unfolding write_command
  init_sensor c = do
    let c' = record c { raw_data = λ i. if ltb i c.length then 0 else c.raw_data i }
    s ← write_command c' 0x03
    pure (s, c')

  -- SGP30_START_MEASURE is 0x08.
  unfoldable pub init_read : Config → M Config
  unfolding write_command is_in_progress
  init_read c =
      if is_in_progress c.status
      then pure c
      else (do let c' = record c { status = read_in_progress }; write_command c' 0x08; pure c')

  unfoldable pub read : Config → M (ℤ × Config)
  read c = do
    mutex_enter
    r ← i2c_read dev c.address c.length false
    elim r [
      | none ↦ (do mutex_exit; pure (generic_error, c))
      | some r' ↦ (do
        mutex_exit
        pure (success, record c { raw_data = fill c.length r'.1 c.raw_data; status = ready }))
    ]

  -- SGP30_ReadBlocking; the sleep between the two calls is left out.
  unfoldable pub read_blocking : Config → M (ℤ × Config)
  unfolding init_read read
  read_blocking c = do c' ← init_read c; read c'

-- SGP30_CRC(&raw[k], 2).
abbrev pub word_crc : Buffer → ℕ → ℕ
word_crc raw k = crc (λ i. raw (k + i)) 2

pub process_data : Config → DataPacket → DataPacket
process_data c d =
    let raw = c.raw_data in
    let eco2 = u16 (bit_or (raw 0 * 2 ^ 8) (raw 1)) in
    let tvoc = u16 (bit_or (raw 3 * 2 ^ 8) (raw 4)) in
    if not (word_crc raw 0 == raw 2)
    then d
    else if not (word_crc raw 3 == raw 5)
    then d
    else record d { eco2 = eco2; tvoc = tvoc }

module _ (dev : Device) where
  -- The packet that goes to the queue in a round, if one does, and the state after.
  pub poll : Config → DataPacket → M (Option DataPacket × Config × DataPacket)
  unfolding init_read read process_data is_ready
  poll c d = do
    c' ← init_read dev c
    r ← read dev c'
    if is_ready r.1.status
        then pure (some (process_data r.1 d), r.1, process_data r.1 d)
        else pure (none, r.1, d)
