-- ===== src/Dht20.antt =====
-- The driver of the DHT20 sensor (src/sensors/dht20/dht20.c): `init` is DHT20_Init, `init_read`
-- DHT20_InitRead, `read` DHT20_Read and `poll` one round of the loop of vDHT20_Task. A function that
-- writes through `config` returns the new configuration beside its result.
pub mod Checksum
pub mod Locking
pub mod Polling
mod Tests
use hk_rtos.Base.{ℕ, zero, suc, ◌+◌, ◌*◌, ◌/◌, ◌%◌, ◌^◌, Bool, true, false, not, Option, none, some}
use hk_rtos.Base.{List, [], ◌∷◌, bit_and, bit_or, bit_xor, ◌==◌, if◌then◌else◌, u8, u32}
use hk_rtos.Base.Int.{ℤ, pos, negsuc}
use hk_rtos.Crc.{Buffer}
use hk_rtos.Bus.{Device, M, pure, ◌>>=◌, ◌>>◌, mutex_enter, mutex_exit, i2c_write, i2c_read, fill}
use hk_rtos.F32.{F32}
use hk_rtos.Dht.{DataPacket, derive}
use hk_rtos.Bus.{success, failure, generic_error}

-- The inner loop of DHT20_CRC, with `n` rounds left.
unfoldable pub crc_bits : ℕ → ℕ → ℕ
crc_bits zero crc = crc
crc_bits (suc n) crc =
    crc_bits n (if not (bit_and crc 0x80 == 0) then u8 (bit_xor (crc * 2) 0x31) else u8 (crc * 2))

-- The outer loop from index `i` on, with `left` rounds left.
unfoldable pub crc_from : Buffer → ℕ → ℕ → ℕ → ℕ
crc_from d zero i crc = crc
crc_from d (suc left) i crc = crc_from d left (i + 1) (crc_bits 8 (bit_xor crc (d i)))

unfoldable pub crc : Buffer → ℕ → ℕ
unfolding crc_bits crc_from
crc d len = crc_from d len 0 0xFF

pub record Config : Type 0 where
  pub address : ℕ
  pub raw_data : Buffer
  pub length : ℕ

-- What DHT20_Read returns once the bytes are in the buffer.
abbrev pub verdict : Buffer → ℤ
verdict raw =
    if not (bit_and (raw 0) 0x80 == 0)
    then failure
    else if not (crc raw 6 == raw 6)
    then failure
    else success

module _ (dev : Device) where
  pub init : Config → M ℤ
  init c = do
    mutex_enter
    r ← i2c_read dev c.address 1 false
    elim r [
      | none ↦ (do mutex_exit; pure generic_error)
      | some r' ↦ (do
        mutex_exit
        if not (bit_and (u8 (r'.1 0)) 0x08 == 0) then pure success else (do
          mutex_enter
          w ← i2c_write dev c.address (0xBE ∷ 0x08 ∷ 0x00 ∷ []) false
          elim w [
            | none ↦ (do mutex_exit; pure generic_error)
            | some _ ↦ (do mutex_exit; pure success)
          ]))
    ]

  pub init_read : Config → M ℤ
  init_read c = do
    mutex_enter
    w ← i2c_write dev c.address (0xAC ∷ 0x33 ∷ 0x00 ∷ []) false
    elim w [ none ↦ (do mutex_exit; pure generic_error) | some _ ↦ (do mutex_exit; pure success) ]

  pub read : Config → M (ℤ × Config)
  read c = do
    mutex_enter
    r ← i2c_read dev c.address c.length false
    elim r [
      | none ↦ (do mutex_exit; pure (generic_error, c))
      | some r' ↦ (do
        mutex_exit
        let c' = record c { raw_data = fill c.length r'.1 c.raw_data }
        pure (verdict c'.raw_data, c'))
    ]

pub raw_humidity : Buffer → ℕ
raw_humidity raw = bit_or (bit_or (raw 1 * 2 ^ 12) (raw 2 * 2 ^ 4)) (raw 3 / 2 ^ 4)

pub raw_temperature : Buffer → ℕ
raw_temperature raw = bit_or (bit_or (bit_and (raw 3) 0x0F * 2 ^ 16) (raw 4 * 2 ^ 8)) (raw 5)

-- DHT20_ProcessData.
module _ (fl : F32) where
  open fl use {of_int, decimal, sub, mul, div}

  pub process_data : Config → DataPacket fl → DataPacket fl
  unfolding raw_humidity raw_temperature
  process_data c d =
      let scaled = λ (raw : ℕ). div (of_int (pos raw)) (decimal 10485760 1) in
      derive fl (record d {
        humidity = mul (scaled (raw_humidity c.raw_data)) (decimal 1000 1);
        temperature =
            sub (mul (scaled (raw_temperature c.raw_data)) (decimal 2000 1)) (decimal 500 1);
      })

-- The test of `if(status)` in C.
abbrev pub is_true : ℤ → Bool
is_true (pos zero) = false
is_true _ = true

-- One round of the loop of vDHT20_Task: the packet that goes to the queue, if one does, and the
-- state after. What the first call returns is not looked at.
module _ (dev : Device) (fl : F32) where
  pub poll : Config → DataPacket fl → M (Option (DataPacket fl) × Config × DataPacket fl)
  unfolding init_read read process_data
  poll c d = do
    init_read dev c
    r ← read dev c
    if is_true r.0
        then pure (some (process_data fl r.1 d), r.1, process_data fl r.1 d)
        else pure (none, r.1, d)
