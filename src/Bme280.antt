-- ===== src/Bme280.antt =====
-- The driver of the BME280 sensor (src/sensors/bme280/bme280.c). A function named here is the one
-- with the prefix BME280_ there, and `poll` is one round of the loop of vBME280_Task.
pub mod Compensation
pub mod Packets
pub mod Checks
pub mod Locking
mod Tests
use hk_rtos.Base.{
  ℕ, zero, suc, ◌+◌, ◌*◌, ◌/◌, ◌^◌, Bool, true, false, Option, none, some, List, [], ◌∷◌,
}
use hk_rtos.Base.{bit_and, bit_or, ltb, if◌then◌else◌}
use hk_rtos.Base.Int.{ℤ, pos, negsuc, to_signed}
use hk_rtos.Crc.{Buffer}
use hk_rtos.Bus.{Device, M, pure, ◌>>=◌, ◌>>◌, mutex_enter, mutex_exit, i2c_write, i2c_read, fill}
use hk_rtos.Bus.{success, failure, generic_error}
use hk_rtos.F32.{F32}
use hk_rtos.Bme280.Compensation.{Params}
use hk_rtos.Bme280.Packets.{DataPacket, process_data}

-- The values that the code gives `status`, and the one main() gives it first.
pub data Status : Type 0 where
  init read_success read_in_progress : Status

abbrev is_in_progress : Status → Bool
is_in_progress read_in_progress = true
is_in_progress _ = false

abbrev is_success : Status → Bool
is_success read_success = true
is_success _ = false

-- `status == PICO_ERROR_GENERIC`.
abbrev is_error : ℤ → Bool
is_error (negsuc zero) = true
is_error _ = false

pub record Config : Type 0 where
  pub raw_data : Buffer
  pub length : ℕ
  pub address : ℕ
  pub status : Status
  pub humidity_sampling : ℕ
  pub iir_coefficient : ℕ
  pub temp_and_pressure_mode : ℕ
  pub params : Params

-- BME280_REG_CALIB_00, BME280_REG_CALIB_26, BME280_REG_CTRL_HUM, BME280_REG_CTRL_MEAS and
-- BME280_REG_CONFIG.
abbrev reg_calib_00 : ℕ
reg_calib_00 = 0x88

abbrev reg_calib_26 : ℕ
reg_calib_26 = 0xE1

abbrev pub reg_ctrl_hum : ℕ
reg_ctrl_hum = 0xF2

abbrev reg_ctrl_meas : ℕ
reg_ctrl_meas = 0xF4

abbrev reg_config : ℕ
reg_config = 0xF5

-- `(buffer[k + 1] << 8) | buffer[k]`, as a u16 and as an i16.
abbrev word_at : Buffer → ℕ → ℕ
word_at b k = bit_or (b (k + 1) * 2 ^ 8) (b k)

abbrev signed_at : Buffer → ℕ → ℤ
signed_at b k = to_signed 15 (pos (word_at b k))

-- The parameters that the first block of 26 bytes holds.
pub first_block : Buffer → Params → Params
first_block b p = record p {
  dig_t1 = word_at b 0;
  dig_t2 = signed_at b 2;
  dig_t3 = signed_at b 4;
  dig_p1 = word_at b 6;
  dig_p2 = signed_at b 8;
  dig_p3 = signed_at b 10;
  dig_p4 = signed_at b 12;
  dig_p5 = signed_at b 14;
  dig_p6 = signed_at b 16;
  dig_p7 = signed_at b 18;
  dig_p8 = signed_at b 20;
  dig_p9 = signed_at b 22;
  dig_h1 = b 25;
}

-- And those of the second one, of 7 bytes.
pub second_block : Buffer → Params → Params
second_block b p = record p {
  dig_h2 = signed_at b 0;
  dig_h3 = b 2;
  dig_h4 = to_signed 15 (pos (bit_or (b 3 * 2 ^ 4) (bit_and (b 4) 0x0F)));
  dig_h5 = to_signed 15 (pos (bit_or (b 5 * 2 ^ 4) (b 4 / 2 ^ 4)));
  dig_h6 = to_signed 7 (pos (b 6));
}

module _ (dev : Device) where
  -- BME280_WriteCommands: the number of bytes written, or `false`.
  pub write_commands : Config → List ℕ → M ℕ
  write_commands c commands = do
    mutex_enter
    w ← i2c_write dev c.address commands false
    elim w [ none ↦ (do mutex_exit; pure 0) | some n ↦ (do mutex_exit; pure n) ]

  -- A register's number is written and bytes are read from there on, under the mutex; on an error
  -- the function returns its code.
  read_registers : Config → ℕ → ℕ → (Buffer → M (ℤ × Config)) → M (ℤ × Config)
  read_registers c reg n next = do
    mutex_enter
    w ← i2c_write dev c.address (reg ∷ []) true
    elim w [
      | none ↦ (do mutex_exit; pure (generic_error, c))
      | some _ ↦ (do
        r ← i2c_read dev c.address n false
        elim r [
          | none ↦ (do mutex_exit; pure (generic_error, c))
          | some r' ↦ (do mutex_exit; next r'.1)
        ])
    ]

  -- A value is written to a register in the same way.
  write_register : Config → ℕ → ℕ → M (ℤ × Config) → M (ℤ × Config)
  write_register c reg value next = do
    mutex_enter
    w ← i2c_write dev c.address (reg ∷ value ∷ []) false
    elim w [ none ↦ (do mutex_exit; pure (generic_error, c)) | some _ ↦ (do mutex_exit; next) ]

  -- `buffer` has 26 bytes on the stack, and the second block comes into the same one.
  pub read_calibration_data : Config → M (ℤ × Config)
  unfolding read_registers first_block second_block
  read_calibration_data c = read_registers c reg_calib_00 26 (λ b.
      let first = fill 26 b (λ i. 0) in
      let c' = record c { params = first_block first c.params } in
      read_registers c' reg_calib_26 7
        (λ b'. pure (success, record c' { params = second_block (fill 7 b' first) c'.params })))

  -- The last part of BME280_Init: the humidity, the filter's coefficient and the mode are set.
  configure : Config → M (ℤ × Config)
  unfolding write_register
  configure c = write_register c reg_ctrl_hum c.humidity_sampling (
      write_register c reg_config c.iir_coefficient
        (write_register c reg_ctrl_meas c.temp_and_pressure_mode (pure (success, c))))

  pub init_sensor : Config → M (ℤ × Config)
  unfolding read_calibration_data configure
  init_sensor c = do
    r ←
        read_calibration_data
          (record c { raw_data = λ i. if ltb i c.length then 0 else c.raw_data i })
    if is_error r.0 then pure r else configure r.1

  pub init_read : Config → M (ℤ × Config)
  unfolding write_register
  init_read c =
      if is_in_progress c.status
      then pure (failure, c)
      else (let c' = record c { status = read_in_progress } in
          write_register c' reg_ctrl_hum c'.humidity_sampling
            (write_register c' reg_ctrl_meas c'.temp_and_pressure_mode (pure (success, c'))))

  pub read : Config → M (ℤ × Config)
  unfolding read_registers
  read c =
      read_registers c 0xF7 8
        (λ b. pure (success, record c { raw_data = fill 8 b c.raw_data; status = read_success }))

-- The packet that goes to the queue in a round, if one does, and the state after.
module _ (dev : Device) (fl : F32) where
  pub poll : Config → DataPacket fl → M (Option (DataPacket fl) × Config × DataPacket fl)
  unfolding init_read read
  poll c d = do
    i ← init_read dev c
    r ← read dev i.1
    let c' = r.1
    if is_success c'.status
        then pure (
          some (process_data fl c'.raw_data c'.params d),
          c',
          process_data fl c'.raw_data c'.params d,
        )
        else pure (none, c', d)
