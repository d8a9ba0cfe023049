-- ===== src/Ds18b20.antt =====
-- The driver of the DS18B20 sensor (src/sensors/ds18b20/ds18b20.c), as it is compiled: with
-- hkOW_USE_DMA off (include/config/arm.h). A function named here is the one with the prefix DS18B20_
-- there, and `poll` is one round of the loop of vDS18B20_Task.
pub mod Checksum
pub mod Machine
pub mod Resolution
mod Tests
use hk_rtos.Base.{
  ℕ, zero, suc, ◌+◌, ◌*◌, ◌-◌, ◌/◌, ◌%◌, ◌^◌, Bool, true, false, not, Option, none, some,
}
use hk_rtos.Base.{List, [], ◌∷◌, ◌==◌, ltb, leb, if◌then◌else◌, bit_and, bit_or, bit_xor, u8, u16}
use hk_rtos.Base.Int.{ℤ, pos, negsuc}
use hk_rtos.Crc.{Buffer}
use hk_rtos.F32.{F32}
use hk_rtos.OneWire.{Line, OneWire, reset, write_byte}
use hk_rtos.OneWire

-- ONEW_SKIP_ROM.
abbrev pub skip_rom : ℕ
skip_rom = 0xCC

-- The states that the code gives `state`, and the one main() gives it first.
pub data State : Type 0 where
  init idle start_conversion waiting_for_conversion start_read reading_scratchpad process : State

pub data DataStatus : Type 0 where
  unset data_ready data_error : DataStatus

pub record Config : Type 0 where
  pub address : ℕ
  pub data_buffer : Buffer
  pub length : ℕ
  pub data_count : ℕ
  pub state : State
  pub resolution : ℕ
  pub convert_start_time : ℕ

-- The inner loop of DS18B20_CRC, with `n` rounds left, on `crc` and `bit`.
pub crc_bits : ℕ → ℕ → ℕ → ℕ
crc_bits zero crc bit = crc
crc_bits (suc n) crc bit =
    let sum = bit_and (bit_xor crc bit) 0x01 in
    crc_bits n (if not (sum == 0) then bit_xor (crc / 2) 0x8C else crc / 2) (bit / 2)

pub crc_from : Buffer → ℕ → ℕ → ℕ → ℕ
unfolding crc_bits
crc_from d zero i crc = crc
crc_from d (suc left) i crc = crc_from d left (i + 1) (crc_bits 8 crc (d i))

pub crc : Buffer → ℕ → Bool
unfolding crc_from
crc d len = crc_from d len 0 0 == 0

-- The cast to i16 of `(data[1] << 8) | data[0]`.
raw_temperature : Buffer → ℤ
raw_temperature d =
    let raw = u16 (bit_or (d 1 * 2 ^ 8) (d 0)) in
    if ltb raw (2 ^ 15) then pos raw else negsuc (2 ^ 16 - 1 - raw)

module _ (line : Line) where
  -- MATCH_ROM is not implemented in the code.
  pub convert : ℕ → OneWire → Bool × OneWire
  convert address ow =
      let r = reset line ow in
      let s = write_byte line skip_rom r.1 in
      let c = write_byte line 0x44 s.1 in
      if not r.0
      then (false, r.1)
      else if not (address == skip_rom)
      then (false, r.1)
      else if not s.0
      then (false, s.1)
      else (c.0, c.1)

  pub match_read : Config → Bool
  match_read c = if ltb c.length 9 then false else true

  -- The loop of DS18B20_SkipRead from index `i` on, with `left` rounds left.
  read_from : ℕ → ℕ → Buffer → OneWire → Buffer × OneWire
  read_from zero i d ow = (d, ow)
  read_from (suc left) i d ow =
      let r = OneWire.read line ow in read_from left (i + 1) (λ j. if j == i then r.0 else d j) r.1

  pub skip_read : Config → OneWire → Bool × Config × OneWire
  unfolding read_from
  skip_read c ow =
      let r = reset line ow in
      let s = write_byte line skip_rom r.1 in
      let t = write_byte line 0xBE s.1 in
      let d = read_from c.length 0 c.data_buffer t.1 in
      if ltb c.length 9
      then (false, c, ow)
      else if not r.0
      then (false, c, r.1)
      else if not s.0
      then (false, c, s.1)
      else if not t.0
      then (false, c, t.1)
      else (true, record c { data_buffer = d.0 }, d.1)

-- The byte of the configuration register for a resolution in bits.
pub config_byte : ℕ → ℕ
config_byte resolution =
    if resolution == 9
    then 0x1F
    else if resolution == 10
    then 0x3F
    else if resolution == 11
    then 0x5F
    else 0x7F

module _ (line : Line) where
  -- Bytes written one after the other; what the calls of OneWire_WriteByte return is not looked at.
  write_all : List ℕ → OneWire → OneWire
  write_all [] ow = ow
  write_all (b ∷ bs) ow = write_all bs (write_byte line b ow).1

  -- DS18B20_SetResolution, without the wait at its end.
  pub set_resolution : ℕ → OneWire → Bool × OneWire
  unfolding write_all config_byte
  set_resolution resolution ow =
      let r = reset line ow in
      let s = reset line (write_all (skip_rom ∷ 0x4E ∷ 0 ∷ 0 ∷ config_byte resolution ∷ []) r.1) in
      if not r.0
      then (false, r.1)
      else if not s.0
      then (false, s.1)
      else (true, write_all (skip_rom ∷ 0x48 ∷ []) s.1)

-- The packet, with the temperature that the code takes from the buffer.
module _ (fl : F32) where
  open fl use {F, of_int, decimal, div}

  pub record DataPacket : Type 0 where
    pub temperature : F
    pub address : ℕ
    pub status : DataStatus

  temperature_of : Buffer → F
  unfolding raw_temperature
  temperature_of d = div (of_int (raw_temperature d)) (decimal 160 1)

module _ (line : Line) (fl : F32) where
  -- DS18B20_ProcessData. The test `ONEW_SKIP_ROM ? …` is on a constant.
  pub process_data : Config → DataPacket fl → OneWire → Bool × Config × DataPacket fl × OneWire
  unfolding match_read skip_read crc temperature_of
  process_data c d ow =
      let r = if c.address == skip_rom then skip_read line c ow else (match_read line c, c, ow) in
      let c' = r.1 in
      if not (crc c'.data_buffer c'.length)
      then (false, c', d, r.2)
      else if not r.0
      then (false, c', d, r.2)
      else (true, c', record d { temperature = temperature_of fl c'.data_buffer; address = 0 }, r.2)

  -- DS18B20_ReadAndProcess.
  pub read_and_process : Config → DataPacket fl → OneWire → Bool × Config × DataPacket fl × OneWire
  unfolding convert process_data
  read_and_process c d ow =
      let s = convert line c.address ow in
      if not s.0 then (false, c, d, s.1) else process_data c d s.1

  -- What is sent to the queue in a round, and the state after.
  pub poll : Config → DataPacket fl → OneWire → DataPacket fl × Config × OneWire
  unfolding convert process_data
  poll c d ow = let r = process_data c d (convert line c.address ow).1 in (r.2, r.1, r.3)

  -- DS18B20_TickRead.
  pub tick_read : Config → Config
  tick_read c = by_state c.state
    where
      by_state : State → Config
      by_state idle = record c { state = start_conversion }
      by_state _ = c

  -- Two command bytes behind a reset; what the calls of OneWire_WriteByte return is not looked at.
  command : ℕ → OneWire → OneWire
  command b ow = (write_byte line b (write_byte line skip_rom ow).1).1

  -- The cases of DS18B20_Tick, at the time `now` in microseconds.
  tick_in : State → ℕ → Config → DataPacket fl → OneWire → Config × DataPacket fl × OneWire
  unfolding command crc temperature_of
  tick_in start_conversion now c d ow =
      let r = reset line ow in
      if r.0
      then (
        record c { convert_start_time = now; state = waiting_for_conversion },
        d,
        command 0x44 r.1,
      )
      else (record c { state = idle }, d, r.1)
  tick_in waiting_for_conversion now c d ow =
      if ltb (c.convert_start_time + 750000) now
      then (record c { state = start_read }, d, ow)
      else (c, d, ow)
  tick_in start_read now c d ow =
      let r = reset line ow in
      if r.0
      then (record c { data_count = 0; state = reading_scratchpad }, d, command 0xBE r.1)
      else (record c { state = idle }, d, r.1)
  tick_in reading_scratchpad now c d ow =
      let r = OneWire.read line ow in
      let more = ltb c.data_count c.length in
      let c' =
        if more
        then record c {
          data_buffer = λ j. if j == c.data_count then r.0 else c.data_buffer j;
          data_count = u8 (c.data_count + 1);
        }
        else c in
      (
        if leb c'.length c'.data_count then record c' { state = process } else c',
        d,
        if more then r.1 else ow,
      )
  tick_in process now c d ow = (
    record c { state = idle },
    if crc c.data_buffer c.length
        then record {
          temperature = temperature_of fl c.data_buffer;
          address = if c.address == skip_rom then 0 else c.address;
          status = data_ready;
        }
        else record d { status = data_error },
    ow,
  )
  tick_in _ now c d ow = (c, d, ow)

  pub tick : ℕ → Config → DataPacket fl → OneWire → Config × DataPacket fl × OneWire
  unfolding tick_in
  tick now c d ow = tick_in c.state now c d ow
