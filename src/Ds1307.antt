-- ===== src/Ds1307.antt =====
-- The driver of the DS1307 clock (src/timing/ds1307/ds1307.c): `init` is DS1307_Init and
-- `read_date_time` DS1307_ReadDateTime. A result `none` stands for a run that reads through a null
-- pointer.
pub mod Clock
mod Tests
use hk_rtos.Base.{ℕ, zero, suc, ◌+◌, ◌-◌, ◌*◌, ◌%◌, ◌^◌, Bool, true, false, not, Option, none, some}
use hk_rtos.Base.{List, [], ◌∷◌, ◌==◌, if◌then◌else◌, bit_and, u8, u16, u32}
use hk_rtos.Base.Int.{ℤ, pos, negsuc, ◌-ℤ◌}
use hk_rtos.Crc.{Buffer}
use hk_rtos.Bus.{Device, M, pure, ◌>>=◌, ◌>>◌, mutex_enter, mutex_exit, i2c_write, i2c_read, fill}
use hk_rtos.Bus.{success, failure, generic_error}
use hk_rtos.Bcd.{int_to_bcd, bcd_to_int}

pub record Config : Type 0 where
  pub address : ℕ
  pub reset : Bool
  pub utc_offset : ℕ

pub record DataPacket : Type 0 where
  pub sec : ℕ
  pub min : ℕ
  pub hour : ℕ
  pub day_name : ℕ
  pub day : ℕ
  pub month : ℕ
  pub year : ℕ

-- DS1307_REG_SECONDS.
abbrev pub reg_seconds : ℕ
reg_seconds = 0x00

-- The buffer `tbuf` of DS1307_Init: the register and seven bytes for it and the ones behind it.
pub set_bytes : DataPacket → List ℕ
set_bytes dt =
    reg_seconds
    ∷ int_to_bcd dt.sec
    ∷ int_to_bcd dt.min
    ∷ int_to_bcd dt.hour
    ∷ int_to_bcd dt.day_name
    ∷ int_to_bcd dt.day
    ∷ int_to_bcd dt.month
    ∷ int_to_bcd (dt.year % 100)
    ∷ []

-- The fields that DS1307_ReadDateTime takes from its `tbuf`.
pub packet_of : Buffer → DataPacket
packet_of tbuf = record {
  sec = bcd_to_int (tbuf 0);
  min = bcd_to_int (tbuf 1);
  hour = bcd_to_int (tbuf 2);
  day_name = bcd_to_int (tbuf 3);
  day = bcd_to_int (tbuf 4);
  month = bcd_to_int (tbuf 5);
  year = bcd_to_int (u8 (tbuf 6 + 2000));
}

-- The fields of `struct tm` that are given to mktime.
pub record Tm : Type 0 where
  pub tm_year : ℤ
  pub tm_mon : ℤ
  pub tm_mday : ℤ
  pub tm_hour : ℤ
  pub tm_min : ℤ
  pub tm_sec : ℤ

pub tm_of : DataPacket → Tm
tm_of dt = record {
  tm_year = pos dt.year -ℤ pos 1900;
  tm_mon = pos dt.month -ℤ pos 1;
  tm_mday = pos dt.day;
  tm_hour = pos dt.hour;
  tm_min = pos dt.min;
  tm_sec = pos dt.sec;
}

-- The conversion of C to u32.
abbrev pub to_u32 : ℤ → ℕ
to_u32 (pos n) = u32 n
to_u32 (negsuc n) = 2 ^ 32 - 1 - u32 n

module _ (dev : Device) where
  abort : ℤ → M (Option ℤ)
  abort status = do mutex_exit; pure (some status)

  -- The last part of DS1307_Init: the date and time are sent.
  send_time : Config → Option DataPacket → M (Option ℤ)
  unfolding abort set_bytes
  send_time c none = pure none
  send_time c (some dt) = do
    mutex_enter
    w ← i2c_write dev c.address (set_bytes dt) false
    elim w [ none ↦ abort generic_error | some _ ↦ abort success ]

  -- The part behind the two guards: the oscillator is started.
  start_clock : Config → Option DataPacket → ℕ → M (Option ℤ)
  unfolding abort send_time
  start_clock c dt seconds = do
    w ← i2c_write dev c.address (reg_seconds ∷ bit_and seconds 0x7F ∷ []) false
    elim w [ none ↦ abort generic_error | some _ ↦ (do mutex_exit; send_time c dt) ]

  guarded : Config → Option DataPacket → ℕ → Bool → M (Option ℤ)
  unfolding abort start_clock
  guarded c none seconds true = abort failure
  guarded c (some dt) seconds true = start_clock c (some dt) seconds
  guarded c dt seconds false = if not c.reset then abort success else start_clock c dt seconds

  pub init : Config → Option DataPacket → M (Option ℤ)
  unfolding abort guarded
  init c dt = do
    mutex_enter
    w ← i2c_write dev c.address (reg_seconds ∷ []) true
    elim w [
      | none ↦ abort generic_error
      | some _ ↦ (do
        r ← i2c_read dev c.address 1 true
        elim r [
          | none ↦ abort generic_error
          | some r' ↦
              (let seconds = u8 (r'.1 0) in guarded c dt seconds (not (bit_and seconds 0x80 == 0)))
        ])
    ]

  -- mktime is of the C library. DS1307_REG_SECONDS stands where i2c_write_blocking has a pointer to
  -- the bytes, so the byte that is sent is the one at address 0, `at_null`.
  pub read_date_time : (Tm → ℤ) → ℕ → Config → DataPacket → M (ℕ × DataPacket)
  unfolding packet_of tm_of
  read_date_time mktime at_null c dt = do
    mutex_enter
    w ← i2c_write dev c.address (at_null ∷ []) true
    elim w [
      | none ↦ (do mutex_exit; pure (to_u32 generic_error, dt))
      | some _ ↦ (do
        r ← i2c_read dev c.address 7 false
        elim r [
          | none ↦ (do mutex_exit; pure (to_u32 generic_error, dt))
          | some r' ↦ (do
            mutex_exit
            let dt' = packet_of (fill 7 r'.1 (λ i. 0))
            pure (to_u32 (mktime (tm_of dt') -ℤ pos (c.utc_offset * 3600)), dt'))
        ])
    ]
