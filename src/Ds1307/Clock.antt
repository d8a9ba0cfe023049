-- ===== src/Ds1307/Clock.antt =====
-- What the clock gives back of the time it was set to, and the I2C discipline of its driver.
use hk_rtos.Base.{
  ℕ, ◌+◌, ◌%◌, ◌≤◌, ◌<◌, ◌≡◌, ◌≢◌, arith, true, false, u8, get_or, none, some, Option, Bool, List,
  [], ◌∷◌, length, bit_and,
}
use hk_rtos.Base.Int.{ℤ}
use hk_rtos.Bus.{Device, Trace, enter, writes, reads}
use hk_rtos.Bus.Discipline.{free, lock_state}
use hk_rtos.Crc.{Buffer}
use hk_rtos.Bcd.{int_to_bcd, bcd_to_int_lem, bcd_to_int-int_to_bcd}
use hk_rtos.Ds1307.{Config, DataPacket, Tm, reg_seconds, set_bytes, packet_of, init, read_date_time}

-- Initialization makes each transfer under the mutex and leaves it free, whatever the bus answers.
pub ds1307_init-free :
    (dev : Device) (c : Config) (dt : Option DataPacket) (t : Trace)
    → lock_state t ≡ free
    → lock_state (init dev c dt t).1 ≡ free
unfolding init
ds1307_init-free dev c none t idle = ground arith
ds1307_init-free dev c (some dt) t idle = ground arith

-- A read of the time makes each transfer under the mutex and leaves it free.
pub read_date_time-free :
    (dev : Device) (mktime : Tm → ℤ) (at_null : ℕ) (c : Config) (dt : DataPacket) (t : Trace)
    → lock_state t ≡ free
    → lock_state (read_date_time dev mktime at_null c dt t).1 ≡ free
unfolding read_date_time
read_date_time-free dev mktime at_null c dt t idle = ground arith

-- The clock's registers after the bytes that DS1307_Init sends.
abbrev pub registers : DataPacket → Buffer
registers dt i = get_or (set_bytes dt) (i + 1) 0

-- Of a time of day and date in range, the clock's registers give back every field but the year, and
-- the year that is read is never the one that was set, if that one has four digits.
pub packet_of-registers :
    (dt : DataPacket)
    → dt.sec < 60
    → dt.min < 60
    → dt.hour < 24
    → dt.day_name < 8
    → dt.day < 32
    → dt.month < 13
    → 1000 ≤ dt.year
    → let got = packet_of (registers dt) in
      (got.sec ≡ dt.sec)
      × (got.min ≡ dt.min)
      × (got.hour ≡ dt.hour)
      × (got.day_name ≡ dt.day_name)
      × (got.day ≡ dt.day)
      × (got.month ≡ dt.month)
      × (got.year ≢ dt.year)
unfolding packet_of set_bytes
packet_of-registers dt s mi h w d mo y = (
  bcd_to_int-int_to_bcd dt.sec (omega arith),
  bcd_to_int-int_to_bcd dt.min (omega arith),
  bcd_to_int-int_to_bcd dt.hour (omega arith),
  bcd_to_int-int_to_bcd dt.day_name (omega arith),
  bcd_to_int-int_to_bcd dt.day (omega arith),
  bcd_to_int-int_to_bcd dt.month (omega arith),
  omega (arith, bcd_to_int_lem (u8 (int_to_bcd (dt.year % 100) + 2000)) (omega arith)),
)

-- With no time to set, a clock that runs and whose configuration asks for a reset makes
-- DS1307_Init go through the null pointer.
pub init_null :
    (dev : Device) (c : Config) (t : Trace) (b : Buffer)
    → ((s : Trace) (bs : List ℕ) (n : Bool) → dev.on_write s c.address bs n ≡ some (length bs))
    → ((s : Trace) → dev.on_read s c.address 1 true ≡ some (1, b))
    → bit_and (u8 (b 0)) 0x80 ≡ 0
    → c.reset ≡ true
    → (init dev c none t).0 ≡ none
unfolding init
init_null dev c t b acks answers running reset =
    let first = writes c.address (reg_seconds ∷ []) true ∷ enter ∷ t in
    let second = reads c.address 1 true ∷ first in
    ground (
      arith,
      acks (enter ∷ t) (reg_seconds ∷ []) true,
      answers first,
      acks second (reg_seconds ∷ bit_and (u8 (b 0)) 0x7F ∷ []) false,
    )
