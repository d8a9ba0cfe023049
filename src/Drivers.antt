-- ===== src/Drivers.antt =====
-- The drivers on one bus. The tasks share the bus and its mutex; here their calls are made one after
-- another in any order, each from its beginning to its end, on any devices.
pub mod Interleaving
mod Tests
use hk_rtos.Base.{ℕ, ◌≡◌, refl, Bool, Option, List, []}
use hk_rtos.Base.Int.{ℤ}
use hk_rtos.Crc.{Buffer}
use hk_rtos.Bus.{Device, Trace}
use hk_rtos.Bus.Discipline.{free, lock_state}
use hk_rtos.F32.{F32}
use hk_rtos.Gfx
use hk_rtos.Dht
use hk_rtos.Dht20
use hk_rtos.Dht20.Locking as Dht20Locking
use hk_rtos.Sgp30
use hk_rtos.Sgp30.Locking as Sgp30Locking
use hk_rtos.Bme280
use hk_rtos.Bme280.Packets as Bme280Packets
use hk_rtos.Bme280.Locking as Bme280Locking
use hk_rtos.Ds1307
use hk_rtos.Ds1307.Clock as Clock
use hk_rtos.Eeprom
use hk_rtos.Eeprom.Locking as EepromLocking
use hk_rtos.Display
use hk_rtos.Display.Locking as DisplayLocking

-- A call of a driver takes the history of the bus from one to the other.
pub data Call (dev : Device) (fl : F32) : Trace → Trace → Type 0 where
  dht20_init : (c : Dht20.Config) (t : Trace) → Call dev fl t (Dht20.init dev c t).1
  dht20_poll :
      (c : Dht20.Config) (d : Dht.DataPacket fl) (t : Trace)
      → Call dev fl t (Dht20.poll dev fl c d t).1
  sgp30_init : (c : Sgp30.Config) (t : Trace) → Call dev fl t (Sgp30.init_sensor dev c t).1
  sgp30_read : (c : Sgp30.Config) (t : Trace) → Call dev fl t (Sgp30.read_blocking dev c t).1
  sgp30_poll :
      (c : Sgp30.Config) (d : Sgp30.DataPacket) (t : Trace) → Call dev fl t (Sgp30.poll dev c d t).1
  bme280_init : (c : Bme280.Config) (t : Trace) → Call dev fl t (Bme280.init_sensor dev c t).1
  bme280_write :
      (c : Bme280.Config) (bytes : List ℕ) (t : Trace)
      → Call dev fl t (Bme280.write_commands dev c bytes t).1
  bme280_poll :
      (c : Bme280.Config) (d : Bme280Packets.DataPacket fl) (t : Trace)
      → Call dev fl t (Bme280.poll dev fl c d t).1
  clock_init :
      (c : Ds1307.Config) (dt : Option Ds1307.DataPacket) (t : Trace)
      → Call dev fl t (Ds1307.init dev c dt t).1
  clock_read :
      (mktime : Ds1307.Tm → ℤ) (at_null : ℕ) (c : Ds1307.Config) (dt : Ds1307.DataPacket)
      (t : Trace)
      → Call dev fl t (Ds1307.read_date_time dev mktime at_null c dt t).1
  eeprom_write : (p : Eeprom.Packet) (t : Trace) → Call dev fl t (Eeprom.write dev p t).1
  eeprom_read :
      (speed address size : ℕ) (buffer : Buffer) (t : Trace)
      → Call dev fl t (Eeprom.read dev speed address size buffer t).1
  eeprom_write_blob :
      (addr : ℕ) (bytes : List ℕ) (t : Trace) → Call dev fl t (Eeprom.write_blob dev addr bytes t).1
  display_init : (linked : Bool) (t : Trace) → Call dev fl t (Display.init dev linked t).1
  display_refresh :
      (linked : Bool) (g : Gfx.State) (t : Trace) → Call dev fl t (Display.refresh dev linked g t).1

-- The histories of the bus since the start.
pub data Reach (dev : Device) (fl : F32) : Trace → Type 0 where
  start : Reach dev fl []
  next : {t u : Trace} → Reach dev fl t → Call dev fl t u → Reach dev fl u

Call-free :
    {dev : Device} {fl : F32} {t u : Trace}
    → Call dev fl t u
    → lock_state t ≡ free
    → lock_state u ≡ free
Call-free {dev} {fl} (dht20_init c t) idle = Dht20Locking.init-free dev c t idle
Call-free {dev} {fl} (dht20_poll c d t) idle = Dht20Locking.poll-free dev fl c d t idle
Call-free {dev} {fl} (sgp30_init c t) idle = Sgp30Locking.init_sensor-free dev c t idle
Call-free {dev} {fl} (sgp30_read c t) idle = Sgp30Locking.read_blocking-free dev c t idle
Call-free {dev} {fl} (sgp30_poll c d t) idle = Sgp30Locking.sgp30_poll-free dev c d t idle
Call-free {dev} {fl} (bme280_init c t) idle = Bme280Locking.init_sensor-Releases dev c t idle
Call-free {dev} {fl} (bme280_write c bs t) idle =
    Bme280Locking.write_commands-Releases dev c bs t idle
Call-free {dev} {fl} (bme280_poll c d t) idle = Bme280Locking.bme280_poll-Releases dev fl c d t idle
Call-free {dev} {fl} (clock_init c dt t) idle = Clock.ds1307_init-free dev c dt t idle
Call-free {dev} {fl} (clock_read mk z c dt t) idle = Clock.read_date_time-free dev mk z c dt t idle
Call-free {dev} {fl} (eeprom_write p t) idle = EepromLocking.write-free dev p t idle
Call-free {dev} {fl} (eeprom_read s a n b t) idle =
    EepromLocking.eeprom_read-free dev s a n b t idle
Call-free {dev} {fl} (eeprom_write_blob a bs t) idle = EepromLocking.write_blob-free dev a bs t idle
Call-free {dev} {fl} (display_init linked t) idle = DisplayLocking.init-Releases dev linked t idle
Call-free {dev} {fl} (display_refresh linked g t) idle =
    DisplayLocking.refresh-Releases dev linked g t idle

-- Whatever calls of the drivers were made, and whatever the devices answered, every transfer was made
-- while the mutex was held, the mutex was never taken twice, nor left when it was free, and it is free
-- after the last call.
pub Reach-free : {dev : Device} {fl : F32} {t : Trace} → Reach dev fl t → lock_state t ≡ free
Reach-free start = refl
Reach-free (next r c) = Call-free c (Reach-free r)
