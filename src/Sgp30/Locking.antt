-- ===== src/Sgp30/Locking.antt =====
-- The I2C discipline of the driver, on every path.
use hk_rtos.Base.{◌≡◌, arith}
use hk_rtos.Bus.{Device, Trace}
use hk_rtos.Bus.Discipline.{free, lock_state}
use hk_rtos.Sgp30.{Config, DataPacket, init_sensor, read_blocking, poll}

module _ (dev : Device) (c : Config) (t : Trace) (idle : lock_state t ≡ free) where
  pub init_sensor-free : lock_state (init_sensor dev c t).1 ≡ free
  unfolding init_sensor
  init_sensor-free = ground arith

  pub read_blocking-free : lock_state (read_blocking dev c t).1 ≡ free
  unfolding read_blocking
  read_blocking-free = ground arith

-- A round of the task makes each transfer under the mutex and leaves it free, whatever the bus answers.
pub sgp30_poll-free :
    (dev : Device) (c : Config) (d : DataPacket) (t : Trace)
    → lock_state t ≡ free
    → lock_state (poll dev c d t).1 ≡ free
unfolding poll
sgp30_poll-free dev c d t idle = ground arith
