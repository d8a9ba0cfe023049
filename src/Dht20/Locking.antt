-- ===== src/Dht20/Locking.antt =====
-- The I2C discipline of the driver, on every path.
use hk_rtos.Base.{◌≡◌, arith}
use hk_rtos.Bus.{Device, Trace}
use hk_rtos.Bus.Discipline.{free, lock_state}
use hk_rtos.F32.{F32}
use hk_rtos.Dht.{DataPacket}
use hk_rtos.Dht20.{Config, init, init_read, read, poll}

module _ (dev : Device) (c : Config) (t : Trace) (idle : lock_state t ≡ free) where
  pub init-free : lock_state (init dev c t).1 ≡ free
  unfolding init
  init-free = ground arith

  pub init_read-free : lock_state (init_read dev c t).1 ≡ free
  unfolding init_read
  init_read-free = ground arith

  pub read-free : lock_state (read dev c t).1 ≡ free
  unfolding read
  read-free = ground arith

-- A round of the task makes each transfer under the mutex and leaves it free, whatever the bus answers.
pub poll-free :
    (dev : Device) (fl : F32) (c : Config) (d : DataPacket fl) (t : Trace)
    → lock_state t ≡ free
    → lock_state (poll dev fl c d t).1 ≡ free
unfolding poll
poll-free dev fl c d t idle = ground arith
