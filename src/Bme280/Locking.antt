-- ===== src/Bme280/Locking.antt =====
-- The I2C discipline of the driver, on every path.
use hk_rtos.Base.{ℕ, arith, List, if◌then◌else◌, ltb, Bool-cases, inl, inr}
use hk_rtos.Bus.{Device, pure}
use hk_rtos.Bus.Discipline.{Releases, >>=-Releases}
use hk_rtos.F32.{F32}
use hk_rtos.Bme280.Packets.{DataPacket}
use hk_rtos.Bme280.{
  Config, is_error, write_commands, read_calibration_data, configure, init_sensor, init_read, read,
  poll,
}

module _ (dev : Device) where
  pub write_commands-Releases :
      (c : Config) (bytes : List ℕ) → Releases (write_commands dev c bytes)
  unfolding write_commands
  write_commands-Releases c bytes t idle = ground arith

  read_calibration_data-Releases : (c : Config) → Releases (read_calibration_data dev c)
  unfolding read_calibration_data
  read_calibration_data-Releases c t idle = ground arith

  configure-Releases : (c : Config) → Releases (configure dev c)
  unfolding configure
  configure-Releases c t idle = ground arith

  pub init_sensor-Releases : (c : Config) → Releases (init_sensor dev c)
  unfolding init_sensor
  init_sensor-Releases c =
      let cleared = record c { raw_data = λ i. if ltb i c.length then 0 else c.raw_data i } in
      >>=-Releases (read_calibration_data dev cleared)
        (λ r. if is_error r.0 then pure r else configure dev r.1)
        (read_calibration_data-Releases cleared)
        (λ r t idle. elim (Bool-cases (is_error r.0)) [
          | inl failed ↦ rw failed idle
          | inr fine ↦ rw fine (configure-Releases r.1 t idle)
        ])

  pub init_read-Releases : (c : Config) → Releases (init_read dev c)
  unfolding init_read
  init_read-Releases c t idle = ground arith

  pub read-Releases : (c : Config) → Releases (read dev c)
  unfolding read
  read-Releases c t idle = ground arith

  pub bme280_poll-Releases :
      (fl : F32) (c : Config) (d : DataPacket fl) → Releases (poll dev fl c d)
  unfolding poll
  bme280_poll-Releases fl c d t idle = ground (
    arith,
    init_read-Releases c t idle,
    read-Releases (init_read dev c t).0.1 (init_read dev c t).1,
  )
