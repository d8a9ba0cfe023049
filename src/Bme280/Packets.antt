-- ===== src/Bme280/Packets.antt =====
-- What the BME280 driver makes of the bytes that it read (BME280_ProcessData, BME280_AverageData and
-- their helpers in src/sensors/bme280/bme280.c).
use hk_rtos.Base.{ℕ, ◌*◌, ◌/◌, ◌^◌, List, [], ◌∷◌, bit_or, ltb, if◌then◌else◌}
use hk_rtos.Base.Int.{pos}
use hk_rtos.Crc.{Buffer}
use hk_rtos.F32.{F32}
use hk_rtos.Bme280.Compensation.{Params, compensate_temp, compensate_pressure, compensate_humidity}

pub raw_pressure : Buffer → ℕ
raw_pressure raw = bit_or (bit_or (raw 0 * 2 ^ 12) (raw 1 * 2 ^ 4)) (raw 2 / 2 ^ 4)

pub raw_temp : Buffer → ℕ
raw_temp raw = bit_or (bit_or (raw 3 * 2 ^ 12) (raw 4 * 2 ^ 4)) (raw 5 / 2 ^ 4)

pub raw_humidity : Buffer → ℕ
raw_humidity raw = bit_or (raw 6 * 2 ^ 8) (raw 7)

module _ (fl : F32) where
  open fl use {F, of_int, decimal, add, sub, mul, div, exp, log}

  pub record DataPacket : Type 0 where
    pub pressure : F
    pub temperature : F
    pub dew_point : F
    pub humidity : F
    pub absolute_humidity : F

  pub set_dew_point : DataPacket → DataPacket
  set_dew_point d =
      let gamma =
        add (log (div d.humidity (decimal 1000 1)))
          (div (mul (decimal 17625 3) d.temperature) (add (decimal 24304 2) d.temperature)) in
      record d { dew_point = div (mul (decimal 24304 2) gamma) (sub (decimal 17625 3) gamma) }

  pub set_absolute_humidity : DataPacket → DataPacket
  set_absolute_humidity d =
      let p_sat =
        mul (decimal 61121 2)
          (exp (div (mul (decimal 1767 2) d.temperature) (add d.temperature (decimal 2435 1)))) in
      let p_vapor = mul p_sat (div d.humidity (decimal 1000 1)) in
      let temp_kelvin = add d.temperature (decimal 27315 2) in
      record d { absolute_humidity = div (mul (decimal 2167 3) p_vapor) temp_kelvin }

  unfoldable pub process_data : Buffer → Params → DataPacket → DataPacket
  unfolding raw_pressure raw_temp raw_humidity compensate_temp compensate_pressure
      compensate_humidity set_dew_point set_absolute_humidity
  process_data raw p d =
      let t = compensate_temp (pos (raw_temp raw)) p in
      let pressure_raw = compensate_pressure (pos (raw_pressure raw)) p t.1 in
      let humidity_raw = compensate_humidity (pos (raw_humidity raw)) p t.1 in
      set_dew_point (
        set_absolute_humidity (record d {
          temperature = div (of_int t.0) (decimal 1000 1);
          pressure = div (div (of_int (pos pressure_raw)) (decimal 2560 1)) (decimal 1000 1);
          humidity = div (of_int (pos humidity_raw)) (decimal 10240 1);
        }))

  -- The sums of the loop of BME280_AverageData over the packets still to add: humidity,
  -- temperature and pressure.
  sums : List DataPacket → F → F → F → F × F × F
  sums [] rh t p = (rh, t, p)
  sums (d ∷ ds) rh t p = sums ds (add rh d.humidity) (add t d.temperature) (add p d.pressure)

  -- BME280_AverageData of a non-empty array, `first` and `rest`; `len` of them.
  pub average_data : DataPacket → List DataPacket → ℕ → DataPacket
  unfolding sums set_dew_point set_absolute_humidity
  average_data first rest len =
      if ltb len 2
      then first
      else (let s = sums (first ∷ rest) (decimal 0 1) (decimal 0 1) (decimal 0 1) in
          set_dew_point (
            set_absolute_humidity (record {
              pressure = div s.2 (of_int (pos len));
              temperature = div s.1 (of_int (pos len));
              dew_point = of_int (pos 0);
              humidity = div s.0 (of_int (pos len));
              absolute_humidity = of_int (pos 0);
            })))
