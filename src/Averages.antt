-- ===== src/Averages.antt =====
-- The weighted averages over all sensors (src/process.c): `weighted_average` is hkWeightedAverage,
-- called with an array, and `averages` is what vDataProcessTask computes with it for a snapshot.
-- An array is the memory from its first element on.
pub mod Bounds
mod Tests
use hk_rtos.Base.{
  ℕ, zero, suc, ◌+◌, ◌^◌, ◌≡◌, Bool, true, false, List, [], ◌∷◌, ◌==◌, ltb, leb, if◌then◌else◌, u16,
  length,
}
use hk_rtos.Base.Int.{pos}
use hk_rtos.F32.{F32}
use hk_rtos.Dht
use hk_rtos.Bme280.Packets as Bme280
use hk_rtos.Ds18b20

module _ (fl : F32) where
  open fl use {F, of_int, decimal, add, mul, div}

  -- Average_DataPacket_t.
  pub record Weighted : Type 0 where
    pub value : F
    pub weight : ℕ

  -- The measurements of Sensors_DataPacket_t that the averages are taken of.
  pub record Snapshot : Type 0 where
    pub dht_0 : Dht.DataPacket fl
    pub dht_1 : Dht.DataPacket fl
    pub dht_2 : Dht.DataPacket fl
    pub dht_3 : Dht.DataPacket fl
    pub bme280_0 : Bme280.DataPacket fl
    pub bme280_1 : Bme280.DataPacket fl
    pub ds18b20_0 : Ds18b20.DataPacket fl

  -- And its fields for the averages.
  pub record Averages : Type 0 where
    pub temperature : F
    pub dew_point : F
    pub relative_humidity : F
    pub absolute_humidity : F
    pub pressure : F
    pub bme280_avg : Bme280.DataPacket fl
    pub dht_avg : Dht.DataPacket fl

  -- The loop of hkWeightedAverage from index `i` on, with `left` rounds left.
  sums_from : (ℕ → Weighted) → ℕ → ℕ → F → ℕ → F × ℕ
  sums_from data_at zero i sum divider = (sum, divider)
  sums_from data_at (suc left) i sum divider =
      let d = data_at i in
      sums_from data_at left (i + 1) (add sum (mul d.value (of_int (pos d.weight))))
        (u16 (divider + d.weight))

  pub weighted_average : (ℕ → Weighted) → ℕ → F
  unfolding sums_from
  weighted_average data_at len =
      let s = sums_from data_at len 0 (decimal 0 1) 0 in
      if ltb len 1
      then (data_at 0).value
      else if len == 1
      then (data_at 0).value
      else div s.0 (of_int (pos s.1))

  -- The elements of an array, and what lies in memory behind them.
  abbrev pub followed_by : List Weighted → (ℕ → Weighted) → ℕ → Weighted
  followed_by [] behind i = behind i
  followed_by (x ∷ xs) behind zero = x
  followed_by (x ∷ xs) behind (suc i) = followed_by xs behind i

  abbrev with_weight : ℕ → F → Weighted
  with_weight w v = record { value = v; weight = w }

  -- The weights 10, 10, 9, 9, 2 and 7 of the sensors that measure humidity.
  abbrev humid_array : F → F → F → F → F → F → List Weighted
  humid_array a b c d e f =
      with_weight 10 a
      ∷ with_weight 10 b
      ∷ with_weight 9 c
      ∷ with_weight 9 d
      ∷ with_weight 2 e
      ∷ with_weight 7 f
      ∷ []

  pub temperature_array : Snapshot → List Weighted
  temperature_array s =
      with_weight 10 s.bme280_0.temperature
      ∷ with_weight 10 s.bme280_1.temperature
      ∷ with_weight 10 s.ds18b20_0.temperature
      ∷ with_weight 9 s.dht_0.temperature
      ∷ with_weight 9 s.dht_1.temperature
      ∷ with_weight 2 s.dht_2.temperature
      ∷ with_weight 7 s.dht_3.temperature
      ∷ []

  pub dew_point_array : Snapshot → List Weighted
  dew_point_array s =
      humid_array s.bme280_0.dew_point s.bme280_1.dew_point s.dht_0.dew_point s.dht_1.dew_point
        s.dht_2.dew_point s.dht_3.dew_point

  pub relative_humidity_array : Snapshot → List Weighted
  relative_humidity_array s =
      humid_array s.bme280_0.humidity s.bme280_1.humidity s.dht_0.humidity s.dht_1.humidity
        s.dht_2.humidity s.dht_3.humidity

  pub absolute_humidity_array : Snapshot → List Weighted
  absolute_humidity_array s =
      humid_array s.bme280_0.absolute_humidity s.bme280_1.absolute_humidity
        s.dht_0.absolute_humidity s.dht_1.absolute_humidity s.dht_2.absolute_humidity
        s.dht_3.absolute_humidity

  pub pressure_array : Snapshot → List Weighted
  pressure_array s = with_weight 8 s.bme280_0.pressure ∷ with_weight 8 s.bme280_1.pressure ∷ []

  -- `behind` is what lies in memory behind each of the five arrays, in the order of the results. The
  -- dew points are averaged with the length of the temperatures.
  pub averages : (ℕ → ℕ → Weighted) → Snapshot → Averages
  unfolding weighted_average temperature_array dew_point_array relative_humidity_array
      absolute_humidity_array pressure_array
  averages behind s =
      let temperature_length = length (temperature_array s) in
      let humidity_length = length (relative_humidity_array s) in
      record {
        temperature =
            weighted_average (followed_by (temperature_array s) (behind 0)) temperature_length;
        dew_point =
            weighted_average (followed_by (dew_point_array s) (behind 1)) temperature_length;
        relative_humidity =
            weighted_average (followed_by (relative_humidity_array s) (behind 2)) humidity_length;
        absolute_humidity =
            weighted_average (followed_by (absolute_humidity_array s) (behind 3)) humidity_length;
        pressure =
            weighted_average (followed_by (pressure_array s) (behind 4))
              (length (pressure_array s));
        bme280_avg = Bme280.average_data fl s.bme280_0 (s.bme280_1 ∷ []) 2;
        dht_avg = Dht.average_data fl s.dht_0 (s.dht_1 ∷ []) 2;
      }
