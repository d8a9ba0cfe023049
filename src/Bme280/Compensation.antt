-- ===== src/Bme280/Compensation.antt =====
-- The formulas that turn raw measurements into physical ones (BME280_CompensateTemp,
-- BME280_CompensatePressure and BME280_CompensateHumidity in src/sensors/bme280/bme280.c). The C
-- code computes in i32 and i64; here a result is brought to its type where it is assigned or
-- shifted to the right, so that sums and products wrap around.
use hk_rtos.Base.{ℕ, zero, ◌*◌, ◌^◌, Bool, true, false, if◌then◌else◌}
use hk_rtos.Base.Int.{ℤ, pos, ◌+ℤ◌, ◌-ℤ◌, ◌*ℤ◌, ◌/ℤ◌, shift_right, to_signed, to_unsigned, ltb_ℤ}

-- BME280_CalibrationParams_t.
pub record Params : Type 0 where
  pub dig_t1 : ℕ
  pub dig_t2 : ℤ
  pub dig_t3 : ℤ
  pub dig_p1 : ℕ
  pub dig_p2 : ℤ
  pub dig_p3 : ℤ
  pub dig_p4 : ℤ
  pub dig_p5 : ℤ
  pub dig_p6 : ℤ
  pub dig_p7 : ℤ
  pub dig_p8 : ℤ
  pub dig_p9 : ℤ
  pub dig_h1 : ℕ
  pub dig_h2 : ℤ
  pub dig_h3 : ℕ
  pub dig_h4 : ℤ
  pub dig_h5 : ℤ
  pub dig_h6 : ℤ

abbrev pub i32 : ℤ → ℤ
i32 a = to_signed 31 a

abbrev i64 : ℤ → ℤ
i64 a = to_signed 63 a

-- `a >> k` of an i32 and of an i64.
abbrev shr32 : ℕ → ℤ → ℤ
shr32 k a = shift_right k (i32 a)

abbrev shr64 : ℕ → ℤ → ℤ
shr64 k a = shift_right k (i64 a)

-- The temperature, and `tFine`.
unfoldable pub compensate_temp : ℤ → Params → ℤ × ℤ
compensate_temp adc p =
    let var1 = shr32 11 ((shr32 3 adc -ℤ pos (p.dig_t1 * 2)) *ℤ p.dig_t2) in
    let from_t1 = shr32 4 adc -ℤ pos p.dig_t1 in
    let var2 = shr32 14 (shr32 12 (from_t1 *ℤ from_t1) *ℤ p.dig_t3) in
    let t_fine = i32 (var1 +ℤ var2) in (shr32 8 (t_fine *ℤ pos 5 +ℤ pos 128), t_fine)

-- The divisor of the pressure: `var1` before the test.
unfoldable pub pressure_divisor : Params → ℤ → ℤ
pressure_divisor p t_fine =
    let var1 = t_fine -ℤ pos 128000 in
    let square = var1 *ℤ var1 in
    let var1' = i64 (shr64 8 (square *ℤ p.dig_p3) +ℤ var1 *ℤ p.dig_p2 *ℤ pos (2 ^ 12)) in
    shr64 33 ((pos (2 ^ 47) +ℤ var1') *ℤ pos p.dig_p1)

unfoldable pub is_zero : ℤ → Bool
is_zero (pos zero) = true
is_zero _ = false

unfoldable pub compensate_pressure : ℤ → Params → ℤ → ℕ
unfolding pressure_divisor is_zero
compensate_pressure adc p t_fine =
    let from = t_fine -ℤ pos 128000 in
    let var2 =
      i64 (
        from *ℤ from *ℤ p.dig_p6 +ℤ from *ℤ p.dig_p5 *ℤ pos (2 ^ 17) +ℤ p.dig_p4 *ℤ pos (2 ^ 35)) in
    let var1 = pressure_divisor p t_fine in
    let start = i32 (pos 1048576 -ℤ adc) in
    let q = i64 (i64 ((start *ℤ pos (2 ^ 31) -ℤ var2) *ℤ pos 3125) /ℤ var1) in
    let high = shr64 25 (p.dig_p9 *ℤ shr64 13 q *ℤ shr64 13 q) in
    let low = shr64 19 (p.dig_p8 *ℤ q) in
    if is_zero var1
    then 0
    else to_unsigned 32 (shr64 8 (q +ℤ high +ℤ low) +ℤ p.dig_p7 *ℤ pos (2 ^ 4))

-- `v_x1_u32r` before the two bounds.
unfoldable pub humidity_before_bounds : ℤ → Params → ℤ → ℤ
humidity_before_bounds adc p t_fine =
    let v = i32 (t_fine -ℤ pos 76800) in
    let left =
      shr32 15 (adc *ℤ pos (2 ^ 14) -ℤ p.dig_h4 *ℤ pos (2 ^ 20) -ℤ p.dig_h5 *ℤ v +ℤ pos 16384) in
    let scale =
      shr32 10 (shr32 10 (v *ℤ p.dig_h6) *ℤ (shr32 11 (v *ℤ pos p.dig_h3) +ℤ pos 32768)) in
    let right = shr32 14 ((scale +ℤ pos 2097152) *ℤ p.dig_h2 +ℤ pos 8192) in
    let v' = i32 (left *ℤ right) in
    i32 (v' -ℤ shr32 4 (shr32 7 (shr32 15 v' *ℤ shr32 15 v') *ℤ pos p.dig_h1))

-- The two bounds, and the result.
unfoldable pub bound_humidity : ℤ → ℕ
bound_humidity v =
    let v' = if ltb_ℤ v (pos 0) then pos 0 else v in
    let v'' = if ltb_ℤ (pos 419430400) v' then pos 419430400 else v' in
    to_unsigned 32 (shift_right 12 v'')

unfoldable pub compensate_humidity : ℤ → Params → ℤ → ℕ
compensate_humidity adc p t_fine = bound_humidity (humidity_before_bounds adc p t_fine)
