-- ===== src/Bme280/Tests.antt =====
-- The driver at concrete inputs.
use hk_rtos.Base.{◌≡◌, refl, ◌≤◌, [], ◌∷◌, ◌*◌, true, false}
use hk_rtos.Base.Int.{pos, negsuc, ◌+ℤ◌, ◌-ℤ◌, ◌*ℤ◌}
use hk_rtos.Bus.{enter, writes}
use hk_rtos.Samples.{coarse, zeros, willing}
use hk_rtos.Bme280.Compensation.{Params, compensate_temp, compensate_pressure, compensate_humidity}
use hk_rtos.Bme280.Packets.{DataPacket}
use hk_rtos.Bme280.{Config, init, init_read, poll}
use hk_rtos.Bme280.Checks.{fresh, compensate_humidity-le, poll-fresh}

-- The example of the data sheet of the BMP280, which has the same formulas.
abbrev params : Params
params = record {
  dig_t1 = 27504;
  dig_t2 = pos 26435;
  dig_t3 = negsuc 999;
  dig_p1 = 36477;
  dig_p2 = negsuc 10684;
  dig_p3 = pos 3024;
  dig_p4 = pos 2855;
  dig_p5 = pos 140;
  dig_p6 = negsuc 6;
  dig_p7 = pos 15500;
  dig_p8 = negsuc 14599;
  dig_p9 = pos 6000;
  dig_h1 = 75;
  dig_h2 = pos 370;
  dig_h3 = 0;
  dig_h4 = pos 313;
  dig_h5 = pos 50;
  dig_h6 = pos 30;
}

temperature : compensate_temp (pos 519888) params ≡ (pos 2508, pos 128422)
unfolding compensate_temp ◌+ℤ◌ ◌-ℤ◌ ◌*ℤ◌
temperature = refl

-- 100653.254 Pa, in 256ths.
pressure : compensate_pressure (pos 415148) params (pos 128422) ≡ 25767233
unfolding compensate_pressure ◌+ℤ◌ ◌-ℤ◌ ◌*ℤ◌
pressure = refl

abbrev config : Config
config = record {
  raw_data = zeros;
  length = 8;
  address = 0x76;
  status = init;
  humidity_sampling = 2;
  iir_coefficient = 8;
  temp_and_pressure_mode = 0x49;
  params = params;
}

abbrev packet : DataPacket coarse
packet = record {
  pressure = pos 1;
  temperature = pos 1;
  dew_point = pos 1;
  humidity = pos 1;
  absolute_humidity = pos 1;
}

compensate_humidity-le_example : compensate_humidity (pos 30000) params (pos 128422) ≤ 100 * 1024
compensate_humidity-le_example = compensate_humidity-le (pos 30000) params (pos 128422)

poll-fresh_example :
    let s = (init_read willing config []).1 in
    (poll willing coarse config packet []).0.0
    ≡ fresh coarse params packet
        (willing.on_write (enter ∷ s) 0x76 (0xF7 ∷ []) true)
        (willing.on_read (writes 0x76 (0xF7 ∷ []) true ∷ enter ∷ s) 0x76 8 false)
poll-fresh_example = poll-fresh willing coarse config packet packet []
