-- ===== src/Pipeline/Tests.antt =====
-- The tasks at concrete packets.
use hk_rtos.Base.{ℕ, refl, false, Option, none, some, List, [], ◌∷◌}
use hk_rtos.Base.Int.{pos}
use hk_rtos.Samples.{coarse, snapshot, dht, bme}
use hk_rtos.Averages.{Weighted}
use hk_rtos.Pipeline.{
  Packet, Arrival, Collector, Shared, bme280_0, dht20_0, timeout, collect_round, process_round,
}
use hk_rtos.Pipeline.Rtos.{Queue}
use hk_rtos.Pipeline.Latest.{collected, IsLatest, collected-IsLatest}
use hk_rtos.Pipeline.Flow.{collect, process, here, next, IsSound, Reach-IsSound}

abbrev add : {A : Type 0} → A → Option A → Option A
add x none = some x
add x (some y) = some y

abbrev one_place : Queue (Packet coarse)
one_place = record {
  Q = Option (Packet coarse);
  empty = none;
  send = add;
  receive = λ x. (x, none);
  receive-empty = refl;
  receive-send = λ x. refl;
  send-send = λ x y. refl;
}

abbrev first : Packet coarse
first = record {
  sensors = snapshot;
  pms5003_0 = record { pm1 = 0; pm2_5 = 0; pm10 = 0 };
  sgp30_0 = record { eco2 = 0; tvoc = 0 };
  jsonify_0 = false;
  jsonify_1 = false;
  averages = record {
    temperature = pos 0;
    dew_point = pos 0;
    relative_humidity = pos 0;
    absolute_humidity = pos 0;
    pressure = pos 0;
    bme280_avg = bme;
    dht_avg = dht;
  };
}

abbrev some_rounds : List (Arrival coarse)
some_rounds = bme280_0 bme ∷ timeout ∷ dht20_0 dht ∷ bme280_0 bme ∷ []

abbrev collector : Collector coarse
collector = record { packet = first; last_send = 0 }

abbrev none_waiting : Shared coarse one_place
none_waiting = record { snapshots = none; mqtt = none; display = none }

abbrev light : ℕ → ℕ → Weighted coarse
light k i = record { value = pos 3; weight = 1 }

collected-IsLatest_example : IsLatest coarse some_rounds first (collected coarse some_rounds first)
collected-IsLatest_example = collected-IsLatest coarse some_rounds first

Reach-IsSound_example : IsSound coarse one_place first.averages (
  (collect_round coarse one_place timeout 3000 3001 collector none_waiting).0,
  process_round coarse one_place light
      (collect_round coarse one_place timeout 3000 3001 collector none_waiting).1,
)
Reach-IsSound_example =
    Reach-IsSound coarse one_place collector
      (next (next here (collect timeout 3000 3001 collector none_waiting)) (process light _ _))
