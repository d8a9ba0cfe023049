-- ===== src/Pipeline/Latest.antt =====
-- The collector's packet holds what came last from each queue, and its clock counts over the wrap of
-- the tick counter.
use hk_rtos.Base.{
  ℕ, ◌+◌, ◌-◌, ◌^◌, ◌<◌, ◌≡◌, refl, arith, Option, none, some, List, [], ◌∷◌, leb, u32,
}
use mathlib.Core.Option
use hk_rtos.F32.{F32}
use hk_rtos.Dht
use hk_rtos.Sgp30
use hk_rtos.Pms5003
use hk_rtos.Ds18b20
use hk_rtos.Bme280.Packets as Bme280
use hk_rtos.Pipeline.{
  Packet, Arrival, bme280_0, bme280_1, dht20_0, dht20_1, dht11_0, dht22_0, sgp30_0, pms5003_0,
  ds18b20_0, timeout, take_arrival, is_due, send_interval,
}

-- The last of the values that a selection finds in a list, or the one given.
pub latest : {A B : Type 0} → (A → Option B) → List A → B → B
latest select [] v = v
latest select (a ∷ l) v = latest select l (Option.get_or (select a) v)

module _ (fl : F32) where
  -- The packets of each queue.
  abbrev pub of_bme280_0 : Arrival fl → Option (Bme280.DataPacket fl)
  of_bme280_0 (bme280_0 d) = some d
  of_bme280_0 _ = none

  abbrev pub of_bme280_1 : Arrival fl → Option (Bme280.DataPacket fl)
  of_bme280_1 (bme280_1 d) = some d
  of_bme280_1 _ = none

  abbrev pub of_dht20_0 : Arrival fl → Option (Dht.DataPacket fl)
  of_dht20_0 (dht20_0 d) = some d
  of_dht20_0 _ = none

  abbrev pub of_dht20_1 : Arrival fl → Option (Dht.DataPacket fl)
  of_dht20_1 (dht20_1 d) = some d
  of_dht20_1 _ = none

  abbrev pub of_dht11_0 : Arrival fl → Option (Dht.DataPacket fl)
  of_dht11_0 (dht11_0 d) = some d
  of_dht11_0 _ = none

  abbrev pub of_dht22_0 : Arrival fl → Option (Dht.DataPacket fl)
  of_dht22_0 (dht22_0 d) = some d
  of_dht22_0 _ = none

  abbrev pub of_sgp30_0 : Arrival fl → Option Sgp30.DataPacket
  of_sgp30_0 (sgp30_0 d) = some d
  of_sgp30_0 _ = none

  abbrev pub of_pms5003_0 : Arrival fl → Option Pms5003.DataPacket
  of_pms5003_0 (pms5003_0 d) = some d
  of_pms5003_0 _ = none

  abbrev pub of_ds18b20_0 : Arrival fl → Option (Ds18b20.DataPacket fl)
  of_ds18b20_0 (ds18b20_0 d) = some d
  of_ds18b20_0 _ = none

  -- The collector's packet after some rounds.
  unfoldable pub collected : List (Arrival fl) → Packet fl → Packet fl
  collected [] p = p
  collected (a ∷ l) p = collected l (take_arrival fl a p)

  -- The second packet has the last packets of the list, and for the rest what the first one has.
  abbrev pub IsLatest : List (Arrival fl) → Packet fl → Packet fl → Type 0
  IsLatest l p p' =
      (p'.sensors.bme280_0 ≡ latest of_bme280_0 l p.sensors.bme280_0)
      × (p'.sensors.bme280_1 ≡ latest of_bme280_1 l p.sensors.bme280_1)
      × (p'.sensors.dht_0 ≡ latest of_dht20_0 l p.sensors.dht_0)
      × (p'.sensors.dht_1 ≡ latest of_dht20_1 l p.sensors.dht_1)
      × (p'.sensors.dht_2 ≡ latest of_dht11_0 l p.sensors.dht_2)
      × (p'.sensors.dht_3 ≡ latest of_dht22_0 l p.sensors.dht_3)
      × (p'.sensors.ds18b20_0 ≡ latest of_ds18b20_0 l p.sensors.ds18b20_0)
      × (p'.sgp30_0 ≡ latest of_sgp30_0 l p.sgp30_0)
      × (p'.pms5003_0 ≡ latest of_pms5003_0 l p.pms5003_0)
      × (p'.averages ≡ p.averages)

-- The packet of the collector has, for each sensor, the last packet that came from its queue, or what
-- it had before if none came; the averages stay as they were.
pub collected-IsLatest :
    (fl : F32) (l : List (Arrival fl)) (p : Packet fl) → IsLatest fl l p (collected fl l p)
unfolding collected latest take_arrival
collected-IsLatest fl [] p = (refl, refl, refl, refl, refl, refl, refl, refl, refl, refl)
collected-IsLatest fl (bme280_0 d ∷ l) p = collected-IsLatest fl l (take_arrival fl (bme280_0 d) p)
collected-IsLatest fl (bme280_1 d ∷ l) p = collected-IsLatest fl l (take_arrival fl (bme280_1 d) p)
collected-IsLatest fl (dht20_0 d ∷ l) p = collected-IsLatest fl l (take_arrival fl (dht20_0 d) p)
collected-IsLatest fl (dht20_1 d ∷ l) p = collected-IsLatest fl l (take_arrival fl (dht20_1 d) p)
collected-IsLatest fl (dht11_0 d ∷ l) p = collected-IsLatest fl l (take_arrival fl (dht11_0 d) p)
collected-IsLatest fl (dht22_0 d ∷ l) p = collected-IsLatest fl l (take_arrival fl (dht22_0 d) p)
collected-IsLatest fl (sgp30_0 d ∷ l) p = collected-IsLatest fl l (take_arrival fl (sgp30_0 d) p)
collected-IsLatest fl (pms5003_0 d ∷ l) p =
    collected-IsLatest fl l (take_arrival fl (pms5003_0 d) p)
collected-IsLatest fl (ds18b20_0 d ∷ l) p =
    collected-IsLatest fl l (take_arrival fl (ds18b20_0 d) p)
collected-IsLatest fl (timeout ∷ l) p = collected-IsLatest fl l (take_arrival fl timeout p)

-- The test of the interval compares the ticks that have really gone by, also where the counter of 32
-- bits has wrapped around since, if they are fewer than 2 ^ 32.
pub is_due_lem :
    (last elapsed : ℕ)
    → elapsed < 2 ^ 32
    → is_due (u32 (last + elapsed)) (u32 last) ≡ leb send_interval elapsed
unfolding is_due
is_due_lem last elapsed h =
    let e : u32 (u32 (last + elapsed) + 2 ^ 32 - u32 last) ≡ elapsed = omega arith in rw e refl
