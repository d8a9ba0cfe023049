-- ===== src/Pipeline/Texts.antt =====
-- When the sending task has functions to call.
use hk_rtos.Base.{◌≡◌, ◌↔◌, arith, Bool, true, false, ◌&&◌, ◌||◌, Option, none, some, List, [], ◌∷◌}
use hk_rtos.F32.{F32}
use hk_rtos.Bme280.Packets as Bme280
use hk_rtos.Pipeline.{Packet, Arrival, bme280_0, bme280_1, take_arrival, texts}
use hk_rtos.Pipeline.Latest.{of_bme280_0, of_bme280_1, collected}

abbrev is_some : {A : Type 0} → Option A → Bool
is_some none = false
is_some (some a) = true

-- Whether a list has a packet of a queue.
pub any : {A B : Type 0} → (A → Option B) → List A → Bool
any select [] = false
any select (a ∷ l) = is_some (select a) || any select l

collected-jsonify :
    (fl : F32) (l : List (Arrival fl)) (p : Packet fl)
    → ((collected fl l p).jsonify_0 ≡ (p.jsonify_0 || any (of_bme280_0 fl) l))
      × ((collected fl l p).jsonify_1 ≡ (p.jsonify_1 || any (of_bme280_1 fl) l))
unfolding collected any take_arrival
collected-jsonify fl [] p = ground arith
collected-jsonify fl (bme280_0 d ∷ l) p =
    ground (arith, collected-jsonify fl l (take_arrival fl (bme280_0 d) p))
collected-jsonify fl (bme280_1 d ∷ l) p =
    ground (arith, collected-jsonify fl l (take_arrival fl (bme280_1 d) p))
collected-jsonify fl (a ∷ l) p = collected-jsonify fl l (take_arrival fl a p)

-- Of a packet that the collector has filled from one with no pointers in it, the sending task calls a
-- null pointer if and only if no packet of the one or of the other BME280 has come yet.
pub texts-none :
    (fl : F32) {Text : Type 0} (to_json : Bme280.DataPacket fl → Option Text)
    (l : List (Arrival fl)) (p : Packet fl)
    → p.jsonify_0 ≡ false
    → p.jsonify_1 ≡ false
    → (texts fl to_json (some (collected fl l p)) ≡ none)
      ↔ ((any (of_bme280_0 fl) l && any (of_bme280_1 fl) l) ≡ false)
unfolding texts
texts-none fl to_json l p h h' = let j = collected-jsonify fl l p in ground (arith, j.0, j.1)
