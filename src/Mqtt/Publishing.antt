-- ===== src/Mqtt/Publishing.antt =====
-- What the sending task publishes of a packet.
use hk_rtos.Base.{ℕ, ◌≡◌, refl, arith, Option, none, some, List, ◌∷◌, ◌==◌, if◌then◌else◌, take}
use hk_rtos.Crc.{Buffer}
use hk_rtos.CString.{IsString, Holds, strncpy, c_string-Holds}
use hk_rtos.Mqtt.{Trace, send_text, send_packet}

-- The text of a sensor, cut to 511 characters, on top of what has been published.
abbrev pub and_text : List ℕ → Option (List ℕ) → Trace → Trace
and_text topic none t = t
and_text topic (some json) t = (topic, take 511 json) ∷ t

abbrev pub IsText : Option (List ℕ) → Type 0
IsText none = Unit
IsText (some json) = IsString json

ends-Holds :
    (b : Buffer) (json : List ℕ)
    → Holds 511 (λ i. if i == 511 then 0 else strncpy b json 511 i) json
unfolding strncpy
ends-Holds b json i lt = ground arith

send_text_lem :
    (topic : List ℕ) (json : Option (List ℕ)) (payload : Buffer) (t : Trace)
    → IsText json
    → (send_text topic json payload t).1 ≡ and_text topic json t
unfolding send_text
send_text_lem topic none payload t h = refl
send_text_lem topic (some json) payload t h =
    rw
      (c_string-Holds 511 (λ i. if i == 511 then 0 else strncpy payload json 511 i) json
        (ends-Holds payload json) h)
      refl

-- Of a packet the task publishes the text of the first sensor and then that of the second, each cut to
-- the 511 characters that fit the buffer, and nothing for a sensor that gave no text, whatever the
-- buffer held before.
pub send_packet_publishes :
    (topic : List ℕ) (json_0 json_1 : Option (List ℕ)) (payload : Buffer) (t : Trace)
    → IsText json_0
    → IsText json_1
    → (send_packet topic json_0 json_1 payload t).1
      ≡ and_text topic json_1 (and_text topic json_0 t)
unfolding send_packet
send_packet_publishes topic json_0 json_1 payload t h_0 h_1 =
    let r = send_text topic json_0 payload t in
    rw (send_text_lem topic json_1 r.0 r.1 h_1, send_text_lem topic json_0 payload t h_0) refl
