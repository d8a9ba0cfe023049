-- ===== src/Mqtt/Tests.antt =====
-- A client id in a buffer that is too small, and a packet with one text.
use hk_rtos.Base.{ℕ, List, ◌≡◌, arith, none, some, [], ◌∷◌}
use hk_rtos.Samples.{zeros}
use hk_rtos.Mqtt.{unique_id, device_name, topic_name, send_packet}
use hk_rtos.Mqtt.Names.{unique_id_fits}
use hk_rtos.Mqtt.Publishing.{send_packet_publishes}

abbrev board : List ℕ
board = b'E' ∷ b'6' ∷ b'A' ∷ []

unique_id_fits_example : unique_id device_name board zeros 7 5 ≡ b'6'
unique_id_fits_example = unique_id_fits device_name board zeros 7 5 (omega arith) (omega arith)

abbrev json : List ℕ
json = b'{' ∷ b'}' ∷ []

send_packet_publishes_example :
    (send_packet topic_name none (some json) zeros []).1 ≡ ((topic_name, json) ∷ [])
send_packet_publishes_example =
    send_packet_publishes topic_name none (some json) zeros [] tt (omega arith)
