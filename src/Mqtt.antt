-- ===== src/Mqtt.antt =====
-- The connection to the MQTT server: `unique_id` is hkUniqueID (include/comm/network/mqtt.h), `init`
-- MQTT_Init (src/comm/network/mqtt.c), and `start`, `on_connection` and `send_packet` are the start of
-- vDataSendTask, its callback and what its loop does with a packet (src/send.c). What the functions of
-- lwIP and of the pico-sdk give are arguments.
pub mod Names
pub mod Publishing
mod Tests
use hk_rtos.Base.{
  ℕ, ◌+◌, ◌-◌, ◌≡◌, ◌^◌, Bool, true, false, Option, none, some, List, [], ◌∷◌, map, ◌==◌, ◌&&◌, leb,
  ltb, if◌then◌else◌, length, get_or, u32,
}
use hk_rtos.Base.Int.{ℤ}
use hk_rtos.Crc.{Buffer}
use hk_rtos.CString.{strncpy, c_string}
use hk_rtos.Modes.Events.{EventGroup}
use hk_rtos.Sockets.{is_ok}

-- tolower.
abbrev pub to_lower : ℕ → ℕ
to_lower c = if leb b'A' c && leb c b'Z' then c + 32 else c

abbrev memcpy : Buffer → ℕ → (ℕ → ℕ) → ℕ → Buffer
memcpy dest from src n i = if leb from i && ltb i (from + n) then src (i - from) else dest i

-- hkUniqueID for the name and the characters that pico_get_unique_board_id_string gave. `size_t` has
-- 32 bits.
pub unique_id : List ℕ → List ℕ → Buffer → ℕ → Buffer
unique_id name board client_id size =
    let id = map to_lower board in
    let name_len = length name in
    let id_len =
      if ltb size (name_len + length id + 1)
      then u32 (size + 2 ^ 32 - (name_len + 1))
      else length id in
    let named = memcpy client_id 0 (λ i. get_or name i 0) name_len in
    let full = memcpy named name_len (λ i. get_or id i 0) id_len in
    λ i. if i == u32 (name_len + id_len) then 0 else full i

-- MQTT_Config_t, without the fields that nothing uses.
pub record Config : Type 0 where
  pub client_id : Buffer
  pub keep_alive : ℕ
  pub server_address : ℕ
  pub server_port : ℕ
  pub mqtt_instance : Option ℕ
  pub topic : List ℕ

-- PICO_OK, PICO_ERROR_CONNECT_FAILED and PICO_ERROR_INVALID_ADDRESS.
pub data InitStatus : Type 0 where
  ok connect_failed invalid_address : InitStatus

-- "sensors/data".
abbrev pub topic_name : List ℕ
topic_name = b's' ∷ b'e' ∷ b'n' ∷ b's' ∷ b'o' ∷ b'r' ∷ b's' ∷ b'/' ∷ b'd' ∷ b'a' ∷ b't' ∷ b'a' ∷ []

-- "pico".
abbrev pub device_name : List ℕ
device_name = b'p' ∷ b'i' ∷ b'c' ∷ b'o' ∷ []

abbrev addressed : Config → Option ℕ → InitStatus × Config
addressed c none = (invalid_address, c)
addressed c (some a) = (ok, record c { server_address = a; server_port = 1883; topic = topic_name })

-- MQTT_Init, where mqtt_client_new gave `client` and ipaddr_aton `address`, and `buffer` is what
-- `clientID` held.
pub init : List ℕ → Buffer → Option ℕ → Option ℕ → Config → InitStatus × Config
unfolding unique_id
init board buffer none address c = (connect_failed, record c { mqtt_instance = none })
init board buffer (some client) address c =
    addressed
      (record c {
        mqtt_instance = some client;
        client_id = unique_id device_name board buffer 32;
        keep_alive = 60;
      })
      address

-- Whether the task goes on to its loop, or is suspended; `err` is what mqtt_client_connect gave.
pub start : InitStatus → ℤ → Bool
start connect_failed err = false
start invalid_address err = false
start ok err = is_ok err

module _ (e : EventGroup) where
  open e use {G, set, clear}

  -- mqttClientConnectCallback, with BIT_MQTT_CONNECTED.
  pub on_connection : Bool → G → G
  on_connection accepted g = if accepted then set 1 g else clear 1 g

-- The calls of mqtt_publish, newest first: the topic and the text.
abbrev pub Trace : Type 0
Trace = List (List ℕ × List ℕ)

-- The texts of one sensor, with the buffer `payload`, whose last character is set to zero.
pub send_text : List ℕ → Option (List ℕ) → Buffer → Trace → Buffer × Trace
send_text topic none payload t = (payload, t)
send_text topic (some json) payload t =
    let copied = strncpy payload json 511 in
    let payload' : Buffer = λ i. if i == 511 then 0 else copied i in
    (payload', (topic, c_string 512 0 payload') ∷ t)

-- What is done with a packet, where `jsonify` of the two sensors gave `json_0` and `json_1`.
pub send_packet : List ℕ → Option (List ℕ) → Option (List ℕ) → Buffer → Trace → Buffer × Trace
unfolding send_text
send_packet topic json_0 json_1 payload t =
    let r = send_text topic json_0 payload t in send_text topic json_1 r.0 r.1
