-- ===== src/Pipeline.antt =====
-- The way of the measurements from the queues of the sensors to the network (src/collect.c,
-- vDataProcessTask in src/process.c, src/send.c). A round of a task takes what it shares with the
-- others, and its own state, and gives them back. FreeRTOS is not in this repository: its queues of
-- one element are an interface, and the queue that xQueueSelectFromSet chose is an argument.
pub mod Rtos
pub mod Latest
pub mod Texts
pub mod Flow
mod Tests
use hk_rtos.Base.{
  ℕ, ◌+◌, ◌-◌, ◌^◌, Bool, true, false, Option, none, some, List, [], ◌∷◌, leb, if◌then◌else◌, u32,
}
use hk_rtos.F32.{F32}
use hk_rtos.Dht
use hk_rtos.Sgp30
use hk_rtos.Pms5003
use hk_rtos.Ds18b20
use hk_rtos.Bme280.Packets as Bme280
use hk_rtos.Averages.{Weighted, Snapshot, Averages, averages}
use hk_rtos.Pipeline.Rtos.{Queue}

-- `xSendInterval`, in ticks of a millisecond.
abbrev pub send_interval : ℕ
send_interval = 2000

-- `(xTaskGetTickCount() - xLastSendTime) >= xSendInterval`, in u32.
unfoldable pub is_due : ℕ → ℕ → Bool
is_due now last = leb send_interval (u32 (now + 2 ^ 32 - last))

module _ (fl : F32) where
  -- Sensors_DataPacket_t. `jsonify_0` and `jsonify_1` say whether the pointers to functions in
  -- `bme280_0` and `bme280_1` are set.
  pub record Packet : Type 0 where
    pub sensors : Snapshot fl
    pub pms5003_0 : Pms5003.DataPacket
    pub sgp30_0 : Sgp30.DataPacket
    pub jsonify_0 : Bool
    pub jsonify_1 : Bool
    pub averages : Averages fl

  -- What comes from a queue of the set; the packets of the BME280 come with their function. `timeout`
  -- is the null pointer.
  pub data Arrival : Type 0 where
    bme280_0 bme280_1 : Bme280.DataPacket fl → Arrival
    dht20_0 dht20_1 dht11_0 dht22_0 : Dht.DataPacket fl → Arrival
    sgp30_0 : Sgp30.DataPacket → Arrival
    pms5003_0 : Pms5003.DataPacket → Arrival
    ds18b20_0 : Ds18b20.DataPacket fl → Arrival
    timeout : Arrival

  -- The part of vDataCollectTask that puts it into the packet.
  pub take_arrival : Arrival → Packet → Packet
  take_arrival (bme280_0 d) p = record p {
    sensors = record p.sensors { bme280_0 = d };
    jsonify_0 = true;
  }
  take_arrival (bme280_1 d) p = record p {
    sensors = record p.sensors { bme280_1 = d };
    jsonify_1 = true;
  }
  take_arrival (dht20_0 d) p = record p { sensors = record p.sensors { dht_0 = d } }
  take_arrival (dht20_1 d) p = record p { sensors = record p.sensors { dht_1 = d } }
  take_arrival (dht11_0 d) p = record p { sensors = record p.sensors { dht_2 = d } }
  take_arrival (dht22_0 d) p = record p { sensors = record p.sensors { dht_3 = d } }
  take_arrival (sgp30_0 d) p = record p { sgp30_0 = d }
  take_arrival (pms5003_0 d) p = record p { pms5003_0 = d }
  take_arrival (ds18b20_0 d) p = record p { sensors = record p.sensors { ds18b20_0 = d } }
  take_arrival timeout p = p

  -- The packet and `xLastSendTime`.
  pub record Collector : Type 0 where
    pub packet : Packet
    pub last_send : ℕ

  -- What the text of a packet adds to what is published.
  abbrev published : {Text : Type 0} → Option Text → List Text → List Text
  published none rest = rest
  published (some t) rest = t ∷ rest

  -- The texts that vDataSendTask publishes of what it received, where `to_json` is BME280_Jsonify;
  -- `none` is a call through a null pointer.
  pub texts :
      {Text : Type 0} → (Bme280.DataPacket fl → Option Text) → Option Packet → Option (List Text)
  texts to_json none = some []
  texts to_json (some p) =
      if p.jsonify_0
      then if p.jsonify_1
        then some
            (published (to_json p.sensors.bme280_0) (published (to_json p.sensors.bme280_1) []))
        else none
      else none

module _ (fl : F32) (q : Queue (Packet fl)) where
  open q use {Q, send, receive}

  -- xSnapshotQueue, xMQTTQueue and xDisplayQueue.
  pub record Shared : Type 0 where
    pub snapshots : Q
    pub mqtt : Q
    pub display : Q

  -- A round of vDataCollectTask, with what the two calls of xTaskGetTickCount return.
  pub collect_round : Arrival fl → ℕ → ℕ → Collector fl → Shared → Collector fl × Shared
  collect_round arrival now now' c s =
      let p = take_arrival fl arrival c.packet in
      if is_due now c.last_send
      then (
        record { packet = p; last_send = now' },
        record s { snapshots = send p s.snapshots; mqtt = send p s.mqtt },
      )
      else (record c { packet = p }, s)

  -- The part of vDataProcessTask behind a packet that it received.
  abbrev pub processed : (ℕ → ℕ → Weighted fl) → Packet fl → Packet fl
  processed behind p = record p { averages = averages fl behind p.sensors }

  -- What vDataProcessTask does with what it received.
  on_snapshot : (ℕ → ℕ → Weighted fl) → Option (Packet fl) × Q → Shared → Shared
  on_snapshot behind (none, rest) s = record s { snapshots = rest }
  on_snapshot behind (some p, rest) s = record {
    snapshots = rest;
    mqtt = send (processed behind p) s.mqtt;
    display = send (processed behind p) s.display;
  }

  -- A round of vDataProcessTask.
  pub process_round : (ℕ → ℕ → Weighted fl) → Shared → Shared
  process_round behind s = on_snapshot behind (receive s.snapshots) s

  -- A round of vDataSendTask.
  pub send_round :
      {Text : Type 0} → (Bme280.DataPacket fl → Option Text) → Shared → Option (List Text) × Shared
  send_round to_json s = let r = receive s.mqtt in (texts fl to_json r.0, record s { mqtt = r.1 })
