-- ===== src/Pipeline/Flow.antt =====
-- What reaches the network and the display, in any order of the tasks' rounds.
use hk_rtos.Base.{ℕ, ◌≡◌, ◌⊎◌, refl, true, none, some, Bool-cases, ◌∙◌, inl, inr}
use hk_rtos.F32.{F32}
use hk_rtos.Averages.{Weighted, Averages, averages}
use hk_rtos.Pipeline.{
  Packet, Arrival, bme280_0, Collector, Shared, take_arrival, is_due, collect_round, process_round,
  on_snapshot, processed,
}
use hk_rtos.Pipeline.Rtos.{Queue}

take_arrival-averages :
    (fl : F32) (a : Arrival fl) (p : Packet fl) → (take_arrival fl a p).averages ≡ p.averages
unfolding take_arrival
take_arrival-averages fl (bme280_0 d) p = refl
take_arrival-averages fl _ p = refl

module _ (fl : F32) (q : Queue (Packet fl)) where
  open q use {Q, empty, send, receive, receive-empty, receive-send, send-send}

  -- The tasks' rounds, and a round of the display's task, which only takes a packet. `behind` is what
  -- lies in memory behind the arrays of vDataProcessTask, in each of its rounds anew.
  pub data Step : Collector fl × Shared fl q → Collector fl × Shared fl q → Type 0 where
    collect :
        (a : Arrival fl) (now now' : ℕ) (c : Collector fl) (s : Shared fl q)
        → Step (c, s) (collect_round fl q a now now' c s)
    process :
        (behind : ℕ → ℕ → Weighted fl) (c : Collector fl) (s : Shared fl q)
        → Step (c, s) (c, process_round fl q behind s)
    transmit :
        (c : Collector fl) (s : Shared fl q)
        → Step (c, s) (c, record s { mqtt = (receive s.mqtt).1 })
    show :
        (c : Collector fl) (s : Shared fl q)
        → Step (c, s) (c, record s { display = (receive s.display).1 })

  pub data Reach (start : Collector fl × Shared fl q) : Collector fl × Shared fl q → Type 0 where
    here : Reach start start
    next : {s t : Collector fl × Shared fl q} → Reach start s → Step s t → Reach start t

  -- A queue is empty, or has one packet with a property.
  abbrev pub Has : (Packet fl → Type 0) → Q → Type 0
  Has P x = (x ≡ empty) ⊎ ((p : Packet fl) × (x ≡ send p empty) × P p)

  -- The averages are those of the start, or of the packet's own measurements and of what lay behind the
  -- arrays when they were computed.
  abbrev pub IsRaw : Averages fl → Packet fl → Type 0
  IsRaw start p = p.averages ≡ start

  abbrev pub IsProcessed : Packet fl → Type 0
  IsProcessed p = (behind : ℕ → ℕ → Weighted fl) × (p.averages ≡ averages fl behind p.sensors)

  pub record IsSound (start : Averages fl) (x : Collector fl × Shared fl q) : Type 0 where
    pub collector : IsRaw start x.0.packet
    pub snapshots : Has (IsRaw start) x.1.snapshots
    pub mqtt : Has (λ p. IsRaw start p ⊎ IsProcessed p) x.1.mqtt
    pub display : Has IsProcessed x.1.display

  send-Has : (P : Packet fl → Type 0) (p : Packet fl) (x : Q) → P p → Has P x → Has P (send p x)
  send-Has P p x hp (inl e) = inr (p, rw e refl, hp)
  send-Has P p x hp (inr (p', e, h)) = inr (p', rw e (send-send p' p), h)

  receive-Has : (P : Packet fl → Type 0) (x : Q) → Has P x → Has P (receive x).1
  receive-Has P x (inl e) = inl (rw (e, receive-empty) refl)
  receive-Has P x (inr (p', e, h)) = inl (rw (e, receive-send p') refl)

  collect-IsSound :
      (start : Averages fl) (a : Arrival fl) (now now' : ℕ) (c : Collector fl) (s : Shared fl q)
      → IsSound start (c, s)
      → IsSound start (collect_round fl q a now now' c s)
  unfolding collect_round
  collect-IsSound start a now now' c s h =
      let p = take_arrival fl a c.packet in
      let raw : IsRaw start p = take_arrival-averages fl a c.packet ∙ h.collector in
      elim (Bool-cases (is_due now c.last_send)) [
        | inl due ↦ rw due (record {
          collector = raw;
          snapshots = send-Has (IsRaw start) p s.snapshots raw h.snapshots;
          mqtt = send-Has (λ p. IsRaw start p ⊎ IsProcessed p) p s.mqtt (inl raw) h.mqtt;
          display = h.display;
        })
        | inr early ↦ rw early (record {
          collector = raw;
          snapshots = h.snapshots;
          mqtt = h.mqtt;
          display = h.display;
        })
      ]

  process-IsSound :
      (start : Averages fl) (behind : ℕ → ℕ → Weighted fl) (c : Collector fl) (s : Shared fl q)
      → IsSound start (c, s)
      → IsSound start (c, process_round fl q behind s)
  unfolding process_round on_snapshot
  process-IsSound start behind c s h = elim h.snapshots [
    | inl e ↦
        (let r : receive s.snapshots ≡ (none, empty) = rw e receive-empty in
          rw (r, on_snapshot)
            (record {
              collector = h.collector;
              snapshots = inl refl;
              mqtt = h.mqtt;
              display = h.display;
            }))
    | inr (p, e, raw) ↦
        (let r : receive s.snapshots ≡ (some p, empty) = rw e (receive-send p) in
          let p' = processed fl q behind p in
          rw (r, on_snapshot)
            (record {
              collector = h.collector;
              snapshots = inl refl;
              mqtt =
                  send-Has (λ p. IsRaw start p ⊎ IsProcessed p) p' s.mqtt (inr (behind, refl))
                    h.mqtt;
              display = send-Has IsProcessed p' s.display (behind, refl) h.display;
            }))
  ]

  Step-IsSound :
      (start : Averages fl) {x y : Collector fl × Shared fl q}
      → Step x y
      → IsSound start x
      → IsSound start y
  Step-IsSound start (collect a now now' c s) h = collect-IsSound start a now now' c s h
  Step-IsSound start (process behind c s) h = process-IsSound start behind c s h
  Step-IsSound start (transmit c s) h = record {
    collector = h.collector;
    snapshots = h.snapshots;
    mqtt = receive-Has (λ p. IsRaw start p ⊎ IsProcessed p) s.mqtt h.mqtt;
    display = h.display;
  }
  Step-IsSound start (show c s) h = record {
    collector = h.collector;
    snapshots = h.snapshots;
    mqtt = h.mqtt;
    display = receive-Has IsProcessed s.display h.display;
  }

-- In every state that the tasks' rounds lead to from empty queues, in any order of the rounds: a
-- packet that waits for the network has the averages of the start or those that vDataProcessTask computes
-- of its own measurements, one that waits for the display those of its own measurements, and one that
-- waits for the averages to be computed those of the start. The averages of the measurements depend on
-- what lies in memory behind the array of the dew points as well, which may be anything in each round.
pub Reach-IsSound :
    (fl : F32) (q : Queue (Packet fl)) (c : Collector fl) {x : Collector fl × Shared fl q}
    → Reach fl q (c, record { snapshots = q.empty; mqtt = q.empty; display = q.empty }) x
    → IsSound fl q c.packet.averages x
Reach-IsSound fl q c here = record {
  collector = refl;
  snapshots = inl refl;
  mqtt = inl refl;
  display = inl refl;
}
Reach-IsSound fl q c (next r st) = Step-IsSound fl q c.packet.averages st (Reach-IsSound fl q c r)

-- If the collector sends while no packet waits, and the averages are computed before the network takes
-- the packet, then the packet that waits for the network is the collector's own, whose averages no one
-- has computed, and the one with the averages goes to the display alone.
pub process_round-drops :
    (fl : F32) (q : Queue (Packet fl)) (behind : ℕ → ℕ → Weighted fl) (a : Arrival fl)
    (now now' : ℕ) (c : Collector fl) (s : Shared fl q)
    → s.snapshots ≡ q.empty
    → s.mqtt ≡ q.empty
    → is_due now c.last_send ≡ true
    → let s' = process_round fl q behind (collect_round fl q a now now' c s).1 in
      let p = take_arrival fl a c.packet in
      (s'.mqtt ≡ q.send p q.empty)
      × (p.averages ≡ c.packet.averages)
      × (s'.display ≡ q.send (processed fl q behind p) s.display)
unfolding process_round collect_round on_snapshot
process_round-drops fl q behind a now now' c s none_waits none_waits' due =
    let p = take_arrival fl a c.packet in
    let r : q.receive (q.send p s.snapshots) ≡ (some p, q.empty) =
      rw none_waits (q.receive-send p) in
    rw (due, r, on_snapshot)
      (
        rw none_waits' (q.send-send p (processed fl q behind p)),
        take_arrival-averages fl a c.packet,
        refl,
      )
