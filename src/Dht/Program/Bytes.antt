-- ===== src/Dht/Program/Bytes.antt =====
-- How the program reads the answer of the sensor and the bytes that it sends.
use hk_rtos.Base.{
  ℕ, suc, ◌+◌, ◌-◌, ◌/◌, ◌^◌, ◌<◌, ◌≡◌, refl, arith, Bool, true, false, List, [], ◌∷◌, length,
}
use hk_rtos.Pio.{State, step, exec, pred}
use hk_rtos.Pio.Leads.{Leads, stays, goes, goes_to, Leads-then, waits}
use hk_rtos.Dht.Program.{program, config, machine}
use hk_rtos.Dht.Program.Start.{IsReleased}
use hk_rtos.Dht.Program.Signal.{
  Holds, Ready, Pulses, Sends, Response, bits_of, low_bits, odd, value, value-bits_of,
}
use hk_rtos.Dht.Program.Bits.{bits_read}

abbrev pub AreBytes : List ℕ → Type 0
AreBytes [] = Unit
AreBytes (v ∷ vs) = (v < 2 ^ 8) × AreBytes vs

-- The queue of what was received, newest first, after more bytes.
abbrev pub received : List ℕ → List ℕ → List ℕ
received [] rx = rx
received (v ∷ vs) rx = received vs (v ∷ rx)

-- `2 ^ 32 - 1`, where a counting loop ends.
abbrev pub ended : ℕ
ended = 2 ^ 32 - 1

module _ (line : ℕ → Bool) (tx : List ℕ) (osr : ℕ) where
  -- One byte, up to the test whether it was the last.
  byte_read :
      (x v f m t y : ℕ) (rx : List ℕ)
      → v < 2 ^ 8
      → Pulses line f (bits_of v) m
      → Ready line (t + 1) f
      → (t' : ℕ) × Leads config program line IsReleased
          (machine 11 x y osr 0 0 tx rx false false t)
          (machine 17 x ended osr 0 0 tx (v ∷ rx) false false t')
        × Ready line (t' + 2) m
  unfolding step exec
  byte_read x v f m t y rx byte p r =
      let b =
        bits_read line tx x osr (odd (v / 2 ^ 7)) (low_bits v) f m (t + 1) 0 0 rx (omega arith)
          (omega arith) p r in
      let whole : value 0 (bits_of v) ≡ v = value-bits_of v byte in
      (
        b.0,
        goes_to _ (machine 12 x 7 osr 0 0 tx rx false false (t + 1)) _ refl refl (rw whole at b.1),
        b.2,
      )

  bytes_read :
      (v : ℕ) (vs : List ℕ) (f e t y : ℕ) (rx : List ℕ)
      → length vs < 5
      → AreBytes (v ∷ vs)
      → Sends line f (v ∷ vs) e
      → Ready line (t + 1) f
      → (t' : ℕ) × Leads config program line IsReleased
          (machine 11 (length vs) y osr 0 0 tx rx false false t)
          (machine 0 ended ended osr 0 0 tx (received (v ∷ vs) rx) false false t')
  unfolding step exec
  bytes_read v [] f e t y rx few (byte, more) (m, p, rest) r =
      let b = byte_read 0 v f m t y rx byte p r in
      (b.0 + 1, Leads-then _ _ _ b.1 (goes _ _ refl (stays _)))
  bytes_read v (v' ∷ vs) f e t y rx few (byte, more) (m, p, rest) r =
      let b = byte_read (length (v' ∷ vs)) v f m t y rx byte p r in
      let later : b.0 + 2 ≡ b.0 + 1 + 1 = omega arith in
      let ready : Ready line (b.0 + 1 + 1) m = rw later at b.2 in
      let back : pred config (suc (length vs)) ≡ length vs = omega arith in
      let go_on = bytes_read v' vs m e (b.0 + 1) ended (v ∷ rx) (omega arith) more rest ready in
      (
        go_on.0,
        Leads-then _ _ _ b.1 (
            goes_to _ (machine 11 (length vs) ended osr 0 0 tx (v ∷ rx) false false (b.0 + 1)) _
              (rw back refl) refl go_on.1),
      )

  -- The two waits for the answer of the sensor.
  abbrev asking : (pc x y : ℕ) (rx : List ℕ) (t : ℕ) → State
  asking pc x y rx t = machine pc x y osr 0 0 tx rx false false t

  answer_low :
      (n t x y : ℕ) (rx : List ℕ)
      → Holds line true t (t + n)
      → line (t + n) ≡ false
      → Leads config program line IsReleased (asking 8 x y rx t) (asking 9 x y rx (t + n + 1))
  unfolding step exec
  answer_low n t x y rx =
      waits false (asking 8 x y rx) (λ (u : ℕ). asking 9 x y rx (u + 1)) (λ u e. rw e refl)
        (λ u e. rw e refl) (λ u. refl) (λ u. refl) n t

  answer_high :
      (n t x y : ℕ) (rx : List ℕ)
      → Holds line false t (t + n)
      → line (t + n) ≡ true
      → Leads config program line IsReleased (asking 9 x y rx t) (asking 10 x y rx (t + n + 1))
  unfolding step exec
  answer_high n t x y rx =
      waits true (asking 9 x y rx) (λ (u : ℕ). asking 10 x y rx (u + 1)) (λ u e. rw e refl)
        (λ u e. rw e refl) (λ u. refl) (λ u. refl) n t

  answer_read :
      (t f x y : ℕ) (rx : List ℕ) (a : Response line t f)
      → Leads config program line IsReleased (asking 8 x y rx t) (asking 11 4 y rx (a.rise + 2))
  unfolding step exec
  answer_read t f x y rx a =
      let after_start = a.after_start in
      let some_low = a.some_low in
      let some_high = a.some_high in
      let fall : t + (a.fall - t) ≡ a.fall = omega arith in
      let rise : a.fall + 1 + (a.rise - (a.fall + 1)) ≡ a.rise = omega arith in
      let up : line (a.fall + 1 + (a.rise - (a.fall + 1))) ≡ true =
        rw rise (a.high a.rise (omega arith) some_high) in
      let first =
        answer_low (a.fall - t) t x y rx (λ u le lt. a.before u le (omega arith))
          (rw fall (a.low a.fall (omega arith) some_low)) in
      let second =
        answer_high (a.rise - (a.fall + 1)) (a.fall + 1) x y rx
          (λ u le lt. a.low u (omega arith) (omega arith)) up in
      let end_ : a.rise + 2 ≡ a.rise + 1 + 1 = omega arith in
      rw end_ (
        Leads-then _ (asking 9 x y rx (a.fall + 1)) _ (rw fall at first) (
          Leads-then _ (asking 10 x y rx (a.rise + 1)) _ (rw rise at second)
            (goes _ _ refl (stays _))))

  -- Waiting for the answer of the sensor, which then sends five bytes, the program reads them and comes back
  -- to its beginning with the bytes in its queue, in their order and behind what was there. From the answer
  -- on it does not drive the line.
  pub five_read :
      (v : ℕ) (vs : List ℕ) (t f e x y : ℕ) (rx : List ℕ)
      → length vs ≡ 4
      → AreBytes (v ∷ vs)
      → Response line t f
      → Sends line f (v ∷ vs) e
      → (t' : ℕ) × Leads config program line IsReleased
          (asking 8 x y rx t)
          (machine 0 ended ended osr 0 0 tx (received (v ∷ vs) rx) false false t')
  five_read v vs t f e x y rx four bytes a sends =
      let some_high = a.some_high in
      let ready : Ready line (a.rise + 2 + 1) f = record {
        early = omega arith;
        high = λ u from upto. a.high u (omega arith) upto;
      } in
      let first = answer_read t f x y rx a in
      let rest = bytes_read v vs f e (a.rise + 2) y rx (omega arith) bytes sends ready in
      (rest.0, Leads-then _ (asking 11 (length vs) y rx (a.rise + 2)) _ (rw four first) rest.1)
