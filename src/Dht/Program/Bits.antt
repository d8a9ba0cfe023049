-- ===== src/Dht/Program/Bits.antt =====
-- How the program reads a bit, and the bits of a byte.
use hk_rtos.Base.{
  ℕ, suc, ◌+◌, ◌-◌, ◌*◌, ◌^◌, ◌<◌, ◌≤◌, ◌≡◌, refl, arith, Bool, true, false, List, [], ◌∷◌, leb,
  u32, length,
}
use hk_rtos.Pio.{State, step, exec, next, pushed, shifted, bit, pred}
use hk_rtos.Pio.Leads.{Leads, stays, goes_to, Leads-then, waits}
use hk_rtos.Dht.Program.{program, config, machine}
use hk_rtos.Dht.Program.Start.{IsReleased}
use hk_rtos.Dht.Program.Signal.{Holds, Ready, Pulse, Pulses, Pulses-low, value}

pushed-output : (full : Bool) (isr : ℕ) (s : State) → (pushed config full isr s).output ≡ s.output
pushed-output true isr s = refl
pushed-output false isr s = refl

module _ (line : ℕ → Bool) (tx : List ℕ) (x osr : ℕ) where
  -- The program while it reads.
  abbrev pub reading : (pc y isr count : ℕ) (rx : List ℕ) (time : ℕ) → State
  reading pc y isr count rx time = machine pc x y osr isr count tx rx false false time

  abbrev pub Gets : State → State → Type 0
  Gets s s' = Leads config program line IsReleased s s'

  -- It waits until the line is low, and until it is high.
  wait_low :
      (n t y isr count : ℕ) (rx : List ℕ)
      → Holds line true t (t + n)
      → line (t + n) ≡ false
      → Gets (reading 12 y isr count rx t) (reading 13 y isr count rx (t + n + 15))
  unfolding step exec
  wait_low n t y isr count rx =
      waits false (reading 12 y isr count rx) (λ (u : ℕ). reading 13 y isr count rx (u + 15))
        (λ u e. rw e refl) (λ u e. rw e refl) (λ u. refl) (λ u. refl) n t

  wait_high :
      (n t y isr count : ℕ) (rx : List ℕ)
      → Holds line false t (t + n)
      → line (t + n) ≡ true
      → Gets (reading 13 y isr count rx t) (reading 14 y isr count rx (t + n + 15))
  unfolding step exec
  wait_high n t y isr count rx =
      waits true (reading 13 y isr count rx) (λ (u : ℕ). reading 14 y isr count rx (u + 15))
        (λ u e. rw e refl) (λ u e. rw e refl) (λ u. refl) (λ u. refl) n t

  sample :
      (f m : ℕ) (b : Bool) (p : Pulse line f m b)
      → Holds line false m (m + 48)
      → line (p.rise + 30) ≡ b
  sample f m true p after = let long = p.long refl in p.high (p.rise + 30) (omega arith) long
  sample f m false p after =
      let short = p.short refl in
      let some_high = p.some_high in after (p.rise + 30) short (omega arith)

  -- The bit is shifted in 30 ticks after the line has risen.
  bit_read :
      (f m : ℕ) (b : Bool) (t y isr count : ℕ) (rx : List ℕ) (p : Pulse line f m b)
      → Holds line false m (m + 48)
      → Ready line t f
      → Gets
          (reading 12 y isr count rx t)
          (next config 0 (shifted config b (reading 15 y isr count rx (p.rise + 30))))
  unfolding step exec
  bit_read f m b t y isr count rx p after r =
      let early = r.early in
      let quiet = p.quiet in
      let some_high = p.some_high in
      let w : ℕ = t + (f - t) + 15 in
      let rise : w + (p.rise - w) ≡ p.rise = omega arith in
      let down : line (t + (f - t)) ≡ false = p.low (t + (f - t)) (omega arith) (omega arith) in
      let up : line (w + (p.rise - w)) ≡ true = rw rise (p.high p.rise (omega arith) some_high) in
      let first = wait_low (f - t) t y isr count rx (λ u le lt. r.high u le (omega arith)) down in
      let second =
        wait_high (p.rise - w) w y isr count rx (λ u le lt. p.low u (omega arith) (omega arith))
          up in
      let at : p.rise + 30 ≡ w + (p.rise - w) + 15 + 15 = omega arith in
      let seen : line (w + (p.rise - w) + 15 + 15) ≡ b = rw at at (sample f m b p after) in
      Leads-then _ (reading 13 y isr count rx w) _ first (
        Leads-then _ (reading 14 y isr count rx (w + (p.rise - w) + 15)) _ second (
          goes_to _ (reading 15 y isr count rx (w + (p.rise - w) + 15 + 15)) _ refl refl (
            goes_to _
              (next config 0
                (shifted config b (reading 15 y isr count rx (w + (p.rise - w) + 15 + 15))))
              _ (rw seen refl) (pushed-output (leb 8 (count + 1)) _ _) (rw at (stays _)))))

  -- The time between two bits is enough.
  after-Ready :
      (f m : ℕ) (b : Bool) (p : Pulse line f m b) (k : ℕ) → k ≤ 34 → Ready line (p.rise + k) m
  after-Ready f m b p k le =
      let some_high = p.some_high in
      record { early = omega arith; high = λ u from upto. p.high u (omega arith) upto }

  -- The bits of a byte that are left.
  pub bits_read :
      (b : Bool) (bs : List Bool) (f e t isr count : ℕ) (rx : List ℕ)
      → count + length bs ≡ 7
      → length bs < 8
      → Pulses line f (b ∷ bs) e
      → Ready line t f
      → (t' : ℕ) × Gets
          (reading 12 (length bs) isr count rx t)
          (reading 17 (2 ^ 32 - 1) 0 0 (value isr (b ∷ bs) ∷ rx) t')
        × Ready line (t' + 2) e
  unfolding step exec
  bits_read b [] f e t isr count rx n few (m, p, (same, after)) r =
      let seven : count ≡ 7 = omega arith in
      let one = bit_read f m b t 0 isr 7 rx p after r in
      let ready = after-Ready f m b p 34 (omega arith) in
      let ready' : Ready line (p.rise + 34) e = rw same at ready in
      let later : p.rise + 32 + 2 ≡ p.rise + 34 = omega arith in
      let done : p.rise + 30 + 1 + 1 ≡ p.rise + 32 = omega arith in
      (
        p.rise + 32,
        rw seven (
            Leads-then _ _ _ one (
              goes_to _
                (reading 17 (2 ^ 32 - 1) 0 0 (value isr (b ∷ []) ∷ rx) (p.rise + 30 + 1 + 1)) _ refl
                refl (rw done (stays _)))),
        rw later ready',
      )
  bits_read b (b' ∷ bs) f e t isr count rx n few (m, p, rest) r =
      let after = Pulses-low line m e (b' ∷ bs) rest in
      let one = bit_read f m b t (length (b' ∷ bs)) isr count rx p after r in
      let not_full : leb 8 (count + 1) ≡ false = ground arith in
      let isr' = u32 (isr * 2 + bit b) in
      let read : next config 0
            (shifted config b (reading 15 (length (b' ∷ bs)) isr count rx (p.rise + 30)))
          ≡ reading 16 (suc (length bs)) isr' (count + 1) rx (p.rise + 31) =
        (let e1 : p.rise + 30 + 1 ≡ p.rise + 31 = omega arith in rw (not_full, e1) refl) in
      let back : pred config (suc (length bs)) ≡ length bs = omega arith in
      let later : p.rise + 31 + 1 ≡ p.rise + 32 = omega arith in
      let go_on =
        bits_read b' bs m e (p.rise + 32) isr' (count + 1) rx (omega arith) (omega arith) rest
          (after-Ready f m b p 32 (omega arith)) in
      (
        go_on.0,
        Leads-then _ (reading 16 (suc (length bs)) isr' (count + 1) rx (p.rise + 31)) _
            (rw read at one)
            (goes_to _ (reading 12 (length bs) isr' (count + 1) rx (p.rise + 32)) _
              (rw (back, later) refl) refl go_on.1),
        go_on.2,
      )
