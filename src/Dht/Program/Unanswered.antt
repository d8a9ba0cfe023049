-- ===== src/Dht/Program/Unanswered.antt =====
-- A sensor that does not answer, or stops in the middle of its answer.
use hk_rtos.Base.{ℕ, zero, suc, ◌+◌, ◌≤◌, ◌≡◌, refl, arith, Bool, true, false, List, [], ◌∷◌}
use hk_rtos.Pio.{State, run, step, exec}
use hk_rtos.Dht.Program.{program, config, machine, refill, low_delay, high_delay}

-- The addresses where the program waits for the line, and the level that it waits to end: for the answer
-- of the sensor, and for a bit.
pub data WaitsAt : ℕ → Bool → Type 0 where
  for_answer : WaitsAt 8 true
  for_answer_end : WaitsAt 9 false
  for_bit : WaitsAt 12 true
  for_rise : WaitsAt 13 false

-- Calls of DHT_Read, with the numbers of ticks from each to the next.
unfoldable pub reads : (ℕ → Bool) → List ℕ → State → State
unfolding refill
reads line [] s = s
reads line (n ∷ ns) s = reads line ns (run config program line n (refill s))

abbrev pub waiting : (pc x y osr isr count : ℕ) (tx rx : List ℕ) (level : Bool) (time : ℕ) → State
waiting pc x y osr isr count tx rx level t = machine pc x y osr isr count tx rx false level t

stalls :
    (line : ℕ → Bool) (pc : ℕ) (v : Bool) (x y osr isr count t : ℕ) (tx rx : List ℕ) (level : Bool)
    → WaitsAt pc v
    → line t ≡ v
    → step config program line (waiting pc x y osr isr count tx rx level t)
      ≡ waiting pc x y osr isr count tx rx false (t + 1)
unfolding step exec
stalls line pc v x y osr isr count t tx rx level for_answer e = rw e refl
stalls line pc v x y osr isr count t tx rx level for_answer_end e = rw e refl
stalls line pc v x y osr isr count t tx rx level for_bit e = rw e refl
stalls line pc v x y osr isr count t tx rx level for_rise e = rw e refl

module _ (line : ℕ → Bool) (pc : ℕ) (v : Bool) (x y osr isr count : ℕ) (w : WaitsAt pc v) where
  still_waiting :
      (n t : ℕ) (tx rx : List ℕ) (level : Bool)
      → ((u : ℕ) → t ≤ u → line u ≡ v)
      → (now : Bool) × (run config program line n (waiting pc x y osr isr count tx rx level t)
          ≡ waiting pc x y osr isr count tx rx now (n + t))
  unfolding run
  still_waiting zero t tx rx level silent = let e : 0 + t ≡ t = omega arith in (level, rw e refl)
  still_waiting (suc n) t tx rx level silent =
      let e : suc n + t ≡ n + (t + 1) = omega arith in
      let rest = still_waiting n (t + 1) tx rx false (λ u le. silent u (omega arith)) in
      let one = stalls line pc v x y osr isr count t tx rx level w (silent t (omega arith)) in
      (rest.0, rw (e, one) rest.1)

  -- Once the program waits for the line to change, in the answer of a sensor or before it, and the line does
  -- not change any more, it waits for ever: however often DHT_Read is called, and at whatever times, it stays where
  -- it is and does not drive the line, so that the sensor is never asked again.
  pub never_asks_again :
      (ns : List ℕ) (t : ℕ) (tx rx : List ℕ) (level : Bool)
      → ((u : ℕ) → t ≤ u → line u ≡ v)
      → let s = reads line ns (waiting pc x y osr isr count tx rx level t) in
        (s.pc ≡ pc) × (s.output ≡ false)
  unfolding reads refill
  never_asks_again [] t tx rx level silent = (refl, refl)
  never_asks_again (n ∷ ns) t tx rx level silent =
      let delays = low_delay ∷ high_delay ∷ [] in
      let waited = still_waiting n t delays [] level silent in
      rw (reads, waited.1)
        (never_asks_again ns (n + t) delays [] waited.0 (λ u le. silent u (omega arith)))
