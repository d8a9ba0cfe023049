-- ===== src/Dht/Program/Waveform.antt =====
-- A line on which a sensor answers the first start signal and sends bits: 120 us for each, of which 70 us
-- high for a 1 and 26 us for a 0.
use hk_rtos.Base.{
  ℕ, suc, ◌+◌, ◌-◌, ◌*◌, ◌/◌, ◌%◌, ◌<◌, ◌≤◌, ◌≡◌, refl, arith, Bool, true, false, not, List, [],
  ◌∷◌, ◌++◌, length, ltb, if◌then◌else◌, get_or,
}
use hk_rtos.Dht.Program.Signal.{Holds, Pulse, Pulses, Sends, Response, bits_of}

abbrev quiet : Bool → ℕ
quiet true = 50
quiet false = 94

quiet_bounds : (b : Bool) → (48 ≤ quiet b) × (quiet b < 120)
quiet_bounds true = (omega arith, omega arith)
quiet_bounds false = (omega arith, omega arith)

abbrev pub all_bits : List ℕ → List Bool
all_bits [] = []
all_bits (v ∷ vs) = bits_of v ++ all_bits vs

module _ (bits : List Bool) where
  level : ℕ → ℕ → Bool
  level k r = not (ltb r (quiet (get_or bits k false)))

  unfoldable pub line : ℕ → Bool
  unfolding level
  line u =
      if ltb u 20057
      then true
      else if ltb u 20137
      then false
      else if ltb u 20217
      then true
      else level ((u - 20217) / 120) ((u - 20217) % 120)

  -- Where a bit begins.
  abbrev pub begins : ℕ → ℕ
  begins k = 20217 + 120 * k

  line-level : (u : ℕ) → 20217 ≤ u → line u ≡ level ((u - 20217) / 120) ((u - 20217) % 120)
  unfolding line
  line-level u le = ground arith

  within : (k u : ℕ) → begins k ≤ u → u < begins (suc k) → line u ≡ level k (u - begins k)
  within k u from upto =
      let at : (u - 20217) / 120 ≡ k = omega arith in
      let rest : (u - 20217) % 120 ≡ u - begins k = omega arith in
      rw (at, rest) at (line-level u (omega arith))

  pulse : (k : ℕ) (b : Bool) → get_or bits k false ≡ b → Pulse line (begins k) (begins (suc k)) b
  unfolding level
  pulse k b e =
      let slow = quiet_bounds b in
      record {
        rise = begins k + quiet b;
        quiet = omega arith;
        low = λ u from upto. (let here = within k u from (omega arith) in ground (arith, e, here));
        high = λ u from upto. (let here = within k u (omega arith) upto in ground (arith, e, here));
        some_high = omega arith;
        long = λ yes. rw yes (omega arith);
        short = λ no. rw no (omega arith);
      }

  -- The end of the bits looks like the beginning of another one.
  low_after : (k : ℕ) → Holds line false (begins k) (begins k + 48)
  low_after k u from upto =
      let p = pulse k (get_or bits k false) refl in
      let quiet = p.quiet in p.low u from (omega arith)

  -- The bits from an index on.
  abbrev Left : ℕ → List Bool → Type 0
  Left k bs = (i : ℕ) → get_or bits (k + i) false ≡ get_or bs i false

  Left-suc : (k : ℕ) (b : Bool) (bs : List Bool) → Left k (b ∷ bs) → Left (suc k) bs
  Left-suc k b bs left i = let e : suc k + i ≡ k + suc i = omega arith in rw e (left (suc i))

  pulses :
      (bs more : List Bool) (k : ℕ)
      → Left k (bs ++ more)
      → Pulses line (begins k) bs (begins (length bs + k)) × Left (length bs + k) more
  pulses [] more k left = let e : 0 + k ≡ k = omega arith in rw e ((refl, low_after k), left)
  pulses (b ∷ bs) more k left =
      let e : suc (length bs) + k ≡ length bs + suc k = omega arith in
      let here : get_or bits k false ≡ b =
        (let z : k + 0 ≡ k = omega arith in
          let first : get_or bits (k + 0) false ≡ b = left 0 in rw z at first) in
      let rest = pulses bs more (suc k) (Left-suc k b (bs ++ more) left) in
      rw e ((begins (suc k), pulse k b here, rest.0), rest.1)

  sends : (vs : List ℕ) (k : ℕ) → Left k (all_bits vs) → (e : ℕ) × Sends line (begins k) vs e
  sends [] k left = (begins k, (refl, low_after k))
  sends (v ∷ vs) k left =
      let byte = pulses (bits_of v) (all_bits vs) k left in
      let rest = sends vs (8 + k) byte.1 in (rest.0, (begins (8 + k), byte.0, rest.1))

  answers : Response line 20037 (begins 0)
  unfolding line
  answers = record {
    fall = 20057;
    rise = 20137;
    before = λ u from upto. ground arith;
    low = λ u from upto. ground arith;
    high = λ u from upto. ground arith;
    after_start = omega arith;
    some_low = omega arith;
    some_high = omega arith;
  }

-- There is a line on which a sensor answers a start signal that begins at time 0, and then sends whatever bytes it has.
pub sent :
    (vs : List ℕ)
    → Response (line (all_bits vs)) 20037 20217 × (e : ℕ) × Sends (line (all_bits vs)) 20217 vs e
sent vs =
    let s = sends (all_bits vs) vs 0 (λ i. (let z : 0 + i ≡ i = omega arith in rw z refl)) in
    (answers (all_bits vs), s.0, s.1)
