-- ===== src/Dht/Program/Signal.antt =====
-- What a sensor sends: for each bit the line is low and then high, and how long it is high tells the bit.
use hk_rtos.Base.{
  ℕ, ◌+◌, ◌*◌, ◌/◌, ◌%◌, ◌^◌, ◌<◌, ◌≤◌, ◌≡◌, refl, arith, Bool, true, false, List, [], ◌∷◌, ◌==◌,
  u32, ==_iff,
}
use hk_rtos.Base.Bits.{every_below, every_below_sound}
use hk_rtos.Pio.{bit}

-- The bits of a byte, the highest first.
abbrev pub odd : ℕ → Bool
odd n = n % 2 == 1

abbrev pub low_bits : ℕ → List Bool
low_bits v =
    odd (v / 2 ^ 6)
    ∷ odd (v / 2 ^ 5)
    ∷ odd (v / 2 ^ 4)
    ∷ odd (v / 2 ^ 3)
    ∷ odd (v / 2 ^ 2)
    ∷ odd (v / 2)
    ∷ odd v
    ∷ []

abbrev pub bits_of : ℕ → List Bool
bits_of v = odd (v / 2 ^ 7) ∷ low_bits v

-- The number that bits make when they are shifted in behind another one.
abbrev pub value : ℕ → List Bool → ℕ
value acc [] = acc
value acc (b ∷ bs) = value (u32 (acc * 2 + bit b)) bs

table : every_below 256 (λ v. value 0 (bits_of v) == v) ≡ true
unfolding every_below
table = refl

pub value-bits_of : (v : ℕ) → v < 2 ^ 8 → value 0 (bits_of v) ≡ v
value-bits_of v lt =
    let cell = every_below_sound (λ (u : ℕ). value 0 (bits_of u) == u) 256 v lt table in
    (==_iff (value 0 (bits_of v)) v).0 cell

module _ (line : ℕ → Bool) where
  -- From its beginning on, the line has a level.
  abbrev pub Holds : Bool → ℕ → ℕ → Type 0
  Holds level from upto = (u : ℕ) → from ≤ u → u < upto → line u ≡ level

  -- A bit between two falling edges: at least 48 us low, and then more than 30 us high for a 1, and at
  -- most that for a 0.
  pub record Pulse (f e : ℕ) (b : Bool) : Type 0 where
    pub rise : ℕ
    pub quiet : f + 48 ≤ rise
    pub low : Holds false f rise
    pub high : Holds true rise e
    pub some_high : rise < e
    pub long : b ≡ true → rise + 30 < e
    pub short : b ≡ false → e ≤ rise + 30

  -- Bits one after another, and low for 48 us at the end.
  abbrev pub Pulses : ℕ → List Bool → ℕ → Type 0
  Pulses f [] e = (f ≡ e) × Holds false f (f + 48)
  Pulses f (b ∷ bs) e = (m : ℕ) × Pulse f m b × Pulses m bs e

  -- Bytes one after another.
  abbrev pub Sends : ℕ → List ℕ → ℕ → Type 0
  Sends f [] e = (f ≡ e) × Holds false f (f + 48)
  Sends f (v ∷ vs) e = (m : ℕ) × Pulses f (bits_of v) m × Sends m vs e

  -- The program comes to its wait for a bit, at a time from which the line is high until the bit begins, and
  -- that is not too late to see it rise.
  pub record Ready (t f : ℕ) : Type 0 where
    pub early : t + 15 ≤ f + 48
    pub high : Holds true t f

  -- The answer to the start signal before the first bit: low, and high until `f`.
  pub record Response (t f : ℕ) : Type 0 where
    pub fall : ℕ
    pub rise : ℕ
    pub before : Holds true t fall
    pub low : Holds false fall rise
    pub high : Holds true rise f
    pub after_start : t ≤ fall
    pub some_low : fall < rise
    pub some_high : rise < f

  pub Pulses-low : (f e : ℕ) (bs : List Bool) → Pulses f bs e → Holds false f (f + 48)
  Pulses-low f e [] h = h.1
  Pulses-low f e (b ∷ bs) h = λ u le lt. (let quiet = h.1.quiet in h.1.low u le (omega arith))
