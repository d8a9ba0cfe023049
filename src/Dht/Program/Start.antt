-- ===== src/Dht/Program/Start.antt =====
-- The start signal.
use hk_rtos.Base.{
  ℕ, zero, suc, ◌+◌, ◌-◌, ◌^◌, ◌<◌, ◌≡◌, refl, arith, Bool, true, false, List, [], ◌∷◌,
}
use hk_rtos.Pio.{State, pred, step, exec}
use hk_rtos.Pio.Leads.{Leads, stays, goes, goes_to, Leads-then}
use hk_rtos.Dht.Program.{program, config, machine}

-- The pin is an output with a level.
abbrev pub Drives : Bool → State → Type 0
Drives level s = (s.output ≡ true) × (s.level ≡ level)

module _ (line : ℕ → Bool) (y isr count : ℕ) (rx : List ℕ) where
  low_loop :
      (n osr t : ℕ) (tx : List ℕ) (level : Bool)
      → n < 2 ^ 32
      → Leads config program line
          (Drives false)
          (machine 3 n y osr isr count tx rx true level t)
          (machine 4 (2 ^ 32 - 1) y osr isr count tx rx true false (t + n + 1))
  unfolding step exec
  low_loop zero osr t tx level lt =
      let e : t + 0 + 1 ≡ t + 1 = omega arith in rw e (goes _ _ (refl, refl) (stays _))
  low_loop (suc n) osr t tx level lt =
      let e : t + suc n + 1 ≡ t + 1 + n + 1 = omega arith in
      let d : pred config (suc n) ≡ n = omega arith in
      rw e (
        goes_to _ (machine 3 n y osr isr count tx rx true false (t + 1)) _ (rw d refl) (refl, refl)
          (low_loop n osr (t + 1) tx false (omega arith)))

  high_loop :
      (n osr t : ℕ) (tx : List ℕ) (level : Bool)
      → n < 2 ^ 32
      → Leads config program line
          (Drives true)
          (machine 6 n y osr isr count tx rx true level t)
          (machine 7 (2 ^ 32 - 1) y osr isr count tx rx true true (t + n + 1))
  unfolding step exec
  high_loop zero osr t tx level lt =
      let e : t + 0 + 1 ≡ t + 1 = omega arith in rw e (goes _ _ (refl, refl) (stays _))
  high_loop (suc n) osr t tx level lt =
      let e : t + suc n + 1 ≡ t + 1 + n + 1 = omega arith in
      let d : pred config (suc n) ≡ n = omega arith in
      rw e (
        goes_to _ (machine 6 n y osr isr count tx rx true true (t + 1)) _ (rw d refl) (refl, refl)
          (high_loop n osr (t + 1) tx true (omega arith)))

-- The pin is an input.
abbrev pub IsReleased : State → Type 0
IsReleased s = s.output ≡ false

-- From the end of the first pull on, with one more delay in its queue, the program drives the line low
-- for 3 ticks more than the first delay, then high for 1 tick more than the second, and then releases it.
pub asks :
    (line : ℕ → Bool) (a b y isr count t : ℕ) (rx : List ℕ)
    → a < 2 ^ 32
    → b < 2 ^ 32
    → let m = 2 ^ 32 - 1 in
      Leads config program line
        (Drives false)
        (machine 3 a y a isr count (b ∷ []) rx true true t)
        (machine 6 b y b isr count [] rx true false (t + (a + 3)))
      × Leads config program line
          (Drives true)
          (machine 6 b y b isr count [] rx true false (t + (a + 3)))
          (machine 7 m y b isr count [] rx true true (t + (a + 3) + (b + 1)))
      × Leads config program line IsReleased
          (machine 7 m y b isr count [] rx true true (t + (a + 3) + (b + 1)))
          (machine 8 m y b isr count [] rx false false (t + (a + 3) + (b + 1) + 1))
unfolding step exec
asks line a b y isr count t rx small_a small_b =
    let m : ℕ = 2 ^ 32 - 1 in
    let low_end : t + (a + 3) ≡ t + a + 1 + 1 + 1 = omega arith in
    let high_end : t + (a + 3) + (b + 1) ≡ t + (a + 3) + b + 1 = omega arith in
    (
      rw low_end (
          Leads-then _ (machine 4 m y a isr count (b ∷ []) rx true false (t + a + 1)) _
            (low_loop line y isr count rx a a t (b ∷ []) true small_a)
            (goes _ _ (refl, refl) (goes _ _ (refl, refl) (stays _)))),
      rw high_end (high_loop line y isr count rx b b (t + (a + 3)) [] false small_b),
      goes _ _ refl (stays _),
    )

-- The program has driven the line high and waits for the delays of a read.
abbrev pub parked : (x y osr osr_count : ℕ) (rx : List ℕ) (time : ℕ) → State
parked x y osr osr_count rx time = record (machine 1 x y osr 0 0 [] rx true true time) {
  osr_count = osr_count;
}

-- From its beginning and with an empty queue the program comes to wait for the delays of a read, whatever
-- its registers are.
pub begins :
    (line : ℕ → Bool) (x y osr k t : ℕ) (rx : List ℕ) (output level : Bool)
    → Leads config program line
        (Drives true)
        (record (machine 0 x y osr 0 0 [] rx output level t) { osr_count = k })
        (parked x y osr k rx (t + 1))
unfolding step exec
begins line x y osr k t rx output level = goes _ _ (refl, refl) (stays _)

-- And with the delays it takes the first one, and drives the line high while it does.
pub takes :
    (line : ℕ → Bool) (a b x y osr k t : ℕ) (rx : List ℕ)
    → Leads config program line
        (Drives true)
        (record (parked x y osr k rx t) { tx = a ∷ b ∷ [] })
        (machine 3 a y a 0 0 (b ∷ []) rx true true (t + 2))
unfolding step exec
takes line a b x y osr k t rx =
    let e : t + 2 ≡ t + 1 + 1 = omega arith in
    rw e (goes _ _ (refl, refl) (goes _ _ (refl, refl) (stays _)))
