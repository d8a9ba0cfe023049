-- ===== src/OneWire/Program/Slots.antt =====
-- The time slots of the bits.
use hk_rtos.Base.{
  ℕ, ◌+◌, ◌-◌, ◌*◌, ◌/◌, ◌%◌, ◌^◌, ◌≡◌, refl, arith, Bool, true, false, List, [], ◌∷◌, leb,
  if◌then◌else◌,
}
use hk_rtos.Pio.{State, step, exec, bit}
use hk_rtos.Pio.Leads.{Leads, stays, goes, goes_to}
use hk_rtos.OneWire.Program.{program, config, bus}

-- A counter of the program behind its loop.
abbrev pub ended : ℕ
ended = 2 ^ 32 - 1

abbrev pub Pulls : State → Type 0
Pulls s = s.output ≡ true

abbrev pub LetsGo : State → Type 0
LetsGo s = s.output ≡ false

module _ (others : ℕ → ℕ) (line : ℕ → Bool) where
  -- A number of ticks during which something holds.
  abbrev pub Phase : (State → Type 0) → ℕ → State → State → Type 0
  Phase ok ticks s s' = Leads (config others) program line ok s s' × (s'.time ≡ s.time + ticks)

  -- For each bit, the line is free for 1 us, then pulled low for 6 us for a 1 and for 60 us for a 0,
  -- and then free for the rest of 70 us.
  pub data Slots : List Bool → State → State → Type 0 where
    none_left : (s : State) → Slots [] s s
    slot :
        (b : Bool) (bs : List Bool) (s low free s' s'' : State)
        → Phase LetsGo 1 s low
        → Phase Pulls (if b then 6 else 60) low free
        → Phase LetsGo (if b then 63 else 9) free s'
        → Slots bs s' s''
        → Slots (b ∷ bs) s s''

  -- What the program takes from the line in a slot that begins at a time.
  abbrev pub answer : Bool → ℕ → Bool
  answer true t = line (t + 16)
  answer false t = false

  abbrev pub shift : ℕ → Bool → ℕ
  shift isr b = isr / 2 + bit b * 2 ^ 31

  module _ (y : ℕ) where
    -- The registers behind a bit, with the word complete or not.
    abbrev pub behind : Bool → (osr osr_count isr isr_count : ℕ) (rx : List ℕ) (t : ℕ) → State
    behind true osr osr_count isr isr_count rx t =
        bus y 8 ended osr osr_count 0 0 [] (isr ∷ rx) false t
    behind false osr osr_count isr isr_count rx t =
        bus y 8 ended osr osr_count isr (isr_count + 1) [] rx false t

    time_behind :
        (full : Bool) (osr c isr k : ℕ) (rx : List ℕ) (t : ℕ)
        → (behind full osr c isr k rx t).time ≡ t
    time_behind true osr c isr k rx t = refl
    time_behind false osr c isr k rx t = refl

    fetched :
        (x osr c isr k t : ℕ) (rx : List ℕ) (b : ℕ)
        → osr % 2 ≡ b
        → leb 8 c ≡ false
        → Leads
            (config others)
            program
            line
            LetsGo
            (bus y 8 x osr c isr k [] rx false t)
            (bus y 9 b (osr / 2) (c + 1) isr k [] rx false (t + 1))
    unfolding step exec
    fetched x osr c isr k t rx b bit_ more =
        goes_to _ (bus y 9 b (osr / 2) (c + 1) isr k [] rx false (t + 1)) _ (rw (more, bit_) refl)
          refl (stays _)

    one_ends :
        (full : Bool) (osr c isr k u : ℕ) (rx : List ℕ)
        → leb 8 (k + 1) ≡ full
        → Leads
            (config others)
            program
            line
            LetsGo
            (bus y 10 1 osr c isr k [] rx true u)
            (behind full osr c (shift isr (line (u + 9))) k rx (u + 63))
    unfolding step exec
    one_ends true osr c isr k u rx e =
        let end_ : u + 63 ≡ u + 9 + 5 + 16 + 16 + 16 + 1 = omega arith in
        let sampled = bus y 12 2 osr c 0 0 [] (shift isr (line (u + 9)) ∷ rx) false (u + 9 + 5) in
        rw end_ (
          goes _ _ refl (
            goes_to _ sampled _ (rw e refl) refl
              (goes _ _ refl (goes _ _ refl (goes _ _ refl (goes _ _ refl (stays _)))))))
    one_ends false osr c isr k u rx e =
        let end_ : u + 63 ≡ u + 9 + 5 + 16 + 16 + 16 + 1 = omega arith in
        let sampled = bus y 12 2 osr c (shift isr (line (u + 9))) (k + 1) [] rx false (u + 9 + 5) in
        rw end_ (
          goes _ _ refl (
            goes_to _ sampled _ (rw e refl) refl
              (goes _ _ refl (goes _ _ refl (goes _ _ refl (goes _ _ refl (stays _)))))))

    zero_ends :
        (full : Bool) (x osr c isr k u : ℕ) (rx : List ℕ)
        → leb 8 (k + 1) ≡ full
        → Leads
            (config others)
            program
            line
            LetsGo
            (bus y 16 ended osr c isr k [] rx true u)
            (behind full osr c (shift isr false) k rx (u + 9))
    unfolding step exec
    zero_ends true x osr c isr k u rx e =
        goes_to _ (behind true osr c (shift isr false) k rx (u + 9)) _ (rw e refl) refl (stays _)
    zero_ends false x osr c isr k u rx e =
        goes_to _ (behind false osr c (shift isr false) k rx (u + 9)) _ (rw e refl) refl (stays _)

    -- A slot for a bit that is next in the word, with another bit before.
    pub next_slot :
        (b full : Bool) (bs : List Bool) (x osr c isr k t : ℕ) (rx : List ℕ) (s : State)
        → osr % 2 ≡ bit b
        → leb 8 c ≡ false
        → leb 8 (k + 1) ≡ full
        → Slots bs (behind full (osr / 2) (c + 1) (shift isr (answer b t)) k rx (t + 70)) s
        → Slots (b ∷ bs) (bus y 8 x osr c isr k [] rx false t) s
    unfolding step exec
    next_slot true full bs x osr c isr k t rx s odd more e rest =
        let low = bus y 9 1 (osr / 2) (c + 1) isr k [] rx false (t + 1) in
        let free = bus y 10 1 (osr / 2) (c + 1) isr k [] rx true (t + 7) in
        let end_ = behind full (osr / 2) (c + 1) (shift isr (line (t + 16))) k rx (t + 70) in
        let at = time_behind full (osr / 2) (c + 1) (shift isr (line (t + 16))) k rx (t + 70) in
        let e1 : t + 7 ≡ t + 1 + 6 = omega arith in
        let e2 : t + 16 ≡ t + 7 + 9 = omega arith in
        let e3 : t + 70 ≡ t + 7 + 63 = omega arith in
        slot true bs _ low free end_ s (fetched x osr c isr k t rx 1 odd more, refl)
          (rw e1 (goes _ _ refl (stays _)), omega arith)
          (rw (e2, e3) (one_ends full (osr / 2) (c + 1) isr k (t + 7) rx e), omega (arith, at)) rest
    next_slot false full bs x osr c isr k t rx s even more e rest =
        let low = bus y 9 0 (osr / 2) (c + 1) isr k [] rx false (t + 1) in
        let free = bus y 16 ended (osr / 2) (c + 1) isr k [] rx true (t + 61) in
        let end_ = behind full (osr / 2) (c + 1) (shift isr false) k rx (t + 70) in
        let at = time_behind full (osr / 2) (c + 1) (shift isr false) k rx (t + 70) in
        let e1 : t + 61 ≡ t + 1 + 6 + 6 + 16 + 16 + 16 = omega arith in
        let e3 : t + 70 ≡ t + 61 + 9 = omega arith in
        slot false bs _ low free end_ s (fetched x osr c isr k t rx 0 even more, refl)
          (
            rw e1 (
                goes _ _ refl
                  (goes _ _ refl (goes _ _ refl (goes _ _ refl (goes _ _ refl (stays _)))))),
            omega arith,
          )
          (rw e3 (zero_ends full 0 (osr / 2) (c + 1) isr k (t + 61) rx e), omega (arith, at)) rest
