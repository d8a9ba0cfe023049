-- ===== src/OneWire/Program/Bytes.antt =====
-- Words of eight bits on the line, and what comes back.
use hk_rtos.Base.{
  ℕ, zero, suc, ◌+◌, ◌*◌, ◌/◌, ◌%◌, ◌^◌, ◌<◌, ◌≤◌, ◌≡◌, refl, arith, Bool, true, false, List, [],
  ◌∷◌, leb, u8, u32, ◌==◌,
}
use hk_rtos.Pio.{step, exec, bit}
use hk_rtos.Pio.Leads.{stays, goes_to}
use hk_rtos.OneWire.{Line, OneWire, is_busy, puts, read}
use hk_rtos.OneWire.Program.{bus}
use hk_rtos.OneWire.Program.Slots.{LetsGo, Phase, Slots, none_left, answer, shift, ended, next_slot}

-- The bits of a word, the lowest first.
abbrev odd : ℕ → Bool
odd v = v % 2 == 1

abbrev pub bits : ℕ → ℕ → List Bool
bits zero v = []
bits (suc n) v = odd v ∷ bits n (v / 2)

abbrev halved : ℕ → ℕ → ℕ
halved zero v = v
halved (suc n) v = halved n (v / 2)

-- The number that bits make, the lowest first.
abbrev pub from_bits : List Bool → ℕ
from_bits [] = 0
from_bits (b ∷ bs) = bit b + 2 * from_bits bs

bit-lt : (b : Bool) → bit b < 2
bit-lt true = omega arith
bit-lt false = omega arith

odd-bit : (v : ℕ) → v % 2 ≡ bit (odd v)
odd-bit v = ground arith

abbrev pub ones : List Bool
ones = true ∷ true ∷ true ∷ true ∷ true ∷ true ∷ true ∷ true ∷ []

module _ (others : ℕ → ℕ) (line : ℕ → Bool) where
  -- The answers in the slots of bits, the first of which begins at a time.
  abbrev pub answers : List Bool → ℕ → List Bool
  answers [] t = []
  answers (b ∷ bs) t = answer others line b t ∷ answers bs (t + 70)

  abbrev pub shifts : ℕ → List Bool → ℕ
  shifts isr [] = isr
  shifts isr (b ∷ bs) = shifts (shift others line isr b) bs

  module _ (y : ℕ) where
    shifts-Slots :
        (n k v x isr t : ℕ) (rx : List ℕ)
        → k + n ≡ 7
        → Slots others line (bits (suc n) v) (bus y 8 x v k isr k [] rx false t) (
            bus y 8 ended
              (halved (suc n) v)
              8
              0
              0
              []
              (shifts isr (answers (bits (suc n) v) t) ∷ rx)
              false
              (t + 70 * suc n))
    shifts-Slots zero k v x isr t rx room =
        let seven : k ≡ 7 = omega arith in
        let end_ : t + 70 * 1 ≡ t + 70 = omega arith in
        rw (seven, end_)
          (next_slot others line y (odd v) true [] x v 7 isr 7 t rx _ (odd-bit v) refl refl
            (none_left _))
    shifts-Slots (suc n) k v x isr t rx room =
        let more : leb 8 k ≡ false = ground arith in
        let open_ : leb 8 (k + 1) ≡ false = ground arith in
        let end_ : t + 70 * suc (suc n) ≡ t + 70 + 70 * suc n = omega arith in
        rw end_ (
          next_slot others line y (odd v) false _ x v k isr k t rx _ (odd-bit v) more open_ (
            shifts-Slots n (k + 1) (v / 2) ended
              (shift others line isr (answer others line (odd v) t)) (t + 70) rx (omega arith)))

  -- The highest byte of a word of eight bits.
  top_byte :
      (a b c d e f g h : Bool)
      → (let bs = a ∷ b ∷ c ∷ d ∷ e ∷ f ∷ g ∷ h ∷ [] in
          u8 (u32 (shifts 0 bs) / 2 ^ 24) ≡ from_bits bs)
  top_byte a b c d e f g h =
      omega (arith, bit-lt a, bit-lt b, bit-lt c, bit-lt d, bit-lt e, bit-lt f, bit-lt g, bit-lt h)

  top-answers :
      (v t : ℕ) → (let bs = answers (bits 8 v) t in u8 (u32 (shifts 0 bs) / 2 ^ 24) ≡ from_bits bs)
  top-answers v t = top_byte _ _ _ _ _ _ _ _

  -- A byte that is put into the queue of the program while it is idle, whatever it has done before, goes out
  -- in eight time slots, its lowest bit first, and the program is then idle again. What it has put into its
  -- queue has in its highest byte, at each place, what the line was 16 us after the beginning of the slot of this
  -- bit, where the bit that was sent is a 1, and a 0 where it is a 0.
  pub byte_exchanged :
      (v y x osr k t : ℕ) (rx : List ℕ)
      → v < 2 ^ 8
      → 8 ≤ k
      → (w : ℕ) × Phase others line LetsGo 1
          (bus y 8 x osr k 0 0 (v ∷ []) rx false t)
          (bus y 8 x v 0 0 0 [] rx false (t + 1))
        × (w ≡ shifts 0 (answers (bits 8 v) (t + 1)))
        × Slots others line
            (bits 8 v)
            (bus y 8 x v 0 0 0 [] rx false (t + 1))
            (bus y 8 ended 0 8 0 0 [] (w ∷ rx) false (t + 561))
        × (u8 (u32 w / 2 ^ 24) ≡ from_bits (answers (bits 8 v) (t + 1)))
  unfolding step exec
  byte_exchanged v y x osr k t rx byte idle =
      let full : leb 8 k ≡ true = ground arith in
      let gone : halved 8 v ≡ 0 = omega arith in
      let end_ : t + 1 + 70 * 8 ≡ t + 561 = omega arith in
      let slots = shifts-Slots y 7 0 v x 0 (t + 1) rx refl in
      (
        shifts 0 (answers (bits 8 v) (t + 1)),
        (goes_to _ (bus y 8 x v 0 0 0 [] rx false (t + 1)) _ (rw full refl) refl (stays _), refl),
        refl,
        rw (gone, end_) at slots,
        top-answers v (t + 1),
      )

  -- If OneWire_Read, on an interface that is not busy, gets the word that the program puts into its queue
  -- for the byte 0xFF that it sends, it gives back the byte of what the line was 16 us after the beginning of each
  -- of the eight slots, the lowest bit first, and the program has gone through eight slots of a 1 and is idle
  -- again.
  pub read_samples :
      (y x osr k t : ℕ) (rx : List ℕ) (got : Line) (ow : OneWire)
      → 8 ≤ k
      → is_busy ow.status ≡ false
      → got (puts 0xFF ∷ ow.ops) ≡ shifts 0 (answers ones (t + 1))
      → Phase others line LetsGo 1
          (bus y 8 x osr k 0 0 (0xFF ∷ []) rx false t)
          (bus y 8 x 0xFF 0 0 0 [] rx false (t + 1))
        × Slots others line ones
            (bus y 8 x 0xFF 0 0 0 [] rx false (t + 1))
            (bus y 8 ended 0 8 0 0 [] (got (puts 0xFF ∷ ow.ops) ∷ rx) false (t + 561))
        × ((read got ow).0 ≡ from_bits (answers ones (t + 1)))
  unfolding read
  read_samples y x osr k t rx got ow idle free same =
      let b = byte_exchanged 0xFF y x osr k t rx (omega arith) idle in
      (b.1, rw (same, ← b.2) b.3, rw (free, same) (top-answers 0xFF (t + 1)))
