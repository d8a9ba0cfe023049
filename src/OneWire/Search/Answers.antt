-- ===== src/OneWire/Search/Answers.antt =====
-- Devices on a 1-Wire line that take part in a search: after the reset and the eight bits of the
-- command, the line gives the AND of what the devices send, first their next bit and then its
-- complement, and a bit that is written leaves the devices that have it.
use hk_rtos.Base.{ℕ, zero, suc, ◌+◌, ◌/◌, ◌%◌, ◌^◌, ◌≡◌, true, false, List, [], ◌∷◌, ◌==◌, u8, u32}
use hk_rtos.OneWire.{LineOp, resets, puts, Line}
use hk_rtos.OneWire.Devices.{Bits, is_some_left, tails, at}
use hk_rtos.OneWire.Search.{write_bit}

-- The line after the command, from bit `i` on.
abbrev pub sent_from : ℕ → ℕ → ℕ → List LineOp → List LineOp
sent_from zero i command ops = ops
sent_from (suc left) i command ops = sent_from left (i + 1) command (puts (command / 2 ^ i) ∷ ops)

-- The line after the bits of a path have been read and written.
abbrev pub told : List LineOp → Bits → List LineOp
told base [] = base
told base (b ∷ p) = puts (write_bit b) ∷ puts 0xFF ∷ puts 0xFF ∷ told base p

abbrev pub asked : ℕ → List LineOp → Bits → List LineOp
asked command ops = told (sent_from 8 0 command (resets ∷ ops))

-- The byte that OneWire_Read takes from a word.
abbrev pub top : ℕ → ℕ
top word = u8 (u32 word / 2 ^ 24)

pub record Answers (line : Line) (command : ℕ) (ds : List Bits) : Type 0 where
  pub present : (ops : List LineOp) → line (resets ∷ ops) % 2 ≡ 0
  pub zeros :
      (ops : List LineOp) (p : Bits)
      → (top (line (puts 0xFF ∷ asked command ops p)) == 0) ≡ is_some_left (tails false (at ds p))
  pub ones :
      (ops : List LineOp) (p : Bits)
      → (top (line (puts 0xFF ∷ puts 0xFF ∷ asked command ops p)) == 0)
        ≡ is_some_left (tails true (at ds p))
