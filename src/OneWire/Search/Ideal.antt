-- ===== src/OneWire/Search/Ideal.antt =====
-- Devices that answer a search, as a function of what was done on the line.
use hk_rtos.Base.{ℕ, ◌+◌, ◌^◌, ◌≡◌, refl, Bool, true, false, List, [], ◌∷◌, ◌==◌, if◌then◌else◌}
use hk_rtos.OneWire.{LineOp, resets, puts, Line}
use hk_rtos.OneWire.Devices.{Bits, is_some_left, tails, at}
use hk_rtos.OneWire.Search.Answers.{Answers, asked, top}

-- What the devices are waiting for: a reset, a bit of the command, or the first read, the second read
-- or the write of a bit of the address after a path.
data Phase : Type 0 where
  reset_bus : Phase
  bit_of_command : ℕ → Phase
  first_read second_read written : Bits → Phase

hears : LineOp → Phase → Phase
hears resets phase = bit_of_command 0
hears (puts b) reset_bus = reset_bus
hears (puts b) (bit_of_command n) = if n == 7 then first_read [] else bit_of_command (n + 1)
hears (puts b) (first_read p) = second_read p
hears (puts b) (second_read p) = written p
hears (puts b) (written p) = first_read ((b == 1) ∷ p)

heard : List LineOp → Phase
unfolding hears
heard [] = reset_bus
heard (op ∷ ops) = hears op (heard ops)

-- A word with the bit in its highest place.
word_of : Bool → ℕ
word_of true = 0
word_of false = 2 ^ 31

speak : List Bits → Phase → ℕ
unfolding word_of
speak ds (second_read p) = word_of (is_some_left (tails false (at ds p)))
speak ds (written p) = word_of (is_some_left (tails true (at ds p)))
speak ds _ = 0

pub ideal : List Bits → Line
unfolding speak heard
ideal ds ops = speak ds (heard ops)

top-word_of : (b : Bool) → (top (word_of b) == 0) ≡ b
unfolding word_of
top-word_of true = refl
top-word_of false = refl

heard-asked :
    (command : ℕ) (ops : List LineOp) (p : Bits) → heard (asked command ops p) ≡ first_read p
unfolding heard hears
heard-asked command ops [] = refl
heard-asked command ops (true ∷ p) = rw (heard-asked command ops p) refl
heard-asked command ops (false ∷ p) = rw (heard-asked command ops p) refl

-- Each set of devices has such a line.
pub ideal-Answers : (command : ℕ) (ds : List Bits) → Answers (ideal ds) command ds
unfolding ideal heard hears speak
ideal-Answers command ds = record {
  present = λ ops. refl;
  zeros =
      λ ops p. rw (heard-asked command ops p) (top-word_of (is_some_left (tails false (at ds p))));
  ones =
      λ ops p. rw (heard-asked command ops p) (top-word_of (is_some_left (tails true (at ds p))));
}
