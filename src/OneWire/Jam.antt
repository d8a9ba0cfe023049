-- ===== src/OneWire/Jam.antt =====
-- What a write of several bytes does to the interface.
use hk_rtos.Base.{ℕ, ◌≡◌, refl, arith, List, ◌∷◌, true, false}
use hk_rtos.OneWire.{Line, OneWire, is_busy, write_byte, write, read}

-- OneWire_Write of a byte or more never succeeds: the status that it sets makes its own
-- OneWire_WriteByte refuse the first byte. Nothing reaches the line, and if the interface was not
-- busy before, it is now.
pub write_jams :
    (line : Line) (b : ℕ) (bs : List ℕ) (ow : OneWire)
    → let r = write line (b ∷ bs) ow in
      (r.0 ≡ false) × (r.1.ops ≡ ow.ops) × (is_busy r.1.status ≡ true)
unfolding write
write_jams line b bs ow = (ground arith, ground arith, ground arith)

-- A busy interface refuses every call, and stays as it is.
pub busy_stays :
    (line : Line) (b : ℕ) (bs : List ℕ) (ow : OneWire)
    → is_busy ow.status ≡ true
    → (write_byte line b ow ≡ (false, ow))
      × (write line bs ow ≡ (false, ow))
      × (read line ow ≡ (0, ow))
unfolding write_byte write read
busy_stays line b bs ow busy = (rw busy refl, rw busy refl, rw busy refl)
