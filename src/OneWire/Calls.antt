-- ===== src/OneWire/Calls.antt =====
-- A reset and a byte on an interface that is not busy.
use hk_rtos.Base.{ℕ, ◌%◌, ◌≡◌, refl, arith, ◌∷◌, true, false, u32}
use hk_rtos.Base.Bits.{bit_and_mask}
use hk_rtos.OneWire.{Line, resets, puts, OneWire, write_success, is_busy, reset, write_byte}

pub reset_lem :
    (line : Line) (ow : OneWire)
    → line (resets ∷ ow.ops) % 2 ≡ 0
    → reset line ow ≡ (true, record ow { ops = resets ∷ ow.ops })
unfolding reset
reset_lem line ow present = ground (arith, bit_and_mask 1 (u32 (line (resets ∷ ow.ops))))

pub write_byte_lem :
    (line : Line) (b : ℕ) (ow : OneWire)
    → is_busy ow.status ≡ false
    → write_byte line b ow ≡ (true, record { status = write_success; ops = puts b ∷ ow.ops })
unfolding write_byte
write_byte_lem line b ow idle = rw idle refl
