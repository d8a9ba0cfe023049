-- ===== src/Ky40.antt =====
-- The rotary encoders (src/input/encoders/ky40.c). `encoders` is a list, `level` is gpio_get; the
-- set-up of the pins and of the interrupt is left out of `init_all`.
pub mod Positions
mod Tests
use hk_rtos.Base.{ℕ, ◌*◌, Bool, List, [], ◌∷◌, ◌==◌, not, if◌then◌else◌, map}
use hk_rtos.Base.Int.{ℤ, pos, negsuc, ◌+ℤ◌, ◌/ℤ◌, ◌*ℤ◌, to_signed, to_unsigned, ltb_ℤ}

-- KY40_Config_t.
pub record Pins : Type 0 where
  pub clk : ℕ
  pub dt : ℕ
  pub btn : ℕ

-- KY40_State_t.
pub record Encoder : Type 0 where
  pub clk : ℕ
  pub dt : ℕ
  pub btn : ℕ
  pub position : ℤ
  pub last_clk : ℕ

-- What KY40_ISR does with the encoder of the pin: one step up or down, in i8.
pub turn : (ℕ → ℕ) → Encoder → Encoder
turn level e =
    let clk = level e.clk in
    let step = if not (level e.dt == clk) then pos 1 else negsuc 0 in
    record e {
      position = if not (clk == e.last_clk) then to_signed 7 (e.position +ℤ step) else e.position;
      last_clk = clk;
    }

-- KY40_ISR: the first encoder with the pin.
pub isr : (ℕ → ℕ) → ℕ → List Encoder → List Encoder
unfolding turn
isr level gpio [] = []
isr level gpio (e ∷ es) =
    let rest = isr level gpio es in if e.clk == gpio then turn level e ∷ es else e ∷ rest

pub init_single : (ℕ → ℕ) → Pins → Encoder
init_single level p = record {
  clk = p.clk;
  dt = p.dt;
  btn = p.btn;
  position = pos 0;
  last_clk = level p.clk;
}

pub init_all : (ℕ → ℕ) → List Pins → List Encoder
unfolding init_single
init_all level pins = map (init_single level) pins

-- The two tests at the start of KY40_Position.
pub wrap : ℤ → ℤ
wrap p = let p' = if ltb_ℤ (pos 40) p then pos 0 else p in if ltb_ℤ p' (pos 0) then pos 40 else p'

-- KY40_Position of one encoder: the result as a u8, and the position after.
pub position : ℤ → ℤ → ℕ × ℤ
position p value =
    let p' = wrap p in
    if ltb_ℤ value (pos 0)
    then (to_unsigned 8 (p' /ℤ pos 2), p')
    else if ltb_ℤ (pos 20) value
    then (to_unsigned 8 (negsuc 0), p')
    else (let set = to_signed 7 (value *ℤ pos 2) in (to_unsigned 8 (set /ℤ pos 2), set))
