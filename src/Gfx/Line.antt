-- ===== src/Gfx/Line.antt =====
-- GFX_DrawLine (src/display/ssd1327/ssd1327_gfx.c), with `err` and `e` as i16 values.
pub mod Steps
pub mod Near
pub mod Along
pub mod Ends
use hk_rtos.Base.{
  ℕ, zero, suc, ◌+◌, ◌-◌, Bool, true, false, Option, none, some, ◌==◌, ◌&&◌, ltb, if◌then◌else◌, u8,
}
use hk_rtos.Base.Int.{ℤ, pos, ◌+ℤ◌, ◌-ℤ◌, ◌*ℤ◌, to_signed, ltb_ℤ, sub_ℕ}
use hk_rtos.Gfx.{State, draw_pixel}

-- The variables that the loop changes.
pub record Pen : Type 0 where
  pub x : ℕ
  pub y : ℕ
  pub err : ℤ

-- `x0 += sx`, where `sx` is 1 or -1.
pub move : Bool → ℕ → ℕ
move true x = u8 (x + 1)
move false x = u8 (x + 255)

-- `e > -dy` and `e < dx`.
pub goes_right : ℕ → ℤ → Bool
goes_right dy err = ltb_ℤ (sub_ℕ 0 dy) (to_signed 15 (err *ℤ pos 2))

pub goes_down : ℕ → ℤ → Bool
goes_down dx err = ltb_ℤ (to_signed 15 (err *ℤ pos 2)) (pos dx)

-- The part of the loop's body behind the `break`.
pub advance : ℕ → ℕ → Bool → Bool → Pen → Pen
unfolding move goes_right goes_down
advance dx dy sx sy p =
    let right = goes_right dy p.err in
    let down = goes_down dx p.err in
    let err = if right then to_signed 15 (p.err -ℤ pos dy) else p.err in
    record {
      x = if right then move sx p.x else p.x;
      y = if down then move sy p.y else p.y;
      err = if down then to_signed 15 (err +ℤ pos dx) else err;
    }

-- The loop, towards `x1` and `y1`; `none` means that the fuel ran out.
pub line_from : ℕ → ℕ → ℕ → ℕ → ℕ → ℕ → Bool → Bool → Pen → State → Option State
unfolding advance
line_from zero x1 y1 color dx dy sx sy p g = none
line_from (suc fuel) x1 y1 color dx dy sx sy p g =
    let g' = draw_pixel p.x p.y color g in
    let rest = line_from fuel x1 y1 color dx dy sx sy (advance dx dy sx sy p) g' in
    if p.x == x1 && p.y == y1 then some g' else rest

-- `(a > b) ? (a - b) : (b - a)`.
pub distance : ℕ → ℕ → ℕ
distance a b = if ltb b a then a - b else b - a

-- Each round moves the pen towards the end in one direction at least, so fuel for one more round
-- than there are steps in both directions is enough.
pub draw_line : ℕ → ℕ → ℕ → ℕ → ℕ → State → Option State
unfolding line_from distance
draw_line x0 y0 x1 y1 color g =
    let dx = distance x1 x0 in
    let dy = distance y1 y0 in
    line_from (suc (dx + dy)) x1 y1 color dx dy (ltb x0 x1) (ltb y0 y1)
      (record { x = x0; y = y0; err = sub_ℕ dx dy }) g
