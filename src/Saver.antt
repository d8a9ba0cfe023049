-- ===== src/Saver.antt =====
-- The moving square of the screen saver (case 1 of hkScreenSaver in src/display/gfx/gfx.c); case 0 is
-- Rain.
pub mod Inside
pub mod Rain
mod Tests
use hk_rtos.Base.{ℕ, zero, suc, ◌+◌, ◌*◌, ◌%◌, ◌^◌, Bool, ◌||◌, ◌==◌, leb, if◌then◌else◌, u8}
use hk_rtos.Gfx.{State, clear_buffer, fill_fast_rect}

-- The static variables.
pub record Square : Type 0 where
  pub rect_x : ℕ
  pub rect_y : ℕ
  pub speed_x : ℕ
  pub speed_y : ℕ

pub start : Square
start = record { rect_x = 10; rect_y = 10; speed_x = 1; speed_y = 1 }

-- The speed after a step to `x`; `speed *= -1` is in u8.
pub turn : ℕ → ℕ → ℕ → ℕ
turn size x speed = if x == 0 || leb size (x + 10) then u8 (speed * 255) else speed

pub advance : ℕ → ℕ → Square → Square
unfolding turn
advance width height s =
    let x = u8 (s.rect_x + s.speed_x) in
    let y = u8 (s.rect_y + s.speed_y) in
    record {
      rect_x = x;
      rect_y = y;
      speed_x = turn width x s.speed_x;
      speed_y = turn height y s.speed_y;
    }

-- A frame before it is sent to the display.
pub save : ℕ → ℕ → Square → State → Square × State
unfolding advance
save width height s g =
    let s' = advance width height s in
    (s', fill_fast_rect s'.rect_x s'.rect_y 10 10 15 (clear_buffer g))

-- The square after some frames.
pub frames : ℕ → ℕ → ℕ → Square
unfolding advance start
frames zero width height = start
frames (suc n) width height = advance width height (frames n width height)
