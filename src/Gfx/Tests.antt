-- ===== src/Gfx/Tests.antt =====
-- Drawing at concrete inputs.
use hk_rtos.Gfx.Line.{draw_line}
use hk_rtos.Gfx.Line.Along.{OnLine}
use hk_rtos.Gfx.Line.Ends.{draw_line-Paints}
use hk_rtos.Base.{ℕ, Bool, true, some, ◌≡◌, arith, ◌&&◌}
use hk_rtos.Samples.{zeros, zeros-IsBytes}
use hk_rtos.Gfx.{State, fill_rect}
use hk_rtos.Gfx.Pixels.{Paints}
use hk_rtos.Gfx.Rects.{within, fill_rect-Paints}

abbrev blank : State
blank = record { frame_buffer = zeros; cursor_x = 0; cursor_y = 0; text_size = 1 }

fill_rect-Paints_example :
    Paints 15 (λ x' y'. within 120 20 x' && within 7 3 y') blank (fill_rect 120 7 20 3 15 blank)
fill_rect-Paints_example =
    fill_rect-Paints 120 7 20 3 15 blank (omega arith) (omega arith) (omega arith) zeros-IsBytes

draw_line-Paints_example :
    (g' : State) × (inside : ℕ → ℕ → Bool) × (draw_line 3 9 120 2 15 blank ≡ some g')
    × Paints 15 inside blank g'
    × (inside 3 9 ≡ true)
    × (inside 120 2 ≡ true)
    × ((x y : ℕ) → inside x y ≡ true → OnLine 3 9 120 2 x y)
draw_line-Paints_example =
    draw_line-Paints 3 9 120 2 15 blank (omega arith) (omega arith) (omega arith) (omega arith)
      (omega arith) zeros-IsBytes
