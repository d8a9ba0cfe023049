-- ===== src/Graph/Tests.antt =====
-- A graph at concrete points.
use hk_rtos.Base.{◌≡◌, refl, arith, some, none}
use hk_rtos.Base.Int.{pos, negsuc, ◌+ℤ◌, ◌-ℤ◌, ◌*ℤ◌, to_signed}
use hk_rtos.Samples.{zeros, zeros-IsBytes}
use hk_rtos.Gfx.{State}
use hk_rtos.Graph.{GraphConfig, map, add_data_point, draw}
use hk_rtos.Graph.Points.{Fits, IsDrawable, add_data_point-IsDrawable}
use hk_rtos.Graph.Labels.{follow_x, follow_y, newest}
use hk_rtos.Graph.Drawing.{DrawsIn, draw-DrawsIn}

abbrev config : GraphConfig
config = record {
  x = 4;
  y = 20;
  width = 100;
  height = 90;
  colour = 15;
  border_colour = 7;
  legend_colour = 7;
  history = λ i. 50;
  length = 128;
  cursor_x = 3;
}

-- 21.5 between 0 and 50.
middle : map (pos 215) (pos 0) (pos 500) (pos 110) (pos 20) ≡ some (pos 72)
unfolding map ◌+ℤ◌ ◌-ℤ◌ ◌*ℤ◌
middle = refl

config-Fits : Fits config
config-Fits = record { some_width = omega arith; right = omega arith; bottom = omega arith }

config-IsDrawable : IsDrawable config
config-IsDrawable = record { cursor = omega arith; points = λ i lt. omega arith }

-- Equal limits.
undefined_point : map (pos 215) (pos 7) (pos 7) (pos 110) (pos 20) ≡ none
unfolding map ◌+ℤ◌ ◌-ℤ◌ ◌*ℤ◌
undefined_point = refl

range : to_signed 31 (pos 500 -ℤ pos 0) ≡ pos 500
unfolding ◌-ℤ◌
range = refl

add_data_point-IsDrawable_example :
    (c' : GraphConfig) × (add_data_point (negsuc 70) (pos 0) (pos 500) config ≡ some c')
    × IsDrawable c'
add_data_point-IsDrawable_example =
    add_data_point-IsDrawable (negsuc 70) (pos 0) (pos 500) config config-Fits config-IsDrawable
      (λ e. let z = rw range at e in ground arith)

abbrev blank : State
blank = record { frame_buffer = zeros; cursor_x = 0; cursor_y = 0; text_size = 1 }

draw-DrawsIn_example : (g' : State) × (draw config blank ≡ some g') × DrawsIn config blank g'
draw-DrawsIn_example =
    draw-DrawsIn config blank config-Fits config-IsDrawable (omega arith) zeros-IsBytes

-- A text of four letters near the left edge of the screen.
placed : (follow_x 4 config ≡ 80) × (follow_y config ≡ 54)
unfolding follow_x follow_y newest
placed = (refl, refl)
