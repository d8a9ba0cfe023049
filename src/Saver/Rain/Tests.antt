-- ===== src/Saver/Rain/Tests.antt =====
-- Two frames of rain.
use hk_rtos.Base.{ℕ, ◌+◌, ◌*◌}
use hk_rtos.Base.Int.{ℤ}
use hk_rtos.Samples.{coarse, zeros}
use hk_rtos.Gfx.{State}
use hk_rtos.Saver.Rain.{Rain, frames}
use hk_rtos.Saver.Rain.Drops.{Stays, frames_stay_inside}
use hk_rtos.Base.Int.{pos}

abbrev rand : ℕ → ℕ
rand k = k * 7

abbrev fall : ℕ → ℤ → ℕ
fall y speed = y + 9

abbrev faster : ℤ → ℤ
faster speed = speed

abbrev still : Rain coarse
still = record {
  droplets = λ i. record { x = 0; y = 0; speed_y = pos 0; width = 0; height = 0; colour = 0 };
  calls = 0;
}

abbrev screen : State
screen = record { frame_buffer = zeros; cursor_x = 0; cursor_y = 0; text_size = 1 }

frames_stay_inside_example :
    Stays coarse rand fall faster (frames coarse rand fall faster 2 still screen) screen
frames_stay_inside_example = frames_stay_inside coarse rand fall faster 2 still screen
