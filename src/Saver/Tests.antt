-- ===== src/Saver/Tests.antt =====
-- The square on the display of 128 by 128 pixels.
use hk_rtos.Base.{◌≡◌, refl}
use hk_rtos.Saver.{frames}

-- It turns at the right edge.
turned : frames 109 128 128 ≡ record { rect_x = 117; rect_y = 117; speed_x = 255; speed_y = 255 }
unfolding frames
turned = refl
