-- ===== src/Averages/Tests.antt =====
-- The averages at a concrete snapshot.
use hk_rtos.Base.{ℕ}
use hk_rtos.Base.Int.{pos}
use hk_rtos.Samples.{coarse}
use hk_rtos.Averages.{Weighted}

abbrev light : ℕ → Weighted coarse
light i = record { value = pos 3; weight = 1 }

abbrev heavy : ℕ → Weighted coarse
heavy i = record { value = pos 5; weight = 200 }
