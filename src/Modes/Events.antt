-- ===== src/Modes/Events.antt =====
-- The event groups of FreeRTOS, for masks of one bit.
use hk_rtos.Base.{ℕ, Bool}

pub record EventGroup : Type 1 where
  pub G : Type 0
  pub set : ℕ → G → G
  pub clear : ℕ → G → G
  pub has : ℕ → G → Bool
