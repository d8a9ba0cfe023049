-- ===== src/Pipeline/Rtos.antt =====
-- The queues of FreeRTOS with one element, as its documentation has them, for calls that do not wait.
use hk_rtos.Base.{◌≡◌, Option, none, some}

pub record Queue (A : Type 0) : Type 1 where
  pub Q : Type 0
  pub empty : Q
  pub send : A → Q → Q
  pub receive : Q → Option A × Q
  pub receive-empty : receive empty ≡ (none, empty)
  pub receive-send : (x : A) → receive (send x empty) ≡ (some x, empty)
  pub send-send : (x y : A) → send y (send x empty) ≡ send x empty
