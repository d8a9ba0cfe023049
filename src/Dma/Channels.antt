-- ===== src/Dma/Channels.antt =====
-- The pending interrupts of the DMA channels, as the pico-sdk documents them: acknowledging a channel
-- clears its status and no other.
use hk_rtos.Base.{ℕ, ◌≡◌, Bool, false, ◌==◌}

pub record Irq : Type 1 where
  pub P : Type 0
  pub status : ℕ → P → Bool
  pub acknowledge : ℕ → P → P
  pub status-acknowledge : (c : ℕ) (p : P) → status c (acknowledge c p) ≡ false
  pub status-acknowledge_other :
      (c d : ℕ) (p : P) → (d == c) ≡ false → status d (acknowledge c p) ≡ status d p
