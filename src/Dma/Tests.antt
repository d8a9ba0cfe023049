-- ===== src/Dma/Tests.antt =====
-- The handlers at concrete channels; the channels that wait are a function.
use hk_rtos.Base.{ℕ, ◌≡◌, arith, Bool, true, false, not, ◌&&◌, some, ◌==◌, if◌then◌else◌}
use hk_rtos.Dma.{State, initial, dht_register}
use hk_rtos.Dma.Channels.{Irq}

cleared : (c : ℕ) (p : ℕ → Bool) → (p c && not (c == c)) ≡ false
cleared c p = ground arith

kept : (c d : ℕ) (p : ℕ → Bool) → (d == c) ≡ false → (p d && not (d == c)) ≡ p d
kept c d p h = ground arith

abbrev channels : Irq
channels = record {
  P = ℕ → Bool;
  status = λ c p. p c;
  acknowledge = λ c p d. p d && not (d == c);
  status-acknowledge = cleared;
  status-acknowledge_other = kept;
}

-- The channels 3 and 5 wait.
abbrev waiting : ℕ → Bool
waiting c = if c == 3 then true else c == 5

abbrev registered : State
registered = dht_register (some 70) 5 initial
