-- ===== src/Dns/Question.antt =====
-- What the loop over the labels computes.
use hk_rtos.Base.{ℕ, zero, suc, ◌+◌, ◌≤◌, ◌<◌, ◌≡◌, refl, arith, ◌↔◌, ◌⊎◌, inl, inr, some}
use hk_rtos.Crc.{Buffer}
use hk_rtos.Dns.{skip_labels}

-- The labels from an index on, and the index behind them: the name ends with the message or with a
-- zero byte, and no label is longer than 63 bytes.
pub data Labels (msg : Buffer) (end : ℕ) : ℕ → ℕ → Type 0 where
  cut : {p : ℕ} → end ≤ p → Labels msg end p p
  root : {p : ℕ} → p < end → msg p ≡ 0 → Labels msg end p (p + 1)
  label :
      {p r : ℕ}
      → p < end
      → 0 < msg p
      → msg p ≤ 63
      → Labels msg end (p + 1 + msg p) r
      → Labels msg end p r

-- The four cases of a round.
at :
    (p end b : ℕ)
    → (end ≤ p) ⊎ ((p < end) × (b ≡ 0)) ⊎ ((p < end) × (63 < b)) ⊎ ((p < end) × (0 < b) × (b ≤ 63))
at p end b = omega arith

sound :
    (msg : Buffer) (fuel p end r : ℕ)
    → end ≤ p + fuel
    → skip_labels fuel msg p end ≡ some r
    → Labels msg end p r
unfolding skip_labels
sound msg zero p end r enough e = let q : p ≡ r = ground arith in rw (← q) (cut (omega arith))
sound msg (suc fuel) p end r enough e = elim (at p end (msg p)) [
  | inl over ↦ let q : p ≡ r = ground arith in rw (← q) (cut over)
  | inr (inl (h, z)) ↦ let q : p + 1 ≡ r = ground arith in rw (← q) (root h z)
  | inr (inr (inl long)) ↦ absurd (ground arith)
  | inr (inr (inr (h, lo, hi))) ↦
      label h lo hi (sound msg fuel (p + 1 + msg p) end r (omega arith) (ground arith))
]

complete :
    (msg : Buffer) (fuel p end r : ℕ)
    → end ≤ p + fuel
    → Labels msg end p r
    → skip_labels fuel msg p end ≡ some r
unfolding skip_labels
complete msg zero p end r enough (cut h) = refl
complete msg zero p end r enough (root h z) = absurd (omega arith)
complete msg zero p end r enough (label h lo hi rest) = absurd (omega arith)
complete msg (suc fuel) p end r enough (cut h) = ground arith
complete msg (suc fuel) p end r enough (root h z) = ground arith
complete msg (suc fuel) p end r enough (label h lo hi rest) =
    ground (arith, complete msg fuel (p + 1 + msg p) end r (omega arith) rest)

-- With fuel for the bytes that are left, the loop ends at `r` exactly when the labels do.
pub skip_labels-Labels :
    (msg : Buffer) (fuel p end r : ℕ)
    → end ≤ p + fuel
    → (skip_labels fuel msg p end ≡ some r) ↔ Labels msg end p r
skip_labels-Labels msg fuel p end r enough =
    (sound msg fuel p end r enough, complete msg fuel p end r enough)
