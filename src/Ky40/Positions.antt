-- ===== src/Ky40/Positions.antt =====
-- What an encoder's position can be.
use hk_rtos.Base.{
  ltb, ◌∙◌, ap, ℕ, ◌*◌, ◌/◌, ◌≤◌, ◌<◌, ◌≡◌, refl, arith, true, false, inl, inr, Bool-cases,
}
use hk_rtos.Base.Int.{ℤ, pos, negsuc, ◌*ℤ◌, to_signed, to_unsigned, ◌/ℤ◌, ltb_ℤ}
use hk_rtos.Ky40.{wrap, position}

-- A position that the code has checked.
abbrev pub IsChecked : ℤ → Type 0
IsChecked p = (n : ℕ) × (p ≡ pos n) × (n ≤ 40)

wrap-IsChecked : (p : ℤ) → IsChecked (wrap p)
unfolding wrap
wrap-IsChecked (pos n) = elim (Bool-cases (ltb 40 n)) [
  | inl high ↦ (0, ground arith, omega arith)
  | inr low ↦ (n, ground arith, ground arith)
]
wrap-IsChecked (negsuc n) = (40, ground arith, omega arith)

wrap_small : (n : ℕ) → n ≤ 40 → wrap (pos n) ≡ pos n
unfolding wrap
wrap_small n h = ground arith

-- A position as a read returns it.
half_lem : (n : ℕ) → n ≤ 40 → to_unsigned 8 (pos n /ℤ pos 2) ≡ n / 2
half_lem n h = omega arith

read_lem : (p : ℤ) (k n : ℕ) → wrap p ≡ pos n → n ≤ 40 → position p (negsuc k) ≡ (n / 2, pos n)
unfolding position
read_lem p k n e h =
    let below : ltb_ℤ (negsuc k) (pos 0) ≡ true = ground arith in rw (e, below, half_lem n h) refl

refuse_lem : (p : ℤ) (k : ℕ) → 20 < k → position p (pos k) ≡ (255, wrap p)
unfolding position
refuse_lem p k h =
    let above : ltb_ℤ (pos 20) (pos k) ≡ true = ground arith in
    let not_below : ltb_ℤ (pos k) (pos 0) ≡ false = ground arith in rw (not_below, above) refl

doubled : (v : ℕ) → v ≤ 20 → to_signed 7 (pos v *ℤ pos 2) ≡ pos (v * 2)
unfolding ◌*ℤ◌
doubled v h = ground arith

set_lem : (p : ℤ) (v : ℕ) → v ≤ 20 → position p (pos v) ≡ (v, pos (v * 2))
unfolding position
set_lem p v h =
    let not_above : ltb_ℤ (pos 20) (pos v) ≡ false = ground arith in
    let not_below : ltb_ℤ (pos v) (pos 0) ≡ false = ground arith in
    let half : v * 2 / 2 ≡ v = omega arith in
    rw (not_below, not_above, doubled v h, half_lem (v * 2) (omega arith), half) refl

-- Whatever the position was, a read of it gives half of what it is now, and the position is from 0 to
-- 40 after.
pub position_reads : (p : ℤ) (k : ℕ) → (n : ℕ) × (position p (negsuc k) ≡ (n / 2, pos n)) × (n ≤ 40)
position_reads p k = let c = wrap-IsChecked p in (c.0, read_lem p k c.0 c.1 c.2, c.2)

-- A value above 20 gives the error code 255, and the position is from 0 to 40 after.
pub position_refuses :
    (p : ℤ) (k : ℕ) → 20 < k → (n : ℕ) × (position p (pos k) ≡ (255, pos n)) × (n ≤ 40)
position_refuses p k h =
    let c = wrap-IsChecked p in (c.0, refuse_lem p k h ∙ ap (λ x. (255, x)) c.1, c.2)

-- A value from 0 to 20 that is set is the result, and a read gives it back.
pub position_sets :
    (p : ℤ) (v k : ℕ)
    → v ≤ 20
    → ((position p (pos v)).0 ≡ v) × ((position (position p (pos v)).1 (negsuc k)).0 ≡ v)
position_sets p v k h =
    let set = set_lem p v h in
    let half : v * 2 / 2 ≡ v = omega arith in
    let again = read_lem (pos (v * 2)) k (v * 2) (wrap_small (v * 2) (omega arith)) (omega arith) in
    (
      ap (λ x. x.0) set,
      ap (λ q. (position q (negsuc k)).0) (ap (λ x. x.1) set) ∙ ap (λ x. x.0) again ∙ half,
    )
