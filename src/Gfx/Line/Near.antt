-- ===== src/Gfx/Line/Near.antt =====
-- How far from the line between the two ends the pen is: half a pixel at most.
use hk_rtos.Base.{
  ℕ, suc, ◌+◌, ◌*◌, ◌≤◌, ◌<◌, ◌≡◌, arith, ◌⊎◌, inl, inr, leb, if◌then◌else◌, Bool-cases, ap,
}
use hk_rtos.Base.Int.{pos_part, neg_part, ℤ}
use hk_rtos.Gfx.Line.{goes_right, goes_down}
use hk_rtos.Gfx.Line.Steps.{Balanced, right_iff, down_iff}

abbrev pub longer : ℕ → ℕ → ℕ
longer a b = if leb a b then b else a

-- After `i` steps to the side and `j` up or down the line is at most half a pixel away, in the
-- direction in which it advances less.
pub record Near (dx dy i j : ℕ) : Type 0 where
  pub above : j * dx * 2 ≤ i * dy * 2 + longer dx dy
  pub below : i * dy * 2 ≤ j * dx * 2 + longer dx dy
  pub diagonal : dx ≡ dy → i ≡ j

longer-cases :
    (a b : ℕ)
    → ((a < b) × (longer a b ≡ b)) ⊎ (((b < a) × (longer a b ≡ a)) ⊎ ((a ≡ b) × (longer a b ≡ b)))
longer-cases a b = ground arith

module _ (dx dy i j : ℕ) (err : ℤ) (b : Balanced dx dy i j err) (n : Near dx dy i j) where
  Near-side :
      neg_part err * 2 < pos_part err * 2 + dy
      → neg_part err * 2 + dx ≤ pos_part err * 2
      → Near dx dy (suc i) j
  Near-side r d =
      let s = b.sum in
      let a = n.above in
      let l = n.below in
      let c = longer-cases dx dy in
      record {
        above = omega arith;
        below = omega arith;
        diagonal = λ e.
            omega
              (arith, n.diagonal e, ap (λ (t : ℕ). t * dy) (n.diagonal e), ap (λ (t : ℕ). j * t) e);
      }

  Near-down :
      pos_part err * 2 < neg_part err * 2 + dx
      → pos_part err * 2 + dy ≤ neg_part err * 2
      → Near dx dy i (suc j)
  Near-down d r =
      let s = b.sum in
      let a = n.above in
      let l = n.below in
      let c = longer-cases dx dy in
      record {
        above = omega arith;
        below = omega arith;
        diagonal = λ e.
            omega
              (arith, n.diagonal e, ap (λ (t : ℕ). t * dy) (n.diagonal e), ap (λ (t : ℕ). j * t) e);
      }

  Near-both :
      neg_part err * 2 < pos_part err * 2 + dy
      → pos_part err * 2 < neg_part err * 2 + dx
      → Near dx dy (suc i) (suc j)
  Near-both r d =
      let s = b.sum in
      let a = n.above in
      let l = n.below in
      let c = longer-cases dx dy in
      record {
        above = omega arith;
        below = omega arith;
        diagonal = λ e. omega (arith, n.diagonal e);
      }

-- A round keeps the pen near the line.
pub advance-Near :
    (dx dy i j : ℕ) (err : ℤ)
    → dx < 256
    → dy < 256
    → Balanced dx dy i j err
    → Near dx dy i j
    → Near dx dy (if goes_right dy err then suc i else i) (if goes_down dx err then suc j else j)
advance-Near dx dy i j err hx hy b n =
    let r = right_iff dx dy i j err hx hy b in
    let d = down_iff dx dy i j err hx hy b in
    elim (Bool-cases (goes_right dy err)) [
      | inl right ↦ elim (Bool-cases (goes_down dx err)) [
        | inl down ↦ rw (right, down) (Near-both dx dy i j err b n (r.0 right) (d.0 down))
        | inr level ↦ rw (right, level) (Near-side dx dy i j err b n (r.0 right) (ground arith))
      ]
      | inr straight ↦ elim (Bool-cases (goes_down dx err)) [
        | inl down ↦ rw (straight, down) (Near-down dx dy i j err b n (d.0 down) (ground arith))
        | inr level ↦ rw (straight, level) n
      ]
    ]
