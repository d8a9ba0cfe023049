-- ===== src/Gfx/Line/Along.antt =====
-- The coordinates of the pen, and the points that a line may have.
use hk_rtos.Base.{◌⊎◌, ℕ, suc, ◌+◌, ◌≤◌, ◌<◌, ◌≡◌, refl, arith, Bool, true, false, ◌==◌, ltb}
use hk_rtos.Base.{inl, inr, Bool-cases, if◌then◌else◌}
use hk_rtos.Gfx.Line.{move, distance}
use hk_rtos.Gfx.Line.Near.{Near}

-- The coordinate `i` steps from another one, forwards or backwards.
abbrev pub Along : Bool → ℕ → ℕ → ℕ → Type 0
Along true from i x = x ≡ from + i
Along false from i x = x + i ≡ from

pub Along-zero : (forward : Bool) (from : ℕ) → Along forward from 0 from
Along-zero true from = omega arith
Along-zero false from = omega arith

move-Along :
    (forward : Bool) (from n to i x : ℕ)
    → from < 256
    → to < 256
    → Along forward from n to
    → i < n
    → Along forward from i x
    → Along forward from (suc i) (move forward x)
unfolding move
move-Along true from n to i x hf ht end lt here = omega arith
move-Along false from n to i x hf ht end lt here = omega arith

-- A coordinate in a round that may move it.
pub move_if :
    (test forward : Bool) (from n to i x : ℕ)
    → from < 256
    → to < 256
    → Along forward from n to
    → i ≤ n
    → (test ≡ true → i < n)
    → Along forward from i x
    → ((if test then suc i else i) ≤ n)
      × Along forward from (if test then suc i else i) (if test then move forward x else x)
move_if true forward from n to i x hf ht end le lt here =
    (lt refl, move-Along forward from n to i x hf ht end (lt refl) here)
move_if false forward from n to i x hf ht end le lt here = (le, here)

pub at_end :
    (forward : Bool) (from n to i x : ℕ)
    → Along forward from n to
    → i ≤ n
    → Along forward from i x
    → (x == to) ≡ (i == n)
at_end true from n to i x end le here = ground arith
at_end false from n to i x end le here = ground arith

pub distance-Along : (from to : ℕ) → Along (ltb from to) from (distance to from) to
unfolding distance
distance-Along from to = elim (Bool-cases (ltb from to)) [
  | inl up ↦ rw up (ground arith)
  | inr down ↦ rw down (ground arith)
]

-- Between the two ends.
pub Along-bounds :
    (from to i x : ℕ)
    → i ≤ distance to from
    → Along (ltb from to) from i x
    → ((from ≤ x) × (x ≤ to)) ⊎ ((to ≤ x) × (x ≤ from))
unfolding distance
Along-bounds from to i x le here = elim (Bool-cases (ltb from to)) [
  | inl up ↦ (let there = rw up at here in inl (ground arith, ground arith))
  | inr down ↦ (let there = rw down at here in inr (ground arith, ground arith))
]

-- A point of the line from (x0, y0) to (x1, y1): some steps from the start towards the end, and no
-- more than half a pixel away from the line.
pub record OnLine (x0 y0 x1 y1 x y : ℕ) : Type 0 where
  pub i : ℕ
  pub j : ℕ
  pub side : i ≤ distance x1 x0
  pub down : j ≤ distance y1 y0
  pub x_at : Along (ltb x0 x1) x0 i x
  pub y_at : Along (ltb y0 y1) y0 j y
  pub near : Near (distance x1 x0) (distance y1 y0) i j
