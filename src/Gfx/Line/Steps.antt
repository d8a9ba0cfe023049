-- ===== src/Gfx/Line/Steps.antt =====
-- How a round of the loop moves the pen: never past the end, and always near the line.
use hk_rtos.Base.{ℕ, suc, ◌+◌, ◌*◌, ◌^◌, ◌≤◌, ◌<◌, ◌≡◌, refl, arith, ◌↔◌, Bool, true, ltb}
use hk_rtos.Base.{◌⊎◌, inl, inr, Bool-cases, if◌then◌else◌}
use native.Mathlib.Nat.{mul-le-mul_right}
use hk_rtos.Base.{◌≢◌, ap}
use hk_rtos.Base.Int.{ℤ, pos, negsuc, pos_part, neg_part, ◌+ℤ◌, ◌-ℤ◌, ◌*ℤ◌, to_signed, sub_ℕ}
use hk_rtos.Gfx.Line.{Pen, goes_right, goes_down, advance}

-- An i16 that does not overflow.
to_signed_small : (a : ℤ) → pos_part a < 2 ^ 15 → neg_part a ≤ 2 ^ 15 → to_signed 15 a ≡ a
to_signed_small (pos n) p q = ground arith
to_signed_small (negsuc n) p q = ground arith

-- The error term after `i` steps to the side and `j` up or down.
pub record Balanced (dx dy i j : ℕ) (err : ℤ) : Type 0 where
  pub sum : pos_part err + (i + 1) * dy ≡ neg_part err + (j + 1) * dx
  pub low : neg_part err * 2 ≤ pos_part err * 2 + 3 * dy
  pub high : pos_part err * 2 ≤ neg_part err * 2 + 3 * dx

pub start_Balanced : (dx dy : ℕ) → Balanced dx dy 0 0 (sub_ℕ dx dy)
start_Balanced dx dy = record { sum = ground arith; low = ground arith; high = ground arith }

double_lem :
    (err : ℤ)
    → (pos_part (err *ℤ pos 2) ≡ pos_part err * 2) × (neg_part (err *ℤ pos 2) ≡ neg_part err * 2)
unfolding ◌*ℤ◌
double_lem (pos n) = ground arith
double_lem (negsuc n) = ground arith

goes_right_lem :
    (dy : ℕ) (err : ℤ)
    → pos_part err * 2 < 2 ^ 15
    → neg_part err * 2 ≤ 2 ^ 15
    → goes_right dy err ≡ ltb (neg_part err * 2) (pos_part err * 2 + dy)
unfolding goes_right
goes_right_lem dy err p q =
    let d = double_lem err in
    rw (to_signed_small (err *ℤ pos 2) (omega arith) (omega arith)) (ground (arith, d.0, d.1))

goes_down_lem :
    (dx : ℕ) (err : ℤ)
    → pos_part err * 2 < 2 ^ 15
    → neg_part err * 2 ≤ 2 ^ 15
    → goes_down dx err ≡ ltb (pos_part err * 2) (neg_part err * 2 + dx)
unfolding goes_down
goes_down_lem dx err p q =
    let d = double_lem err in
    rw (to_signed_small (err *ℤ pos 2) (omega arith) (omega arith)) (ground (arith, d.0, d.1))

-- Of the two parts one is zero.
one_part : (a : ℤ) → (pos_part a ≡ 0) ⊎ (neg_part a ≡ 0)
one_part (pos n) = inr refl
one_part (negsuc n) = inl refl

sub_ℕ_lem :
    (m n : ℕ)
    → (pos_part (sub_ℕ m n) ≤ m)
      × (neg_part (sub_ℕ m n) ≤ n)
      × (pos_part (sub_ℕ m n) + n ≡ neg_part (sub_ℕ m n) + m)
sub_ℕ_lem m n = ground arith

sub_lem :
    (a : ℤ) (d : ℕ)
    → pos_part a < 2 ^ 15
    → neg_part a + d ≤ 2 ^ 15
    → let b = to_signed 15 (a -ℤ pos d) in pos_part b + neg_part a + d ≡ neg_part b + pos_part a
unfolding ◌-ℤ◌
sub_lem a d p q =
    let m = pos_part a + 0 in
    let n = neg_part a + d in
    let k = sub_ℕ_lem m n in
    rw (to_signed_small (sub_ℕ m n) (omega arith) (omega arith)) (omega arith)

add_lem :
    (a : ℤ) (d : ℕ)
    → pos_part a + d < 2 ^ 15
    → neg_part a ≤ 2 ^ 15
    → let b = to_signed 15 (a +ℤ pos d) in pos_part b + neg_part a ≡ neg_part b + pos_part a + d
unfolding ◌+ℤ◌
add_lem a d p q =
    let m = pos_part a + d in
    let n = neg_part a + 0 in
    let k = sub_ℕ_lem m n in
    rw (to_signed_small (sub_ℕ m n) (omega arith) (omega arith)) (omega arith)

module _ (dx dy i j : ℕ) (err : ℤ) (hx : dx < 256) (hy : dy < 256)
    (b : Balanced dx dy i j err) where
  small : (pos_part err * 2 ≤ 765) × (neg_part err * 2 ≤ 765)
  small = let l = b.low in let h = b.high in let o = one_part err in (omega arith, omega arith)

  pub right_iff : (goes_right dy err ≡ true) ↔ (neg_part err * 2 < pos_part err * 2 + dy)
  right_iff = let s = small in ground (arith, goes_right_lem dy err)

  pub down_iff : (goes_down dx err ≡ true) ↔ (pos_part err * 2 < neg_part err * 2 + dx)
  down_iff = let s = small in ground (arith, goes_down_lem dx err)

  -- One step at least is made before the end.
  pub moves : (0 < dx) ⊎ (0 < dy) → (goes_right dy err ≡ true) ⊎ (goes_down dx err ≡ true)
  moves more = let r = right_iff in let d = down_iff in ground arith

  pub no_right : j < dy → goes_right dy err ≡ true → i ≢ dx
  no_right h r e =
      let s = b.sum in
      let r' = right_iff.0 r in
      let h' : j + 1 ≤ dy = omega arith in
      omega (arith, mul-le-mul_right dx h', ap (λ (t : ℕ). t * dy) e)

  pub no_down : i < dx → goes_down dx err ≡ true → j ≢ dy
  no_down h r e =
      let s = b.sum in
      let r' = down_iff.0 r in
      let h' : i + 1 ≤ dx = omega arith in
      omega (arith, mul-le-mul_right dy h', ap (λ (t : ℕ). t * dx) e)

-- The error term after a step to the side, down, or both, by its parts.
module _ (dx dy i j : ℕ) (err err' : ℤ) (b : Balanced dx dy i j err) where
  to_side :
      neg_part err * 2 + dx ≤ pos_part err * 2
      → pos_part err' + neg_part err + dy ≡ neg_part err' + pos_part err
      → Balanced dx dy (suc i) j err'
  to_side far e =
      let s = b.sum in
      let l = b.low in
      let h = b.high in record { sum = omega arith; low = omega arith; high = omega arith }

  to_down :
      pos_part err * 2 + dy ≤ neg_part err * 2
      → pos_part err' + neg_part err ≡ neg_part err' + pos_part err + dx
      → Balanced dx dy i (suc j) err'
  to_down far e =
      let s = b.sum in
      let l = b.low in
      let h = b.high in record { sum = omega arith; low = omega arith; high = omega arith }

  to_both :
      neg_part err * 2 < pos_part err * 2 + dy
      → pos_part err * 2 < neg_part err * 2 + dx
      → pos_part err' + neg_part err + dy ≡ neg_part err' + pos_part err + dx
      → Balanced dx dy (suc i) (suc j) err'
  to_both near near' e =
      let s = b.sum in record { sum = omega arith; low = omega arith; high = omega arith }

module _ (dx dy i j : ℕ) (sx sy : Bool) (p : Pen) (hx : dx < 256) (hy : dy < 256)
    (b : Balanced dx dy i j p.err) where
  -- A round keeps the error term in balance, with the steps that it makes.
  pub advance-Balanced :
      Balanced dx dy
        (if goes_right dy p.err then suc i else i)
        (if goes_down dx p.err then suc j else j)
        (advance dx dy sx sy p).err
  unfolding advance
  advance-Balanced =
      let w = small dx dy i j p.err hx hy b in
      let r = right_iff dx dy i j p.err hx hy b in
      let d = down_iff dx dy i j p.err hx hy b in
      let turned = to_signed 15 (p.err -ℤ pos dy) in
      let left = sub_lem p.err dy (omega arith) (omega arith) in
      let o = one_part turned in
      elim (Bool-cases (goes_right dy p.err)) [
        | inl right ↦ elim (Bool-cases (goes_down dx p.err)) [
          | inl down ↦
              rw (right, down)
                (to_both dx dy i j p.err _ b (r.0 right) (d.0 down)
                  (omega (arith, left, add_lem turned dx (omega arith) (omega arith))))
          | inr level ↦ rw (right, level) (to_side dx dy i j p.err turned b (ground arith) left)
        ]
        | inr straight ↦ elim (Bool-cases (goes_down dx p.err)) [
          | inl down ↦
              rw (straight, down)
                (to_down dx dy i j p.err _ b (ground arith)
                  (add_lem p.err dx (omega arith) (omega arith)))
          | inr level ↦ rw (straight, level) b
        ]
      ]
