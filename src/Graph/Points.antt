-- ===== src/Graph/Points.antt =====
-- A graph keeps its cursor and its points within its limits.
use hk_rtos.Base.{ℕ, ◌+◌, ◌^◌, ◌≤◌, ◌<◌, ◌≡◌, ◌≢◌, refl, arith, zero, suc, some}
use hk_rtos.Base.Int.{ℤ, pos, negsuc, to_unsigned, to_signed, ◌+ℤ◌, ◌-ℤ◌, ◌*ℤ◌}
use hk_rtos.Graph.{GraphConfig, quotient, map, bound_next, add_next, add_data_point}

-- A graph that lies on the screen's numbers of eight bits.
pub record Fits (c : GraphConfig) : Type 0 where
  pub some_width : 0 < c.width
  pub right : c.x + c.width ≤ 2 ^ 8
  pub bottom : c.y + c.height < 2 ^ 8

-- The cursor is on the graph, and so are the points before it.
pub record IsDrawable (c : GraphConfig) : Type 0 where
  pub cursor : c.cursor_x < c.width
  pub points : (i : ℕ) → i < c.cursor_x → (c.y ≤ c.history i) × (c.history i ≤ c.y + c.height)

bound_next-byte :
    (c : GraphConfig) (v : ℤ)
    → c.y + c.height < 2 ^ 8
    → let b = to_unsigned 8 (bound_next c v) in (c.y ≤ b) × (b ≤ c.y + c.height)
unfolding bound_next
bound_next-byte c (pos n) h = ground arith
bound_next-byte c (negsuc n) h = ground arith

add_next-IsDrawable : (v : ℤ) (c : GraphConfig) → Fits c → IsDrawable c → IsDrawable (add_next v c)
unfolding add_next
add_next-IsDrawable v c f d =
    let r = f.right in
    let k = d.cursor in
    let b = bound_next-byte c v f.bottom in
    record {
      cursor = let w = f.some_width in ground arith;
      points = λ i lt. ground (arith, d.points i);
    }

quotient-some : (a b : ℤ) → b ≢ pos 0 → (v : ℤ) × (quotient a b ≡ some v)
quotient-some a (pos zero) h = absurd (h refl)
quotient-some a (pos (suc n)) h = (_, refl)
quotient-some a (negsuc n) h = (_, refl)

-- On a graph that fits the screen, if the limits of the values differ, in 32 bits, a point of any value
-- is added and keeps the graph drawable: the cursor is on the graph, and the points up to it lie between
-- the upper and the lower edge.
pub add_data_point-IsDrawable :
    (value min_val max_val : ℤ) (c : GraphConfig)
    → Fits c
    → IsDrawable c
    → to_signed 31 (max_val -ℤ min_val) ≢ pos 0
    → (c' : GraphConfig) × (add_data_point value min_val max_val c ≡ some c') × IsDrawable c'
unfolding add_data_point map
add_data_point-IsDrawable value min_val max_val c f d differ =
    let q =
      quotient-some (to_signed 31 ((value -ℤ min_val) *ℤ (pos c.y -ℤ pos (c.y + c.height)))) _
        differ in
    let v = to_signed 31 (q.0 +ℤ pos (c.y + c.height)) in
    (add_next v c, rw q.1 refl, add_next-IsDrawable v c f d)
