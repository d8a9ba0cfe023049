-- ===== src/Graph/Drawing.antt =====
-- Drawing a graph comes to an end, and stays within the graph.
use hk_rtos.Base.{
  ℕ, zero, suc, ◌+◌, ◌-◌, ◌≤◌, ◌<◌, ◌≡◌, ◌∙◌, refl, arith, Bool, true, false, ◌||◌, some, inl, inr,
  Bool-cases, u8,
}
use hk_rtos.Crc.{IsBytes}
use hk_rtos.Gfx.{State}
use hk_rtos.Gfx.Pixels.{Paints}
use hk_rtos.Gfx.Rects.{Paints-none, Paints-then}
use hk_rtos.Gfx.Line.{draw_line}
use hk_rtos.Gfx.Line.Along.{OnLine, Along-bounds}
use hk_rtos.Gfx.Line.Ends.{draw_line-Paints}
use hk_rtos.Graph.{GraphConfig, bound_stored, draw_from, draw}
use hk_rtos.Graph.Points.{Fits, IsDrawable}

-- A pixel of the graph.
abbrev pub InGraph : GraphConfig → ℕ → ℕ → Type 0
InGraph c x y = (c.x ≤ x) × (x < c.x + c.width) × (c.y ≤ y) × (y ≤ c.y + c.height)

bound_stored_lem :
    (c : GraphConfig) (v : ℕ) → (c.y ≤ bound_stored c v) × (bound_stored c v ≤ c.y + c.height)
unfolding bound_stored
bound_stored_lem c v = ground arith

-- A point of a line between two pixels of the graph is a pixel of the graph.
OnLine-InGraph :
    (c : GraphConfig) (x0 y0 x1 y1 x y : ℕ)
    → InGraph c x0 y0
    → InGraph c x1 y1
    → OnLine x0 y0 x1 y1 x y
    → InGraph c x y
OnLine-InGraph c x0 y0 x1 y1 x y h k o =
    let bx = Along-bounds x0 x1 o.i x o.side o.x_at in
    let by = Along-bounds y0 y1 o.j y o.down o.y_at in ground arith

-- The state after a drawing, and what it painted.
abbrev pub DrawsIn : GraphConfig → State → State → Type 0
DrawsIn c g g' =
    (inside : ℕ → ℕ → Bool) × Paints c.colour inside g g'
    × ((x y : ℕ) → inside x y ≡ true → InGraph c x y)

-- One round of the loop, on the graph.
draw_from-suc :
    (left i : ℕ) (c : GraphConfig) (g g' : State)
    → Fits c
    → 0 < i
    → i < c.width
    → draw_line
        (c.x + i - 1)
        (bound_stored c (c.history (i - 1)))
        (c.x + i)
        (bound_stored c (c.history i))
        c.colour
        g
      ≡ some g'
    → draw_from (suc left) i c g ≡ draw_from left (i + 1) c g'
unfolding draw_from
draw_from-suc left i c g g' f h lt e =
    let right = f.right in
    let bottom = f.bottom in
    let low = bound_stored_lem c (c.history (i - 1)) in
    let low' = bound_stored_lem c (c.history i) in
    let ex0 : u8 (c.x + i - 1) ≡ c.x + i - 1 = omega arith in
    let ex1 : u8 (c.x + i) ≡ c.x + i = omega arith in
    let ey0 : u8 (bound_stored c (c.history (i - 1))) ≡ bound_stored c (c.history (i - 1)) =
      omega arith in
    let ey1 : u8 (bound_stored c (c.history i)) ≡ bound_stored c (c.history i) = omega arith in
    rw (ex0, ex1, ey0, ey1, e, draw_from) refl

draw_from-DrawsIn :
    (left i : ℕ) (c : GraphConfig) (g : State)
    → Fits c
    → 0 < i
    → (0 < left → i + left ≤ c.width)
    → c.colour < 16
    → IsBytes g.frame_buffer
    → (g' : State) × (draw_from left i c g ≡ some g') × DrawsIn c g g'
unfolding draw_from
draw_from-DrawsIn zero i c g f h r hc b =
    (g, refl, ((λ x y. false), Paints-none c.colour g b, λ x y e. cc))
draw_from-DrawsIn (suc left) i c g f h r hc b =
    let right = f.right in
    let bottom = f.bottom in
    let enough = r (omega arith) in
    let low = bound_stored_lem c (c.history (i - 1)) in
    let low' = bound_stored_lem c (c.history i) in
    let y0 = bound_stored c (c.history (i - 1)) in
    let y1 = bound_stored c (c.history i) in
    let one =
      draw_line-Paints (c.x + i - 1) y0 (c.x + i) y1 c.colour g (omega arith) (omega arith)
        (omega arith) (omega arith) hc b in
    let rest =
      draw_from-DrawsIn left (i + 1) c one.0 f (omega arith) (λ e. omega arith) hc one.3.bytes in
    (
      rest.0,
      draw_from-suc left i c g one.0 f h (omega arith) one.2 ∙ rest.1,
      (
        (λ x y. rest.2.0 x y || one.1 x y),
        Paints-then c.colour _ _ g one.0 rest.0 one.3 rest.2.1,
        λ x y e. elim (Bool-cases (rest.2.0 x y)) [
          | inl later ↦ rest.2.2 x y later
          | inr now ↦
              OnLine-InGraph c (c.x + i - 1) y0 (c.x + i) y1 x y (omega arith) (omega arith)
                (one.6 x y (rw now at e))
        ],
      ),
    )

-- Drawing a graph that fits and is drawable comes to an end: in one of the sixteen colours it paints
-- pixels of the graph only, and nothing else changes.
pub draw-DrawsIn :
    (c : GraphConfig) (g : State)
    → Fits c
    → IsDrawable c
    → c.colour < 16
    → IsBytes g.frame_buffer
    → (g' : State) × (draw c g ≡ some g') × DrawsIn c g g'
unfolding draw
draw-DrawsIn c g f d hc b =
    let k = d.cursor in
    draw_from-DrawsIn (c.cursor_x - 1) 1 c g f (omega arith) (λ e. omega arith) hc b
