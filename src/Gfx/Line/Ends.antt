-- ===== src/Gfx/Line/Ends.antt =====
-- GFX_DrawLine ends, and draws a line from one end to the other.
use hk_rtos.Base.{
  ℕ, zero, suc, ◌+◌, ◌-◌, ◌≤◌, ◌<◌, ◌≡◌, refl, arith, Bool, true, false, ◌==◌, ◌&&◌, ◌||◌, ltb,
  Option, some,
}
use hk_rtos.Base.{◌⊎◌, inl, inr, Bool-cases, if◌then◌else◌}
use hk_rtos.Base.Int.{ℤ, sub_ℕ}
use hk_rtos.Crc.{IsBytes}
use hk_rtos.Gfx.{State, draw_pixel}
use hk_rtos.Gfx.Pixels.{Paints, draw_pixel-Paints}
use hk_rtos.Gfx.Rects.{Paints-then}
use hk_rtos.Gfx.Line.{Pen, goes_right, goes_down, advance, line_from, distance, draw_line}
use hk_rtos.Gfx.Line.Steps.{Balanced, start_Balanced, advance-Balanced, moves, no_right, no_down}
use hk_rtos.Gfx.Line.Along.{Along, Along-zero, move_if, at_end, distance-Along, OnLine}
use hk_rtos.Gfx.Line.Near.{Near, advance-Near}

module _ (x0 y0 x1 y1 : ℕ) (hx0 : x0 < 256) (hy0 : y0 < 256) (hx1 : x1 < 256) (hy1 : y1 < 256) where
  abbrev dx : ℕ
  dx = distance x1 x0

  abbrev dy : ℕ
  dy = distance y1 y0

  -- The pen after `i` and `j` steps.
  record At (i j : ℕ) (p : Pen) : Type 0 where
    side : i ≤ dx
    down : j ≤ dy
    x_at : Along (ltb x0 x1) x0 i p.x
    y_at : Along (ltb y0 y1) y0 j p.y
    balanced : Balanced dx dy i j p.err
    near : Near dx dy i j

  dx_small : dx < 256
  unfolding distance
  dx_small = ground arith

  dy_small : dy < 256
  unfolding distance
  dy_small = ground arith

  -- A step goes past neither end.
  right_lt :
      (i j : ℕ) (err : ℤ)
      → Balanced dx dy i j err
      → i ≤ dx
      → j ≤ dy
      → (i < dx) ⊎ (j < dy)
      → goes_right dy err ≡ true
      → i < dx
  right_lt i j err b s w (inl h) e = h
  right_lt i j err b s w (inr h) e =
      let k = no_right dx dy i j err dx_small dy_small b h e in omega arith

  down_lt :
      (i j : ℕ) (err : ℤ)
      → Balanced dx dy i j err
      → i ≤ dx
      → j ≤ dy
      → (i < dx) ⊎ (j < dy)
      → goes_down dx err ≡ true
      → j < dy
  down_lt i j err b s w (inr h) e = h
  down_lt i j err b s w (inl h) e =
      let k = no_down dx dy i j err dx_small dy_small b h e in omega arith

  advance-At :
      (i j : ℕ) (p : Pen)
      → At i j p
      → (i < dx) ⊎ (j < dy)
      → At
          (if goes_right dy p.err then suc i else i)
          (if goes_down dx p.err then suc j else j)
          (advance dx dy (ltb x0 x1) (ltb y0 y1) p)
  unfolding advance
  advance-At i j p a more =
      let s = a.side in
      let w = a.down in
      let b = a.balanced in
      let right = goes_right dy p.err in
      let down = goes_down dx p.err in
      let lt : right ≡ true → i < dx = right_lt i j p.err b s w more in
      let lt' : down ≡ true → j < dy = down_lt i j p.err b s w more in
      let x' =
        move_if right (ltb x0 x1) x0 dx x1 i p.x hx0 hx1 (distance-Along x0 x1) s lt a.x_at in
      let y' =
        move_if down (ltb y0 y1) y0 dy y1 j p.y hy0 hy1 (distance-Along y0 y1) w lt' a.y_at in
      record {
        side = x'.0;
        down = y'.0;
        x_at = x'.1;
        y_at = y'.1;
        balanced = advance-Balanced dx dy i j (ltb x0 x1) (ltb y0 y1) p dx_small dy_small b;
        near = advance-Near dx dy i j p.err dx_small dy_small b a.near;
      }

  start_At : At 0 0 (record { x = x0; y = y0; err = sub_ℕ dx dy })
  start_At = record {
    side = omega arith;
    down = omega arith;
    x_at = Along-zero (ltb x0 x1) x0;
    y_at = Along-zero (ltb y0 y1) y0;
    balanced = start_Balanced dx dy;
    near = record { above = omega arith; below = omega arith; diagonal = λ e. refl };
  }

  -- What a run of the loop from a pen draws, if the end is not behind it.
  abbrev Draws : ℕ → Pen → State → Option State → Type 0
  Draws color p g result =
      (g' : State) × (inside : ℕ → ℕ → Bool) × (result ≡ some g')
      × Paints color inside g g'
      × (inside p.x p.y ≡ true)
      × (inside x1 y1 ≡ true)
      × ((x y : ℕ) → inside x y ≡ true → OnLine x0 y0 x1 y1 x y)

  At-OnLine : (i j : ℕ) (p : Pen) → At i j p → OnLine x0 y0 x1 y1 p.x p.y
  At-OnLine i j p a = record {
    i = i;
    j = j;
    side = a.side;
    down = a.down;
    x_at = a.x_at;
    y_at = a.y_at;
    near = a.near;
  }

  -- The steps that are left grow fewer.
  fewer :
      (fuel i j : ℕ) (err : ℤ)
      → Balanced dx dy i j err
      → i ≤ dx
      → j ≤ dy
      → (i < dx) ⊎ (j < dy)
      → dx - i + (dy - j) < suc fuel
      → dx
          - (if goes_right dy err then suc i else i)
          + (dy - (if goes_down dx err then suc j else j))
        < fuel
  fewer fuel i j err b s w more enough =
      let m = moves dx dy i j err dx_small dy_small b (omega arith) in
      let r = right_lt i j err b s w more in let d = down_lt i j err b s w more in ground arith

  not_there :
      (i j : ℕ) (p : Pen) → At i j p → (p.x == x1 && p.y == y1) ≡ false → (i < dx) ⊎ (j < dy)
  not_there i j p a away =
      let s = a.side in
      let w = a.down in
      ground (
        arith,
        at_end (ltb x0 x1) x0 dx x1 i p.x (distance-Along x0 x1) s a.x_at,
        at_end (ltb y0 y1) y0 dy y1 j p.y (distance-Along y0 y1) w a.y_at,
      )

  line_from-Draws :
      (color fuel i j : ℕ) (p : Pen) (g : State)
      → color < 16
      → IsBytes g.frame_buffer
      → At i j p
      → dx - i + (dy - j) < fuel
      → Draws color p g (line_from fuel x1 y1 color dx dy (ltb x0 x1) (ltb y0 y1) p g)
  unfolding line_from
  line_from-Draws color zero i j p g hc bytes a enough = absurd (omega arith)
  line_from-Draws color (suc fuel) i j p g hc bytes a enough =
      let one = draw_pixel-Paints p.x p.y color g hc bytes in
      let here = At-OnLine i j p a in
      let on_pen : (x y : ℕ) → (x == p.x && y == p.y) ≡ true → OnLine x0 y0 x1 y1 x y = λ x y e.
        let ex : x ≡ p.x = ground arith in let ey : y ≡ p.y = ground arith in rw (ex, ey) here in
      elim (Bool-cases (p.x == x1 && p.y == y1)) [
        | inl last ↦ (
          draw_pixel p.x p.y color g,
          (λ x y. x == p.x && y == p.y),
          rw last refl,
          one,
          ground arith,
          ground arith,
          on_pen,
        )
        | inr on ↦
            (let more : (i < dx) ⊎ (j < dy) = not_there i j p a on in
              let b = a.balanced in
              let rest =
                line_from-Draws color fuel (if goes_right dy p.err then suc i else i)
                  (if goes_down dx p.err then suc j else j)
                  (advance dx dy (ltb x0 x1) (ltb y0 y1) p) (draw_pixel p.x p.y color g) hc
                  one.bytes (advance-At i j p a more)
                  (fewer fuel i j p.err b a.side a.down more enough) in
              (
                rest.0,
                (λ x y. rest.1 x y || (x == p.x && y == p.y)),
                rw on rest.2,
                Paints-then color _ _ g _ rest.0 one rest.3,
                ground arith,
                ground arith,
                λ x y e. elim (Bool-cases (rest.1 x y)) [
                  | inl later ↦ rest.6 x y later
                  | inr now ↦ on_pen x y (rw now at e)
                ],
              ))
      ]

-- GFX_DrawLine comes to an end for any two points. In one of the sixteen colours it paints a set of
-- pixels that has both ends in it and only points between them, each at most half a pixel away from
-- the straight line; no other pixel of the screen and no byte behind the frame buffer changes.
pub draw_line-Paints :
    (x0 y0 x1 y1 color : ℕ) (g : State)
    → x0 < 256
    → y0 < 256
    → x1 < 256
    → y1 < 256
    → color < 16
    → IsBytes g.frame_buffer
    → (g' : State) × (inside : ℕ → ℕ → Bool) × (draw_line x0 y0 x1 y1 color g ≡ some g')
      × Paints color inside g g'
      × (inside x0 y0 ≡ true)
      × (inside x1 y1 ≡ true)
      × ((x y : ℕ) → inside x y ≡ true → OnLine x0 y0 x1 y1 x y)
unfolding draw_line
draw_line-Paints x0 y0 x1 y1 color g hx0 hy0 hx1 hy1 hc bytes =
    line_from-Draws x0 y0 x1 y1 hx0 hy0 hx1 hy1 color (suc (distance x1 x0 + distance y1 y0)) 0 0
      (record { x = x0; y = y0; err = sub_ℕ (distance x1 x0) (distance y1 y0) }) g hc bytes
      (start_At x0 y0 x1 y1 hx0 hy0 hx1 hy1) (omega arith)
