-- ===== src/Gfx/Rects.antt =====
-- What the lines and rectangles paint.
use hk_rtos.Base.{ℕ, zero, suc, ◌+◌, ◌*◌, ◌-◌, ◌/◌, ◌%◌, ◌^◌, ◌≤◌, ◌<◌, ◌≡◌, ◌≢◌, refl, arith, ◌∙◌}
use hk_rtos.Base.{
  Bool, true, false, ◌==◌, ◌||◌, ◌&&◌, ltb, leb, inl, inr, Bool-cases, if◌then◌else◌, u8, u16,
}
use hk_rtos.Crc.{IsBytes}
use hk_rtos.Gfx.{
  State, width, height, store, draw_pixel, h_line_from, draw_fast_h_line, v_line_from, rows_from,
  fill_rect, draw_fast_v_line, draw_rect, fast_row_from, fast_rows_from, fill_fast_rect,
}
use hk_rtos.Gfx.Pixels.{pixel, store_lem, store-IsBytes, Paints, draw_pixel-Paints}

-- One coordinate among `n` of them from `a` on.
abbrev pub within : ℕ → ℕ → ℕ → Bool
within a n x = leb a x && ltb x (a + n)

-- The painted set may be described in another way.
pub Paints-ext :
    (color : ℕ) (p q : ℕ → ℕ → Bool) (g g' : State)
    → ((x y : ℕ) → x < width → y < height → p x y ≡ q x y)
    → Paints color p g g'
    → Paints color q g g'
Paints-ext color p q g g' same h = record {
  bytes = h.bytes;
  inside_only = λ x y hx hy. rw (← same x y hx hy) (h.inside_only x y hx hy);
  elsewhere = h.elsewhere;
}

pub Paints-none : (color : ℕ) (g : State) → IsBytes g.frame_buffer → Paints color (λ x y. false) g g
Paints-none color g b = record {
  bytes = b;
  inside_only = λ x y hx hy. refl;
  elsewhere = λ i h. refl;
}

-- One operation after another paints the union.
pub Paints-then :
    (color : ℕ) (p q : ℕ → ℕ → Bool) (g g' g'' : State)
    → Paints color p g g'
    → Paints color q g' g''
    → Paints color (λ x y. q x y || p x y) g g''
Paints-then color p q g g' g'' h k = record {
  bytes = k.bytes;
  inside_only =
      λ x y hx hy. k.inside_only x y hx hy ∙ union (q x y) (p x y) _ _ (h.inside_only x y hx hy);
  elsewhere = λ i lo. k.elsewhere i lo ∙ h.elsewhere i lo;
}
  where
    union :
        (a b : Bool) (v w : ℕ)
        → v ≡ (if b then color else w)
        → (if a then color else v) ≡ (if a || b then color else w)
    union true b v w e = refl
    union false b v w e = e

module _ (color : ℕ) (hc : color < 16) where
  h_line_from-Paints :
      (left i x y : ℕ) (g : State)
      → x + i + left ≤ 2 ^ 8
      → IsBytes g.frame_buffer
      → Paints color (λ x' y'. within (x + i) left x' && y' == y) g (h_line_from left i x y color g)
  unfolding h_line_from
  h_line_from-Paints zero i x y g fits b =
      Paints-ext color _ _ g g (λ x' y' hx hy. ground arith) (Paints-none color g b)
  h_line_from-Paints (suc left) i x y g fits b =
      let exact : u8 (x + i) ≡ x + i = omega arith in
      let g' = draw_pixel (x + i) y color g in
      let one = draw_pixel-Paints (x + i) y color g hc b in
      rw exact (
        Paints-ext color _ _ g _ (λ x' y' hx hy. ground arith)
          (Paints-then color _ _ g g' _ one
            (h_line_from-Paints left (i + 1) x y g' (omega arith) one.bytes)))

  v_line_from-Paints :
      (left i x y : ℕ) (g : State)
      → y + i + left ≤ 2 ^ 8
      → IsBytes g.frame_buffer
      → Paints color (λ x' y'. x' == x && within (y + i) left y') g (v_line_from left i x y color g)
  unfolding v_line_from
  v_line_from-Paints zero i x y g fits b =
      Paints-ext color _ _ g g (λ x' y' hx hy. ground arith) (Paints-none color g b)
  v_line_from-Paints (suc left) i x y g fits b =
      let exact : u8 (y + i) ≡ y + i = omega arith in
      let g' = draw_pixel x (y + i) color g in
      let one = draw_pixel-Paints x (y + i) color g hc b in
      rw exact (
        Paints-ext color _ _ g _ (λ x' y' hx hy. ground arith)
          (Paints-then color _ _ g g' _ one
            (v_line_from-Paints left (i + 1) x y g' (omega arith) one.bytes)))

  rows_from-Paints :
      (left i x y w : ℕ) (g : State)
      → x + w ≤ 2 ^ 8
      → y + i + left ≤ 2 ^ 8
      → IsBytes g.frame_buffer
      → Paints color
          (λ x' y'. within x w x' && within (y + i) left y')
          g
          (rows_from left i x y w color g)
  unfolding rows_from draw_fast_h_line
  rows_from-Paints zero i x y w g fits_x fits b =
      Paints-ext color _ _ g g (λ x' y' hx hy. ground arith) (Paints-none color g b)
  rows_from-Paints (suc left) i x y w g fits_x fits b =
      let exact : u8 (y + i) ≡ y + i = omega arith in
      let g' = h_line_from w 0 x (y + i) color g in
      let line = h_line_from-Paints w 0 x (y + i) g (omega arith) b in
      rw exact (
        Paints-ext color _ _ g _ (λ x' y' hx hy. ground arith)
          (Paints-then color _ _ g g' _ line
            (rows_from-Paints left (i + 1) x y w g' fits_x (omega arith) line.bytes)))

-- A filled rectangle, in one of the sixteen colours, that ends at coordinate 256 at most: the
-- pixels of the screen that lie in the rectangle take the colour, and no others change.
pub fill_rect-Paints :
    (x y w h color : ℕ) (g : State)
    → color < 16
    → x + w ≤ 2 ^ 8
    → y + h ≤ 2 ^ 8
    → IsBytes g.frame_buffer
    → Paints color (λ x' y'. within x w x' && within y h y') g (fill_rect x y w h color g)
unfolding fill_rect
fill_rect-Paints x y w h color g hc fits_x fits_y b =
    Paints-ext color _ _ g _ (λ x' y' hx hy. ground arith)
      (rows_from-Paints color hc h 0 x y w g fits_x (omega arith) b)

-- The four edges of a rectangle of a width and a height of at least one.
abbrev pub on_edge : ℕ → ℕ → ℕ → ℕ → ℕ → ℕ → Bool
on_edge x y w h x' y' =
    (within x w x' && (y' == y || y' == y + h - 1))
    || (within y h y' && (x' == x || x' == x + w - 1))

-- A rectangle, not empty and ending at coordinate 256 at most, is drawn as its four edges, and
-- nothing else changes.
pub draw_rect-Paints :
    (x y w h color : ℕ) (g : State)
    → color < 16
    → 0 < w
    → 0 < h
    → x + w ≤ 2 ^ 8
    → y + h ≤ 2 ^ 8
    → IsBytes g.frame_buffer
    → Paints color (on_edge x y w h) g (draw_rect x y w h color g)
unfolding draw_rect draw_fast_h_line draw_fast_v_line
draw_rect-Paints x y w h color g hc some_w some_h fits_x fits_y b =
    let y1 : u8 (y + h + 2 ^ 8 - 1) ≡ y + h - 1 = omega arith in
    let x1 : u8 (x + w + 2 ^ 8 - 1) ≡ x + w - 1 = omega arith in
    let g1 = h_line_from w 0 x y color g in
    let g2 = h_line_from w 0 x (y + h - 1) color g1 in
    let g3 = v_line_from h 0 x y color g2 in
    let top = h_line_from-Paints color hc w 0 x y g (omega arith) b in
    let bottom = h_line_from-Paints color hc w 0 x (y + h - 1) g1 (omega arith) top.bytes in
    let left = v_line_from-Paints color hc h 0 x y g2 (omega arith) bottom.bytes in
    let right = v_line_from-Paints color hc h 0 (x + w - 1) y g3 (omega arith) left.bytes in
    rw (y1, x1)
      (Paints-ext color _ _ g _ (λ x' y' hx hy. ground arith)
        (Paints-then color _ _ g g3 _
          (Paints-then color _ _ g g2 g3 (Paints-then color _ _ g g1 g2 top bottom) left) right))

-- What the loops of GFX_FillFastRect keep.
module _ (x color x' y' : ℕ) (hc : color < 16) (other : x' % 2 ≢ x % 2) where
  Kept : State → State → Type 0
  Kept g g' = IsBytes g'.frame_buffer × (pixel g' x' y' ≡ pixel g x' y')

  fast_row_from-Kept :
      (left i py : ℕ) (g : State)
      → IsBytes g.frame_buffer
      → Kept g (fast_row_from left i x py color g)
  unfolding fast_row_from Kept
  fast_row_from-Kept zero i py g b = (b, refl)
  fast_row_from-Kept (suc left) i py g b =
      let index = u16 ((py * width + (x + i)) / 2) in
      let g' = store (x % 2 == 0) index color g in
      let rest = fast_row_from-Kept left (i + 1) py g' (store-IsBytes _ index color g hc b) in
      let one = store_lem x index x' ((y' * width + x') / 2) color g hc b in
      (rest.0, rest.1 ∙ ground (arith, one))

  fast_rows_from-Kept :
      (left j y w : ℕ) (g : State)
      → IsBytes g.frame_buffer
      → Kept g (fast_rows_from left j x y w color g)
  unfolding fast_rows_from Kept
  fast_rows_from-Kept zero j y w g b = (b, refl)
  fast_rows_from-Kept (suc left) j y w g b =
      let row = fast_row_from-Kept w 0 (y + j) g b in
      let rest = fast_rows_from-Kept left (j + 1) y w (fast_row_from w 0 x (y + j) color g) row.0 in
      (rest.0, rest.1 ∙ row.1)

-- GFX_FillFastRect leaves every pixel alone whose column differs in parity from the rectangle's
-- first one, also inside the rectangle.
pub fill_fast_rect_skips :
    (x y w h color x' y' : ℕ) (g : State)
    → color < 16
    → x' % 2 ≢ x % 2
    → IsBytes g.frame_buffer
    → pixel (fill_fast_rect x y w h color g) x' y' ≡ pixel g x' y'
unfolding fill_fast_rect Kept
fill_fast_rect_skips x y w h color x' y' g hc other b =
    let w' = if ltb width (x + w) then width - x else w in
    let h' = if ltb height (y + h) then height - y else h in
    let kept = fast_rows_from-Kept x color x' y' hc other h' 0 y w' g b in
    elim (Bool-cases (leb width x || leb height y)) [
      | inl off ↦ rw off refl
      | inr on ↦ rw on kept.1
    ]
