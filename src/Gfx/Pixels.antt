-- ===== src/Gfx/Pixels.antt =====
-- The frame buffer as an array of pixels, and what one pixel that is drawn changes.
use hk_rtos.Base.{ℕ, ◌+◌, ◌*◌, ◌/◌, ◌%◌, ◌^◌, ◌≤◌, ◌<◌, ◌≡◌, refl, arith, ◌⊎◌, inl, inr}
use hk_rtos.Base.{Bool, true, false, not, ◌==◌, ◌||◌, ◌&&◌, leb, if◌then◌else◌, u16}
use hk_rtos.Base.Bits.{every_below, every_below_sound}
use hk_rtos.Crc.{IsBytes}
use hk_rtos.Gfx.{State, width, height, set_nibble, store, draw_pixel}

-- The colour of a pixel: the high four bits of its byte in an even column, the low ones in an odd one.
abbrev pub nibble : Bool → ℕ → ℕ
nibble true b = b / 2 ^ 4
nibble false b = b % 2 ^ 4

abbrev pub pixel : State → ℕ → ℕ → ℕ
pixel g x y = nibble (x % 2 == 0) (g.frame_buffer ((y * width + x) / 2))

nibble_table :
    every_below 16 (λ hi. every_below 16 (λ lo. every_below 16 (λ c.
      (set_nibble true c (hi * 16 + lo) == c * 16 + lo)
      && (set_nibble false c (hi * 16 + lo) == hi * 16 + c))))
    ≡ true
unfolding every_below set_nibble
nibble_table = refl

set_nibble_lem :
    (color b : ℕ)
    → color < 16
    → b < 2 ^ 8
    → (set_nibble true color b ≡ color * 16 + b % 16)
      × (set_nibble false color b ≡ b / 16 * 16 + color)
set_nibble_lem color b hc hb =
    let hi : b / 16 < 16 = omega arith in
    let lo : b % 16 < 16 = omega arith in
    let row = every_below_sound _ 16 (b / 16) hi nibble_table in
    let cell = every_below_sound _ 16 color hc (every_below_sound _ 16 (b % 16) lo row) in
    let whole : b / 16 * 16 + b % 16 ≡ b = omega arith in
    let cell' = rw whole at cell in (ground (arith, cell'), ground (arith, cell'))

-- A byte stored for a pixel changes the pixel and keeps the other one of the byte.
nibble-set_nibble :
    (even : Bool) (color b : ℕ)
    → color < 16
    → b < 2 ^ 8
    → (nibble even (set_nibble even color b) ≡ color)
      × (nibble (not even) (set_nibble even color b) ≡ nibble (not even) b)
      × (set_nibble even color b < 2 ^ 8)
nibble-set_nibble true color b hc hb =
    let e = (set_nibble_lem color b hc hb).0 in
    (omega (arith, e), omega (arith, e), omega (arith, e))
nibble-set_nibble false color b hc hb =
    let e = (set_nibble_lem color b hc hb).1 in
    (omega (arith, e), omega (arith, e), omega (arith, e))

-- On the screen, the byte of a pixel has the index that the code computes, and no other pixel than
-- its neighbour has the same.
index_lem :
    (x y x' y' : ℕ)
    → x < width
    → y < height
    → x' < width
    → y' < height
    → (y * width + x) / 2 ≡ (y' * width + x') / 2
    → (y ≡ y') × (x / 2 ≡ x' / 2)
index_lem x y x' y' hx hy hx' hy' e = (omega arith, omega arith)

-- What an operation of one colour paints: a set of pixels, given as a test.
pub record Paints (color : ℕ) (inside : ℕ → ℕ → Bool) (g g' : State) : Type 0 where
  pub bytes : IsBytes g'.frame_buffer
  pub inside_only :
      (x y : ℕ)
      → x < width
      → y < height
      → pixel g' x y ≡ (if inside x y then color else pixel g x y)
  pub elsewhere : (i : ℕ) → width * height / 2 ≤ i → g'.frame_buffer i ≡ g.frame_buffer i

pub store-IsBytes :
    (even : Bool) (index color : ℕ) (g : State)
    → color < 16
    → IsBytes g.frame_buffer
    → IsBytes (store even index color g).frame_buffer
unfolding store
store-IsBytes even index color g hc b i =
    let bi = b i in ground (arith, nibble-set_nibble even color (g.frame_buffer i) hc bi)

-- The pixel at column `x'` of the byte `i'` after a store for column `x` in the byte `i`.
pub store_lem :
    (x i x' i' color : ℕ) (g : State)
    → color < 16
    → IsBytes g.frame_buffer
    → nibble (x' % 2 == 0) ((store (x % 2 == 0) i color g).frame_buffer i')
      ≡ (if i' == i && x' % 2 == x % 2 then color else nibble (x' % 2 == 0) (g.frame_buffer i'))
unfolding store
store_lem x i x' i' color g hc b =
    let here = b i in
    ground (
      arith,
      nibble-set_nibble true color (g.frame_buffer i) hc here,
      nibble-set_nibble false color (g.frame_buffer i) hc here,
    )

draw_pixel_at :
    (x y color : ℕ) (g : State) (x' y' : ℕ)
    → color < 16
    → IsBytes g.frame_buffer
    → x < width
    → y < height
    → x' < width
    → y' < height
    → pixel (draw_pixel x y color g) x' y' ≡ (if x' == x && y' == y then color else pixel g x' y')
unfolding draw_pixel
draw_pixel_at x y color g x' y' hc b hx hy hx' hy' =
    let i = (y * width + x) / 2 in
    let i' = (y' * width + x') / 2 in
    let exact : u16 i ≡ i = omega arith in
    let on : leb width x || leb height y ≡ false = ground arith in
    let same : (i' == i && x' % 2 == x % 2) ≡ (x' == x && y' == y) =
      ground (arith, index_lem x' y' x y hx' hy' hx hy) in
    rw (on, exact, ← same) (store_lem x i x' i' color g hc b)

on_screen :
    (x y color : ℕ) (g : State)
    → x < width
    → y < height
    → draw_pixel x y color g ≡ store (x % 2 == 0) ((y * width + x) / 2) color g
unfolding draw_pixel
on_screen x y color g hx hy =
    let exact : u16 ((y * width + x) / 2) ≡ (y * width + x) / 2 = omega arith in
    let on : leb width x || leb height y ≡ false = ground arith in rw (on, exact) refl

off_screen : (x y color : ℕ) (g : State) → (width ≤ x) ⊎ (height ≤ y) → draw_pixel x y color g ≡ g
unfolding draw_pixel
off_screen x y color g off = ground arith

store_elsewhere :
    (even : Bool) (index color i : ℕ) (g : State)
    → index < i
    → (store even index color g).frame_buffer i ≡ g.frame_buffer i
unfolding store
store_elsewhere even index color i g h = ground arith

-- A pixel drawn in one of the sixteen colours is the only one that changes, and one off the screen
-- changes nothing; no byte behind the frame buffer is written to.
pub draw_pixel-Paints :
    (x y color : ℕ) (g : State)
    → color < 16
    → IsBytes g.frame_buffer
    → Paints color (λ x' y'. x' == x && y' == y) g (draw_pixel x y color g)
draw_pixel-Paints x y color g hc b = elim (where_is x y) [
  | inl (hx, hy) ↦ record {
    bytes = rw (on_screen x y color g hx hy) (store-IsBytes _ _ color g hc b);
    inside_only = λ x' y' hx' hy'. draw_pixel_at x y color g x' y' hc b hx hy hx' hy';
    elsewhere =
        λ i h. rw (on_screen x y color g hx hy) (store_elsewhere _ _ color i g (omega arith));
  }
  | inr off ↦ record {
    bytes = rw (off_screen x y color g off) b;
    inside_only = λ x' y' hx' hy'. rw (off_screen x y color g off) (ground arith);
    elsewhere = λ i h. rw (off_screen x y color g off) refl;
  }
]
  where
    where_is : (x y : ℕ) → ((x < width) × (y < height)) ⊎ ((width ≤ x) ⊎ (height ≤ y))
    where_is x y = omega arith
