-- ===== src/Gfx.antt =====
-- Drawing into the frame buffer of the SSD1327 display (src/display/ssd1327/ssd1327_gfx.c): two
-- pixels of four bits in a byte. A function named here is the one with the prefix GFX_ there; an
-- argument of type u8 is cast where the caller's value does not fit it.
pub mod Font
pub mod Pixels
pub mod Rects
pub mod Inside
pub mod Line
mod Tests
use hk_rtos.Base.{
  ℕ, zero, suc, ◌+◌, ◌*◌, ◌-◌, ◌/◌, ◌%◌, ◌^◌, Bool, true, false, not, Option, none, some,
}
use hk_rtos.Base.{
  List, [], ◌∷◌, ◌==◌, ◌||◌, ltb, leb, if◌then◌else◌, bit_and, bit_or, u8, u16, get_or,
}
use hk_rtos.Crc.{Buffer}
use hk_rtos.Gfx.Font.{font_5x7}

-- SSD1327_WIDTH and SSD1327_HEIGHT.
abbrev pub width : ℕ
width = 128

abbrev pub height : ℕ
height = 128

-- GFX_InternalState_t.
pub record State : Type 0 where
  pub frame_buffer : Buffer
  pub cursor_x : ℕ
  pub cursor_y : ℕ
  pub text_size : ℕ

pub clear_buffer : State → State
clear_buffer g = record {
  frame_buffer = λ i. if ltb i (width * height / 2) then 0 else g.frame_buffer i;
  cursor_x = 0;
  cursor_y = 0;
  text_size = 1;
}

-- The byte with a pixel of an even column, or of an odd one, set.
pub set_nibble : Bool → ℕ → ℕ → ℕ
set_nibble true color b = u8 (bit_or (bit_and b 0x0F) (color * 2 ^ 4))
set_nibble false color b = u8 (bit_or (bit_and b 0xF0) color)

-- The frame buffer with the byte at an index changed so.
pub store : Bool → ℕ → ℕ → State → State
unfolding set_nibble
store even index color g = record g {
  frame_buffer =
      λ i. if i == index then set_nibble even color (g.frame_buffer i) else g.frame_buffer i;
}

pub draw_pixel : ℕ → ℕ → ℕ → State → State
unfolding store
draw_pixel x y color g =
    if leb width x || leb height y
    then g
    else store (x % 2 == 0) (u16 ((y * width + x) / 2)) color g

-- The loops of the two fast lines from `i` on, with `left` rounds left.
pub h_line_from : ℕ → ℕ → ℕ → ℕ → ℕ → State → State
unfolding draw_pixel
h_line_from zero i x y color g = g
h_line_from (suc left) i x y color g =
    h_line_from left (i + 1) x y color (draw_pixel (u8 (x + i)) y color g)

pub draw_fast_h_line : ℕ → ℕ → ℕ → ℕ → State → State
unfolding h_line_from
draw_fast_h_line x y w color g = h_line_from w 0 x y color g

pub v_line_from : ℕ → ℕ → ℕ → ℕ → ℕ → State → State
unfolding draw_pixel
v_line_from zero i x y color g = g
v_line_from (suc left) i x y color g =
    v_line_from left (i + 1) x y color (draw_pixel x (u8 (y + i)) color g)

pub draw_fast_v_line : ℕ → ℕ → ℕ → ℕ → State → State
unfolding v_line_from
draw_fast_v_line x y h color g = v_line_from h 0 x y color g

-- `y + h - 1` as a u8.
pub draw_rect : ℕ → ℕ → ℕ → ℕ → ℕ → State → State
unfolding draw_fast_h_line draw_fast_v_line
draw_rect x y w h color g =
    let top = draw_fast_h_line x y w color g in
    let bottom = draw_fast_h_line x (u8 (y + h + 2 ^ 8 - 1)) w color top in
    let left = draw_fast_v_line x y h color bottom in
    draw_fast_v_line (u8 (x + w + 2 ^ 8 - 1)) y h color left

pub rows_from : ℕ → ℕ → ℕ → ℕ → ℕ → ℕ → State → State
unfolding draw_fast_h_line
rows_from zero i x y w color g = g
rows_from (suc left) i x y w color g =
    rows_from left (i + 1) x y w color (draw_fast_h_line x (u8 (y + i)) w color g)

pub fill_rect : ℕ → ℕ → ℕ → ℕ → ℕ → State → State
unfolding rows_from
fill_rect x y w h color g = rows_from h 0 x y w color g

-- The inner and the outer loop of GFX_FillFastRect. The parity is that of `x`, not of `px`.
pub fast_row_from : ℕ → ℕ → ℕ → ℕ → ℕ → State → State
unfolding store
fast_row_from zero i x py color g = g
fast_row_from (suc left) i x py color g =
    let px = x + i in
    fast_row_from left (i + 1) x py color (store (x % 2 == 0) (u16 ((py * width + px) / 2)) color g)

pub fast_rows_from : ℕ → ℕ → ℕ → ℕ → ℕ → ℕ → State → State
unfolding fast_row_from
fast_rows_from zero j x y w color g = g
fast_rows_from (suc left) j x y w color g =
    fast_rows_from left (j + 1) x y w color (fast_row_from w 0 x (y + j) color g)

-- The tests for coordinates below zero never hold of a u8.
pub fill_fast_rect : ℕ → ℕ → ℕ → ℕ → ℕ → State → State
unfolding fast_rows_from
fill_fast_rect x y w h color g =
    if leb width x || leb height y
    then g
    else (let w' = if ltb width (x + w) then width - x else w in
        let h' = if ltb height (y + h) then height - y else h in fast_rows_from h' 0 x y w' color g)

-- One dot of a character.
draw_dot : ℕ → ℕ → ℕ → ℕ → ℕ → ℕ → State → State
unfolding draw_pixel fill_rect
draw_dot x y color size col row g =
    if size == 1
    then draw_pixel (u8 (x + col)) (u8 (y + row)) color g
    else fill_rect (u8 (x + col * size)) (u8 (y + row * size)) size size color g

-- The two loops of GFX_DrawChar, by the rounds done and left.
pub dots_from : ℕ → ℕ → ℕ → ℕ → ℕ → ℕ → ℕ → ℕ → State → State
unfolding draw_dot
dots_from zero row line x y color size col g = g
dots_from (suc left) row line x y color size col g =
    dots_from left (row + 1) line x y color size col
      (if bit_and (line / 2 ^ row) 0x1 == 0 then g else draw_dot x y color size col row g)

pub columns_from : ℕ → ℕ → ℕ → ℕ → ℕ → ℕ → ℕ → State → State
unfolding dots_from
columns_from zero col c x y color size g = g
columns_from (suc left) col c x y color size g =
    columns_from left (col + 1) c x y color size
      (dots_from 7 0 (get_or font_5x7 ((c - 32) * 5 + col) 0) x y color size col g)

pub draw_char : ℕ → ℕ → ℕ → ℕ → ℕ → State → State
unfolding columns_from
draw_char x y c color size g =
    let g' = record g { text_size = if ltb 1 size then size else 1 } in
    if ltb c 32 || ltb 126 c then g' else columns_from 5 0 c x y color size g'

-- The loop of GFX_DrawString over the characters before the zero.
pub chars_from : List ℕ → ℕ → ℕ → State → State
unfolding draw_char
chars_from [] color size g = g
chars_from (c ∷ cs) color size g =
    let g' = draw_char g.cursor_x g.cursor_y c color size g in
    chars_from cs color size (record g' { cursor_x = u8 (g'.cursor_x + 5 * size + 1) })

pub draw_string : ℕ → ℕ → List ℕ → ℕ → ℕ → State → State
unfolding chars_from
draw_string x y str color size g =
    chars_from str color size (record g { cursor_x = x; cursor_y = y; text_size = size })
