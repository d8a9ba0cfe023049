-- ===== src/Graph.antt =====
-- The graphs on the display (hkGraphInit, hkGraphDrawAxes, hkGraphAddDataPoint and hkGraphDraw in
-- src/display/gfx/gfx.c, map in include/core/map.h). The numbers that hkGraphAddDataPoint casts from
-- floats to i32 are arguments, ten times the value and the two limits.
pub mod Points
pub mod Drawing
pub mod Labels
mod Tests
use hk_rtos.Base.{
  ℕ, zero, suc, ◌+◌, ◌-◌, ◌^◌, Bool, Option, none, some, ltb, leb, ◌==◌, if◌then◌else◌, u8,
}
use hk_rtos.Base.Int.{ℤ, pos, negsuc, ◌+ℤ◌, ◌-ℤ◌, ◌*ℤ◌, ◌/ℤ◌, to_signed, to_unsigned, ltb_ℤ}
use hk_rtos.Crc.{Buffer}
use hk_rtos.Gfx.{State, draw_rect}
use hk_rtos.Gfx.Line.{draw_line}

-- GraphConfig_t.
pub record GraphConfig : Type 0 where
  pub x : ℕ
  pub y : ℕ
  pub width : ℕ
  pub height : ℕ
  pub colour : ℕ
  pub border_colour : ℕ
  pub legend_colour : ℕ
  pub history : Buffer
  pub length : ℕ
  pub cursor_x : ℕ

-- C has no division by zero: `none`.
abbrev pub quotient : ℤ → ℤ → Option ℤ
quotient a (pos zero) = none
quotient a (pos (suc n)) = some (a /ℤ pos (suc n))
quotient a (negsuc n) = some (a /ℤ negsuc n)

abbrev pub plus : Option ℤ → ℤ → Option ℤ
plus none b = none
plus (some a) b = some (to_signed 31 (a +ℤ b))

-- `map`, in i32, which wrap around.
unfoldable pub map : ℤ → ℤ → ℤ → ℤ → ℤ → Option ℤ
map x in_min in_max out_min out_max =
    plus
      (quotient (to_signed 31 ((x -ℤ in_min) *ℤ (out_max -ℤ out_min)))
        (to_signed 31 (in_max -ℤ in_min)))
      out_min

pub init : GraphConfig → GraphConfig
init c = record c { history = λ i. if ltb i c.length then 0 else c.history i }

-- `config->x-1` and `config->y-1` as u8.
pub draw_axes : GraphConfig → State → State
draw_axes c g =
    draw_rect (u8 (c.x + 255)) (u8 (c.y + 255)) (u8 (c.width + 2)) (u8 (c.height + 2))
      c.border_colour g

-- The two bounds of a point, as it is computed and as it is stored.
pub bound_next : GraphConfig → ℤ → ℤ
bound_next c v =
    let v' = if ltb_ℤ v (pos c.y) then pos c.y else v in
    if ltb_ℤ (pos (c.y + c.height)) v' then pos (c.y + c.height) else v'

pub bound_stored : GraphConfig → ℕ → ℕ
bound_stored c v =
    let v' = if ltb v c.y then c.y else v in if ltb (c.y + c.height) v' then c.y + c.height else v'

-- The stored byte and the cursor after a point whose height in pixels is `v`.
pub add_next : ℤ → GraphConfig → GraphConfig
unfolding bound_next
add_next v c =
    let next_y = to_unsigned 8 (bound_next c v) in
    let cursor = u8 (c.cursor_x + 1) in
    record c {
      history = λ i. if i == c.cursor_x then next_y else c.history i;
      cursor_x = if leb c.width cursor then 0 else cursor;
    }

-- `none` where the height of the point is undefined.
add_mapped : Option ℤ → GraphConfig → Option GraphConfig
unfolding add_next
add_mapped none c = none
add_mapped (some v) c = some (add_next v c)

pub add_data_point : ℤ → ℤ → ℤ → GraphConfig → Option GraphConfig
unfolding add_mapped
add_data_point value min_val max_val c =
    add_mapped (map value min_val max_val (pos (c.y + c.height)) (pos c.y)) c

-- The loop of hkGraphDraw from `i` on, with `left` rounds left.
pub draw_from : ℕ → ℕ → GraphConfig → State → Option State
draw_from zero i c g = some g
draw_from (suc left) i c g =
    let prev_y = bound_stored c (c.history (i - 1)) in
    let next_y = bound_stored c (c.history i) in
    elim (draw_line (u8 (c.x + i - 1)) (u8 prev_y) (u8 (c.x + i)) (u8 next_y) c.colour g) [
      | none ↦ none
      | some g' ↦ draw_from left (i + 1) c g'
    ]

pub draw : GraphConfig → State → Option State
draw c g = draw_from (c.cursor_x - 1) 1 c g
