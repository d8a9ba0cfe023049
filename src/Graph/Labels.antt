-- ===== src/Graph/Labels.antt =====
-- The texts of a graph (hkGraphDrawLegend, hkGraphDrawValue and hkGraphDrawValueFollow in
-- src/display/gfx/gfx.c). What snprintf prints is an argument, with the number that it returns.
pub mod Places
use hk_rtos.Base.{ℕ, ◌+◌, ◌-◌, ◌*◌, ◌/◌, ◌%◌, ◌^◌, List, ltb, ◌==◌, if◌then◌else◌, length, u8, u16}
use hk_rtos.Gfx.{State, draw_string}
use hk_rtos.Graph.{GraphConfig}

-- The texts of the title and of the two limits.
pub draw_legend : List ℕ → List ℕ → List ℕ → GraphConfig → State → State
draw_legend title max_label min_label c g =
    let title_x = u8 (c.x + c.width / 2 + (2 ^ 32 - length title * 6 / 2 % 2 ^ 32)) in
    let g1 = draw_string title_x (u8 (c.y + 246)) title c.border_colour 1 g in
    let g2 = draw_string 6 (u8 (c.y + 1)) max_label c.legend_colour 1 g1 in
    draw_string 6 (u8 (c.y + c.height + 248)) min_label c.legend_colour 1 g2

pub draw_value : ℕ → List ℕ → GraphConfig → State → State
draw_value printed label c g =
    let label_x = u8 (c.x + c.width + (2 ^ 11 - u8 printed * 6)) in
    draw_string label_x (u8 (c.y + 1)) label c.legend_colour 1 g

-- `idx` of hkGraphDrawValueFollow.
unfoldable pub newest : GraphConfig → ℕ
newest c = if c.cursor_x == 0 then u16 (c.width + 65535) else c.cursor_x - 1

-- `drawY`.
unfoldable pub follow_y : GraphConfig → ℕ
unfolding newest
follow_y c =
    let curr_y = c.history (newest c) in
    if ltb curr_y (u8 (c.y + c.height / 2))
    then (let y = u8 (curr_y + 4) in if ltb y (u8 c.y) then u8 c.y else y)
    else (let y = u8 (curr_y + 245) in
        if ltb (u8 (c.y + c.height)) (y + 7) then u8 (u8 (c.y + c.height) + 249) else y)

abbrev pub text_width : ℕ → ℕ
text_width printed = u8 (u8 printed * 5 + u8 printed)

-- `currX`.
unfoldable pub follow_x : ℕ → GraphConfig → ℕ
unfolding newest
follow_x printed c =
    let w = text_width printed in
    let x = u16 (c.x + newest c + (2 ^ 16 - w / 2)) in
    let x' = if ltb x c.x then c.x else x in
    if ltb (c.x + c.width) (x' + w) then u16 (c.x + c.width + (2 ^ 16 - w)) else x'

pub draw_value_follow : ℕ → List ℕ → GraphConfig → State → State
unfolding follow_x follow_y
draw_value_follow printed label c g =
    draw_string (u8 (follow_x printed c)) (follow_y c) label c.legend_colour 1 g
