-- ===== src/Gfx/Inside.antt =====
-- GFX_FillFastRect and GFX_ClearBuffer write nowhere but into the frame buffer.
use hk_rtos.Base.{
  ℕ, zero, suc, ◌+◌, ◌-◌, ◌*◌, ◌/◌, ◌%◌, ◌<◌, ◌≤◌, ◌≡◌, refl, arith, ◌∙◌, Bool, false, ◌==◌, ◌||◌,
  leb, ltb, if◌then◌else◌, u16, inl, inr, Bool-cases,
}
use hk_rtos.Gfx.{
  State, width, height, clear_buffer, store, fast_row_from, fast_rows_from, fill_fast_rect,
}

-- What is behind the frame buffer is the same in both.
abbrev pub SameBehind : State → State → Type 0
SameBehind g g' = (i : ℕ) → width * height / 2 ≤ i → g'.frame_buffer i ≡ g.frame_buffer i

store-SameBehind :
    (even : Bool) (index color : ℕ) (g : State)
    → index < width * height / 2
    → SameBehind g (store even index color g)
unfolding store
store-SameBehind even index color g lt i le =
    let other : (i == index) ≡ false = ground arith in rw other refl

fast_row_from-SameBehind :
    (left i x py color : ℕ) (g : State)
    → py < height
    → x + i + left ≤ width
    → SameBehind g (fast_row_from left i x py color g)
unfolding fast_row_from
fast_row_from-SameBehind zero i x py color g row fits k le = refl
fast_row_from-SameBehind (suc left) i x py color g row fits k le =
    let index = u16 ((py * width + (x + i)) / 2) in
    let g' = store (x % 2 == 0) index color g in
    let one = store-SameBehind (x % 2 == 0) index color g (omega arith) k le in
    fast_row_from-SameBehind left (i + 1) x py color g' row (omega arith) k le ∙ one

fast_rows_from-SameBehind :
    (left j x y w color : ℕ) (g : State)
    → y + j + left ≤ height
    → x + w ≤ width
    → SameBehind g (fast_rows_from left j x y w color g)
unfolding fast_rows_from
fast_rows_from-SameBehind zero j x y w color g rows fits k le = refl
fast_rows_from-SameBehind (suc left) j x y w color g rows fits k le =
    let g' = fast_row_from w 0 x (y + j) color g in
    let row = fast_row_from-SameBehind w 0 x (y + j) color g (omega arith) (omega arith) k le in
    fast_rows_from-SameBehind left (j + 1) x y w color g' (omega arith) fits k le ∙ row

pub fill_fast_rect-SameBehind :
    (x y w h color : ℕ) (g : State) → SameBehind g (fill_fast_rect x y w h color g)
unfolding fill_fast_rect
fill_fast_rect-SameBehind x y w h color g = elim (Bool-cases (leb width x || leb height y)) [
  | inl off ↦ rw off (λ i le. refl)
  | inr on ↦ rw on (
      let w' = if ltb width (x + w) then width - x else w in
      let h' = if ltb height (y + h) then height - y else h in
      fast_rows_from-SameBehind h' 0 x y w' color g (ground arith) (ground arith))
]

pub clear_buffer-SameBehind : (g : State) → SameBehind g (clear_buffer g)
unfolding clear_buffer
clear_buffer-SameBehind g i le =
    let behind : ltb i (width * height / 2) ≡ false = ground arith in rw behind refl
