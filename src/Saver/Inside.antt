-- ===== src/Saver/Inside.antt =====
-- The square of the screen saver stays on the screen.
use hk_rtos.Base.{ℕ, zero, suc, ◌+◌, ◌^◌, ◌≤◌, ◌<◌, ◌≡◌, refl, arith, inl, inr, ◌⊎◌, u8}
use hk_rtos.Saver.{turn, frames}

-- A coordinate and its speed, between the edges and not away from the screen.
pub record Moves (size x speed : ℕ) : Type 0 where
  pub within : x + 10 ≤ size
  pub either : (speed ≡ 1) ⊎ (speed ≡ 255)
  pub low : x ≡ 0 → speed ≡ 1
  pub high : x + 10 ≡ size → speed ≡ 255

turn-Moves :
    (size x speed : ℕ)
    → 20 < size
    → size < 2 ^ 8
    → Moves size x speed
    → let x' = u8 (x + speed) in Moves size x' (turn size x' speed)
unfolding turn
turn-Moves size x speed big small m =
    let w = m.within in
    elim m.either [
      | inl up ↦
          (let not_high : x + 10 < size = grind (arith, m.high) in
            record {
              within = ground arith;
              either = ground arith;
              low = λ e. ground arith;
              high = λ e. ground arith;
            })
      | inr down ↦
          (let not_low : 0 < x = grind (arith, m.low) in
            record {
              within = ground arith;
              either = ground arith;
              low = λ e. ground arith;
              high = λ e. ground arith;
            })
    ]

begin-Moves : (size : ℕ) → 20 < size → Moves size 10 1
begin-Moves size big = record {
  within = omega arith;
  either = inl refl;
  low = λ e. refl;
  high = λ e. omega arith;
}

-- On a screen of more than 20 and less than 256 pixels in each direction, the square is on the screen
-- after each number of frames, and its speed is one pixel up or down, away from an edge that it
-- touches.
frames_stay :
    (width height n : ℕ)
    → 20 < width
    → width < 2 ^ 8
    → 20 < height
    → height < 2 ^ 8
    → let s = frames n width height in
      Moves width s.rect_x s.speed_x × Moves height s.rect_y s.speed_y
unfolding frames
frames_stay width height zero wide narrow tall low =
    (begin-Moves width wide, begin-Moves height tall)
frames_stay width height (suc n) wide narrow tall low =
    let m = frames_stay width height n wide narrow tall low in
    (turn-Moves width _ _ wide narrow m.0, turn-Moves height _ _ tall low m.1)
