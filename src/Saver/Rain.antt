-- ===== src/Saver/Rain.antt =====
-- The rain of the screen saver (hkScreenSaverInit and case 0 of hkScreenSaver in
-- src/display/gfx/gfx.c). The results of get_rand_32 are an argument, by the number of the call; so are
-- the two steps that C makes in floating point, `fall` for `y += speedY` and `faster` for
-- `speedY += 0.18`.
pub mod Drops
mod Tests
use hk_rtos.Base.{ℕ, zero, suc, ◌+◌, ◌-◌, ◌%◌, ◌^◌, true, false, ◌==◌, ltb, if◌then◌else◌, u8}
use hk_rtos.Base.Int.{pos}
use hk_rtos.F32.{F32}
use hk_rtos.Gfx.{State, clear_buffer, fill_fast_rect}

abbrev pub count : ℕ
count = 48

module _ (fl : F32) where
  -- Raindrop_t.
  pub record Droplet : Type 0 where
    pub x : ℕ
    pub y : ℕ
    pub speed_y : fl.F
    pub width : ℕ
    pub height : ℕ
    pub colour : ℕ

  -- The array, and how many random numbers have been taken.
  pub record Rain : Type 0 where
    pub droplets : ℕ → Droplet
    pub calls : ℕ

  abbrev pub put : ℕ → Droplet → ℕ → Rain → Rain
  put i d calls r = record { droplets = λ j. if j == i then d else r.droplets j; calls = calls }

module _ (fl : F32) (rand : ℕ → ℕ) where
  -- `get_rand_32() % 10 - 10` in a u8.
  abbrev pub above : ℕ → ℕ
  above k = u8 (rand k % 10 + 2 ^ 32 - 10)

  -- A droplet of hkScreenSaverInit.
  abbrev pub first_droplet : ℕ → Droplet fl
  first_droplet k = record {
    x = rand k % 127;
    y = above (k + 1);
    speed_y = fl.of_int (pos (rand (k + 2) % 15 + 6));
    width = rand (k + 3) % 3;
    height = rand (k + 4) % 4 + 7;
    colour = rand (k + 5) % 15 + 3;
  }

  pub init_from : ℕ → ℕ → Rain fl → Rain fl
  init_from zero i r = r
  init_from (suc left) i r =
      init_from left (i + 1) (put fl i (first_droplet r.calls) (r.calls + 6) r)

  pub init : Rain fl → Rain fl
  unfolding init_from
  init r = init_from count 0 r

  -- A droplet that has left the screen.
  abbrev pub again : ℕ → Droplet fl → Droplet fl
  again k d = record d {
    x = rand k % 120 + 7;
    y = above (k + 1);
    width = rand (k + 2) % 3;
    speed_y = fl.of_int (pos (rand (k + 3) % 15 + 6));
  }

  module _ (fall : ℕ → fl.F → ℕ) (faster : fl.F → fl.F) where
    abbrev pub moved : Droplet fl → Droplet fl
    moved d = record d { y = u8 (fall d.y d.speed_y); speed_y = faster d.speed_y }

    -- A droplet of the frame.
    pub drop_one : ℕ → Rain fl → State → Rain fl × State
    drop_one i r g =
        let d = moved (r.droplets i) in
        let g' = fill_fast_rect d.x d.y d.width d.height d.colour g in
        if ltb 127 d.y
        then (put fl i (again r.calls d) (r.calls + 4) r, g')
        else (put fl i d r.calls r, g')

    pub rain_from : ℕ → ℕ → Rain fl → State → Rain fl × State
    unfolding drop_one
    rain_from zero i r g = (r, g)
    rain_from (suc left) i r g = let s = drop_one i r g in rain_from left (i + 1) s.0 s.1

    -- A frame before it is sent to the display.
    pub frame : Rain fl → State → Rain fl × State
    unfolding rain_from
    frame r g = rain_from count 0 r (clear_buffer g)

    -- The rain and the frame buffer after some frames.
    pub frames : ℕ → Rain fl → State → Rain fl × State
    unfolding init frame
    frames zero r g = (init r, g)
    frames (suc n) r g = let s = frames n r g in frame s.0 s.1
