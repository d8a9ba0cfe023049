-- ===== src/Saver/Rain/Drops.antt =====
-- Where the droplets can be, and what a frame writes.
use hk_rtos.Base.{
  ℕ, zero, suc, ◌+◌, ◌^◌, ◌<◌, ◌≤◌, ◌≡◌, refl, arith, ◌∙◌, ◌==◌, ltb, inl, inr, Bool-cases, false,
}
use hk_rtos.F32.{F32}
use hk_rtos.Gfx.{State, clear_buffer}
use hk_rtos.Gfx.Inside.{SameBehind, clear_buffer-SameBehind, fill_fast_rect-SameBehind}
use hk_rtos.Saver.Rain.{
  count, Droplet, Rain, put, first_droplet, init_from, init, again, moved, drop_one, rain_from,
  frame, frames,
}

module _ (fl : F32) where
  -- The ranges of a droplet.
  pub record IsDroplet (d : Droplet fl) : Type 0 where
    pub x_most : d.x ≤ 126
    pub y_byte : d.y < 2 ^ 8
    pub width_most : d.width ≤ 2
    pub height_least : 7 ≤ d.height
    pub height_most : d.height ≤ 10
    pub colour_least : 3 ≤ d.colour
    pub colour_most : d.colour ≤ 17

  -- The first `n` droplets are in their ranges.
  abbrev pub AreDroplets : ℕ → Rain fl → Type 0
  AreDroplets n r = (i : ℕ) → i < n → IsDroplet (r.droplets i)

  put-AreDroplets :
      (n i : ℕ) (d : Droplet fl) (calls : ℕ) (r : Rain fl)
      → IsDroplet d
      → ((j : ℕ) → j < n → (j == i) ≡ false → IsDroplet (r.droplets j))
      → AreDroplets n (put fl i d calls r)
  put-AreDroplets n i d calls r h others j lt = elim (Bool-cases (j == i)) [
    | inl here ↦ rw here h
    | inr other ↦ rw other (others j lt other)
  ]

  module _ (rand : ℕ → ℕ) where
    first_droplet-IsDroplet : (k : ℕ) → IsDroplet (first_droplet fl rand k)
    first_droplet-IsDroplet k = record {
      x_most = omega arith;
      y_byte = omega arith;
      width_most = omega arith;
      height_least = omega arith;
      height_most = omega arith;
      colour_least = omega arith;
      colour_most = omega arith;
    }

    init_from-AreDroplets :
        (left i : ℕ) (r : Rain fl)
        → AreDroplets i r
        → AreDroplets (i + left) (init_from fl rand left i r)
    unfolding init_from
    init_from-AreDroplets zero i r h = let e : i + 0 ≡ i = omega arith in rw e h
    init_from-AreDroplets (suc left) i r h =
        let e : i + suc left ≡ i + 1 + left = omega arith in
        rw e (
          init_from-AreDroplets left (i + 1) _ (
            put-AreDroplets (i + 1) i (first_droplet fl rand r.calls) (r.calls + 6) r
              (first_droplet-IsDroplet r.calls) (λ j lt ne. h j (ground arith))))

    module _ (fall : ℕ → fl.F → ℕ) (faster : fl.F → fl.F) where
      moved-IsDroplet : (d : Droplet fl) → IsDroplet d → IsDroplet (moved fl rand fall faster d)
      moved-IsDroplet d h = record {
        x_most = h.x_most;
        y_byte = omega arith;
        width_most = h.width_most;
        height_least = h.height_least;
        height_most = h.height_most;
        colour_least = h.colour_least;
        colour_most = h.colour_most;
      }

      again-IsDroplet : (k : ℕ) (d : Droplet fl) → IsDroplet d → IsDroplet (again fl rand k d)
      again-IsDroplet k d h = record {
        x_most = omega arith;
        y_byte = omega arith;
        width_most = omega arith;
        height_least = h.height_least;
        height_most = h.height_most;
        colour_least = h.colour_least;
        colour_most = h.colour_most;
      }

      -- The droplets stay in their ranges, and nothing behind the frame buffer is written.
      abbrev pub Stays : Rain fl × State → State → Type 0
      Stays s g = AreDroplets count s.0 × SameBehind g s.1

      drop_one-Stays :
          (i : ℕ) (r : Rain fl) (g : State)
          → i < count
          → AreDroplets count r
          → Stays (drop_one fl rand fall faster i r g) g
      unfolding drop_one
      drop_one-Stays i r g lt h =
          let d = moved fl rand fall faster (r.droplets i) in
          let ok = moved-IsDroplet (r.droplets i) (h i lt) in
          let same = fill_fast_rect-SameBehind d.x d.y d.width d.height d.colour g in
          elim (Bool-cases (ltb 127 d.y)) [
            | inl gone ↦ rw gone (
              put-AreDroplets count i (again fl rand r.calls d) (r.calls + 4) r
                  (again-IsDroplet r.calls d ok) (λ j lt' ne. h j lt'),
              same,
            )
            | inr seen ↦
                rw seen (put-AreDroplets count i d r.calls r ok (λ j lt' ne. h j lt'), same)
          ]

      rain_from-Stays :
          (left i : ℕ) (r : Rain fl) (g : State)
          → i + left ≤ count
          → AreDroplets count r
          → Stays (rain_from fl rand fall faster left i r g) g
      unfolding rain_from
      rain_from-Stays zero i r g le h = (h, λ k le'. refl)
      rain_from-Stays (suc left) i r g le h =
          let one = drop_one-Stays i r g (omega arith) h in
          let s = drop_one fl rand fall faster i r g in
          let rest = rain_from-Stays left (i + 1) s.0 s.1 (omega arith) one.0 in
          (rest.0, λ k le'. rest.1 k le' ∙ one.1 k le')

      -- After each number of frames, whatever the random numbers and the floats are, every droplet is in
      -- the first 127 columns, is at most 2 wide and 7 to 10 high and has a colour from 3 to 17, and nothing
      -- behind the frame buffer has been written.
      pub frames_stay_inside :
          (n : ℕ) (r : Rain fl) (g : State) → Stays (frames fl rand fall faster n r g) g
      unfolding frames init frame
      frames_stay_inside zero r g =
          (init_from-AreDroplets count 0 r (λ i lt. absurd (omega arith)), λ k le. refl)
      frames_stay_inside (suc n) r g =
          let before = frames_stay_inside n r g in
          let s = frames fl rand fall faster n r g in
          let now = rain_from-Stays count 0 s.0 (clear_buffer s.1) (omega arith) before.0 in
          (now.0, λ k le. now.1 k le ∙ (clear_buffer-SameBehind s.1 k le ∙ before.1 k le))
