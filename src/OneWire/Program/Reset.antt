-- ===== src/OneWire/Program/Reset.antt =====
-- The reset of the line, and the answer of the devices.
use hk_rtos.Base.{
  ℕ, suc, ◌+◌, ◌*◌, ◌^◌, ◌<◌, ◌≡◌, refl, arith, Bool, true, false, not, List, [], ◌∷◌, u32, bit_and,
  ◌==◌, if◌then◌else◌,
}
use hk_rtos.Base.Bits.{bit_and_mask}
use hk_rtos.Pio.{State, step, exec, bit, pred}
use hk_rtos.Pio.Leads.{Leads, goes, goes_to, counts}
use hk_rtos.OneWire.{Line, OneWire, resets, reset}
use hk_rtos.OneWire.Program.{program, config, bus}
use hk_rtos.OneWire.Program.Slots.{LetsGo, Pulls, Phase, ended}

-- The test of OneWire_Reset, of the lowest bit.
lowest : (b : Bool) (o : ℕ) → (if bit_and (u32 (o * 2 + bit b)) 1 == 0 then true else false) ≡ not b
lowest true o = let m = bit_and_mask 1 (u32 (o * 2 + 1)) in ground (arith, m)
lowest false o = let m = bit_and_mask 1 (u32 (o * 2 + 0)) in ground (arith, m)

-- The word of the reset at a time: the levels of the pins.
abbrev pub seen : (ℕ → ℕ) → (ℕ → Bool) → ℕ → ℕ
seen others line t = others t * 2 + bit (line t)

module _ (others : ℕ → ℕ) (line : ℕ → Bool) (y osr k : ℕ) (rx : List ℕ) where
  -- With nothing to send.
  abbrev quiet : (pc x isr isr_count : ℕ) (rx : List ℕ) (output : Bool) (time : ℕ) → State
  quiet pc x isr isr_count rx output time = bus y pc x osr k isr isr_count [] rx output time

  low_loop :
      (n isr c t : ℕ)
      → n < 2 ^ 32
      → Leads
          (config others)
          program
          line
          Pulls
          (quiet 1 n isr c rx true t)
          (quiet 2 ended isr c rx true (t + suc n * 16))
  unfolding step exec
  low_loop n isr c t =
      counts 16 (λ (m u : ℕ). quiet 1 m isr c rx true u) (λ (u : ℕ). quiet 2 ended isr c rx true u)
        (λ u. refl)
        (λ m u lt. (let d : pred (config others) (suc m) ≡ m = omega arith in rw d refl))
        (λ m u. refl) (λ u. refl) n t

  release_loop :
      (n isr c t : ℕ)
      → n < 2 ^ 32
      → Leads
          (config others)
          program
          line
          LetsGo
          (quiet 3 n isr c rx false t)
          (quiet 4 ended isr c rx false (t + suc n * 7))
  unfolding step exec
  release_loop n isr c t =
      counts 7 (λ (m u : ℕ). quiet 3 m isr c rx false u) (λ (u : ℕ). quiet 4 ended isr c rx false u)
        (λ u. refl)
        (λ m u lt. (let d : pred (config others) (suc m) ≡ m = omega arith in rw d refl))
        (λ m u. refl) (λ u. refl) n t

  recovery_loop :
      (n w t : ℕ)
      → n < 2 ^ 32
      → Leads
          (config others)
          program
          line
          LetsGo
          (quiet 7 n 0 0 (w ∷ rx) false t)
          (quiet 8 ended 0 0 (w ∷ rx) false (t + suc n * 16))
  unfolding step exec
  recovery_loop n w t =
      counts 16 (λ (m u : ℕ). quiet 7 m 0 0 (w ∷ rx) false u)
        (λ (u : ℕ). quiet 8 ended 0 0 (w ∷ rx) false u) (λ u. refl)
        (λ m u lt. (let d : pred (config others) (suc m) ≡ m = omega arith in rw d refl))
        (λ m u. refl) (λ u. refl) n t

  -- From its beginning, which the instruction of the reset jumps to, and with nothing to send, the program
  -- pulls the line low for 480 us, lets it go, looks at it 70 us later and waits for 410 us, after which
  -- it is where it takes bits to send. If OneWire_Reset gets the word that it has then put into its queue, it
  -- finds devices exactly if one of them pulled the line low at that time.
  pub reset_finds :
      (x isr c t : ℕ) (answer : Line) (ow : OneWire)
      → answer (resets ∷ ow.ops) ≡ seen others line (t + 550)
      → Phase others line Pulls 480
          (quiet 0 x isr c rx false t)
          (quiet 2 ended isr c rx true (t + 480))
        × Phase others line LetsGo 70
            (quiet 2 ended isr c rx true (t + 480))
            (quiet 4 ended isr c rx false (t + 550))
        × Phase others line LetsGo 410
            (quiet 4 ended isr c rx false (t + 550))
            (quiet 8 ended 0 0 (seen others line (t + 550) ∷ rx) false (t + 960))
        × ((reset answer ow).0 ≡ not (line (t + 550)))
  unfolding step exec reset
  reset_finds x isr c t answer ow got =
      let e1 : t + 480 ≡ t + 16 + 29 * 16 = omega arith in
      let e2 : t + 550 ≡ t + 480 + 7 + 9 * 7 = omega arith in
      let e3 : t + 960 ≡ t + 550 + 1 + 1 + 8 + 25 * 16 = omega arith in
      (
        (
          goes_to _ (quiet 1 28 isr c rx true (t + 16)) _ refl refl
              (rw e1 (low_loop 28 isr c (t + 16) (omega arith))),
          omega arith,
        ),
        (
          goes_to _ (quiet 3 8 isr c rx false (t + 480 + 7)) _ refl refl
              (rw e2 (release_loop 8 isr c (t + 480 + 7) (omega arith))),
          omega arith,
        ),
        (
          goes _ _ refl (
              goes _ _ refl (
                goes_to _
                  (quiet 7 24 0 0 (seen others line (t + 550) ∷ rx) false (t + 550 + 1 + 1 + 8)) _
                  refl refl
                  (rw e3 (
                    recovery_loop 24 (seen others line (t + 550)) (t + 550 + 1 + 1 + 8)
                      (omega arith))))),
          omega arith,
        ),
        rw got (lowest (line (t + 550)) (others (t + 550))),
      )
