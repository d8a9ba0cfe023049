-- ===== src/OneWire/Program/Runs.antt =====
-- The program as the line of the driver: it answers whatever was done before.
use hk_rtos.Base.{
  ℕ, zero, suc, ◌+◌, ◌^◌, ◌<◌, ◌≤◌, ◌≡◌, refl, arith, Bool, true, false, List, [], ◌∷◌, length, leb,
}
use hk_rtos.Pio.{State, step, exec}
use hk_rtos.Pio.Leads.{Leads, stays, goes, goes_to, Leads-then}
use hk_rtos.OneWire.{Line, LineOp, init, resets, puts}
use hk_rtos.OneWire.Program.{program, config, bus}
use hk_rtos.OneWire.Program.Slots.{LetsGo, Slots, none_left, slot, ended}
use hk_rtos.OneWire.Program.Bytes.{bits, answers, shifts, byte_exchanged}
use hk_rtos.OneWire.Program.Reset.{seen, reset_finds}

-- The words that are put are bytes.
abbrev pub ArePutBytes : List LineOp → Type 0
ArePutBytes [] = Unit
ArePutBytes (resets ∷ ops) = ArePutBytes ops
ArePutBytes (puts v ∷ ops) = (v < 2 ^ 8) × ArePutBytes ops

-- What the driver does to the state machine: the instruction that it executes jumps to the reset, and
-- a byte goes into the queue.
abbrev pub given : LineOp → State → State
given resets s = record s { pc = 0; output = false }
given (puts v) s = record s { tx = v ∷ [] }

-- Everything holds.
abbrev pub Always : State → Type 0
Always s = Unit

module _ (others : ℕ → ℕ) (line : ℕ → Bool) (gap : ℕ → ℕ) where
  -- When the program is through with what was done, newest first, and with how long the driver waits before it does
  -- the next thing.
  abbrev pub time_after : List LineOp → ℕ
  time_after [] = 0
  time_after (resets ∷ ops) = time_after ops + gap (length ops) + 960
  time_after (puts v ∷ ops) = time_after ops + gap (length ops) + 561

  abbrev pub begins : List LineOp → ℕ
  begins ops = time_after ops + gap (length ops)

  -- What comes back.
  abbrev pub physical : Line
  physical [] = 0
  physical (resets ∷ ops) = seen others line (begins ops + 550)
  physical (puts v ∷ ops) = shifts others line 0 (answers others line (bits 8 v) (begins ops + 1))

  abbrev pub all_answers : List LineOp → List ℕ
  all_answers [] = []
  all_answers (op ∷ ops) = physical (op ∷ ops) ∷ all_answers ops

  -- Runs of the program in which the driver does one thing after the other.
  pub data Runs : List LineOp → State → State → Type 0 where
    not_yet : (s : State) → Runs [] s s
    does :
        (op : LineOp) (ops : List LineOp) (s s₁ s₂ s₃ : State)
        → Runs ops s s₁
        → Leads (config others) program line LetsGo s₁ s₂
        → s₂.time ≡ s₁.time + gap (length ops)
        → Leads (config others) program line Always (given op s₂) s₃
        → Runs (op ∷ ops) s s₃

  always :
      {ok : State → Type 0}
      → (s s' : State) → Leads (config others) program line ok s s'
      → Leads (config others) program line Always s s'
  always s s' (stays t) = stays t
  always s s' (goes t t' h l) = goes t t' tt (always (step (config others) program line t) t' l)

  Slots-Leads :
      (bs : List Bool) (s s' : State)
      → Slots others line bs s s'
      → Leads (config others) program line Always s s'
  Slots-Leads bs s s' (none_left t) = stays t
  Slots-Leads bs s s' (slot b bs' t low free t' t'' first second third rest) =
      Leads-then t low t'' (always t low first.0) (
        Leads-then low free t'' (always low free second.0)
          (Leads-then free t' t'' (always free t' third.0) (Slots-Leads bs' t' t'' rest)))

  idles :
      (n y x osr k t : ℕ) (rx : List ℕ)
      → 8 ≤ k
      → Leads
          (config others)
          program
          line
          LetsGo
          (bus y 8 x osr k 0 0 [] rx false t)
          (bus y 8 x osr k 0 0 [] rx false (t + n))
  unfolding step exec
  idles zero y x osr k t rx empty = let e : t + 0 ≡ t = omega arith in rw e (stays _)
  idles (suc n) y x osr k t rx empty =
      let e : t + suc n ≡ t + 1 + n = omega arith in
      let full : leb 8 k ≡ true = ground arith in
      rw e (
        goes_to _ (bus y 8 x osr k 0 0 [] rx false (t + 1)) _ (rw full refl) refl
          (idles n y x osr k (t + 1) rx empty))

  -- Whatever the driver does with the line, one thing after the other and with bytes only, the program gets
  -- through with it, and is idle again after each; and the words that have come into its queue are the
  -- answers of a line in the sense of the driver, which depends on nothing but what was done before, and when.
  pub physical-Runs :
      (y x osr k : ℕ) (ops : List LineOp)
      → 8 ≤ k
      → ArePutBytes ops
      → (x' osr' k' : ℕ) × (8 ≤ k')
        × Runs ops
            (bus y 8 x osr k 0 0 [] [] false 0)
            (bus y 8 x' osr' k' 0 0 [] (all_answers ops) false (time_after ops))
  physical-Runs y x osr k [] empty bytes = (x, osr, k, empty, not_yet _)
  physical-Runs y x osr k (resets ∷ ops) empty bytes =
      let (x', osr', k', empty', before) = physical-Runs y x osr k ops empty bytes in
      let t = time_after ops in
      let n = gap (length ops) in
      let rx = all_answers ops in
      let r =
        reset_finds others line y osr' k' rx x' 0 0 (t + n) (λ o. seen others line (t + n + 550))
          (record { status = init; ops = [] }) refl in
      let low = bus y 2 ended osr' k' 0 0 [] rx true (t + n + 480) in
      let free = bus y 4 ended osr' k' 0 0 [] rx false (t + n + 550) in
      (
        ended,
        osr',
        k',
        empty',
        does resets ops _ (bus y 8 x' osr' k' 0 0 [] rx false t)
            (bus y 8 x' osr' k' 0 0 [] rx false (t + n)) _ before (idles n y x' osr' k' t rx empty')
            refl
            (Leads-then _ low _ (always _ low r.0.0)
              (Leads-then low free _ (always low free r.1.0) (always free _ r.2.0))),
      )
  physical-Runs y x osr k (puts v ∷ ops) empty (byte, bytes) =
      let (x', osr', k', empty', before) = physical-Runs y x osr k ops empty bytes in
      let t = time_after ops in
      let n = gap (length ops) in
      let rx = all_answers ops in
      let r = byte_exchanged others line v y x' osr' k' (t + n) rx byte empty' in
      let loaded = bus y 8 x' v 0 0 0 [] rx false (t + n + 1) in
      (
        ended,
        0,
        8,
        omega arith,
        does (puts v) ops _ (bus y 8 x' osr' k' 0 0 [] rx false t)
            (bus y 8 x' osr' k' 0 0 [] rx false (t + n)) _ before (idles n y x' osr' k' t rx empty')
            refl
            (Leads-then _ loaded _ (always _ loaded r.1.0)
              (rw r.2 at (Slots-Leads (bits 8 v) loaded _ r.3))),
      )
