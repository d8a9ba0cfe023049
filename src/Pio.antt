-- ===== src/Pio.antt =====
-- The state machines of the PIO blocks, as their assembly language describes them, for the instructions
-- that the programs in this repository use. Times are ticks of the state machine, which runs at 1 MHz.
-- The line of the one pin that a program serves is a function of time. `rx` is drained by DMA or by the
-- caller, so that it has no bound here; newest first.
pub mod Leads
pub mod Encoding
use hk_rtos.Base.{
  ℕ, zero, suc, ◌+◌, ◌-◌, ◌*◌, ◌/◌, ◌%◌, ◌^◌, Bool, true, false, not, Option, none, some, List, [],
  ◌∷◌, ◌==◌, if◌then◌else◌, leb, u32,
}

pub data Instr : Type 0 where
  nop : Instr
  set_pindirs : Bool → Instr
  set_x set_y : ℕ → Instr
  jmp_x_dec jmp_y_dec : ℕ → Instr
  jmp jmp_not_x : ℕ → Instr
  wait_pin : Bool → Instr
  pull_block mov_x_osr in_pin in_null out_x mov_isr_pins push_block : Instr

-- An instruction, with its side-set value and its delay.
pub record Op : Type 0 where
  pub instr : Instr
  pub side : Bool
  pub delay : ℕ

-- The options of a state machine: whether a side-set changes directions (sm_config_set_sideset), the wrap
-- (sm_config_set_wrap), whether bits are shifted in to the right and when they are pushed
-- (sm_config_set_in_shift, with autopush), and when a new word is pulled, if by itself (sm_config_set_out_shift,
-- to the right). `others` is what the pins behind the one that is served show.
pub record Config : Type 0 where
  pub wrap_target : ℕ
  pub wrap : ℕ
  pub push_threshold : ℕ
  pub in_right : Bool
  pub pull_threshold : Option ℕ
  pub side_pindirs : Bool
  pub others : ℕ → ℕ

-- `output` is the direction of the pin, `level` what it is driven to.
pub record State : Type 0 where
  pub pc : ℕ
  pub x : ℕ
  pub y : ℕ
  pub osr : ℕ
  pub osr_count : ℕ
  pub isr : ℕ
  pub isr_count : ℕ
  pub tx : List ℕ
  pub rx : List ℕ
  pub output : Bool
  pub level : Bool
  pub time : ℕ

abbrev pub same : Bool → Bool → Bool
same true b = b
same false true = false
same false false = true

abbrev pub is_nonzero : ℕ → Bool
is_nonzero zero = false
is_nonzero (suc n) = true

abbrev pub bit : Bool → ℕ
bit true = 1
bit false = 0

-- The first instruction that a program has at an address; behind its end there is none.
abbrev fetch : List Op → ℕ → Op
fetch [] a = record { instr = nop; side = false; delay = 0 }
fetch (op ∷ p) zero = op
fetch (op ∷ p) (suc a) = fetch p a

module _ (c : Config) where
  -- On to the next instruction, or around, after the delay.
  abbrev pub next : ℕ → State → State
  next d s = record s {
    pc = if s.pc == c.wrap then c.wrap_target else s.pc + 1;
    time = s.time + (1 + d);
  }

  abbrev pub jump : ℕ → ℕ → State → State
  jump a d s = record s { pc = a; time = s.time + (1 + d) }

  -- A tick in which the instruction waits.
  abbrev pub stall : State → State
  stall s = record s { time = s.time + 1 }

  -- `jmp x--` and `jmp y--`: the value after, and whether it jumps.
  abbrev pub pred : ℕ → ℕ
  pred v = u32 (v + (2 ^ 32 - 1))

  abbrev pub jump_if : Bool → ℕ → ℕ → State → State
  jump_if true a d s = jump a d s
  jump_if false a d s = next d s

  abbrev pub next_if : Bool → ℕ → State → State
  next_if true d s = next d s
  next_if false d s = stall s

  abbrev pub pulled : List ℕ → ℕ → State → State
  pulled [] d s = stall s
  pulled (w ∷ ws) d s = next d (record s { osr = w; osr_count = 0; tx = ws })

  -- What has been shifted in goes to `rx` when it has enough bits.
  abbrev pub pushed : Bool → ℕ → State → State
  pushed true isr s = record s { isr = 0; isr_count = 0; rx = isr ∷ s.rx }
  pushed false isr s = record s { isr = isr; isr_count = s.isr_count + 1 }

  abbrev pub shift_in : Bool → Bool → ℕ → ℕ
  shift_in true b isr = isr / 2 + bit b * 2 ^ 31
  shift_in false b isr = u32 (isr * 2 + bit b)

  abbrev pub shifted : Bool → State → State
  shifted b s = pushed (leb c.push_threshold (s.isr_count + 1)) (shift_in c.in_right b s.isr) s

  -- With autopull, a word is pulled as soon as enough bits have been shifted out.
  abbrev pub refilled_if : List ℕ → Bool → State → State
  refilled_if [] full s = s
  refilled_if (w ∷ ws) true s = record s { osr = w; osr_count = 0; tx = ws }
  refilled_if (w ∷ ws) false s = s

  abbrev pub refilled : Option ℕ → State → State
  refilled none s = s
  refilled (some k) s = refilled_if s.tx (leb k s.osr_count) s

  -- `out x, 1`, which waits in a tick in which the word is pulled.
  abbrev pub shifted_out : ℕ → State → State
  shifted_out d s =
      next d (record s { x = s.osr % 2; osr = s.osr / 2; osr_count = s.osr_count + 1 })

  abbrev pub out_if : Bool → ℕ → State → State
  out_if true d s = stall (refilled_if s.tx true s)
  out_if false d s = shifted_out d s

  abbrev pub out_bit : Option ℕ → ℕ → State → State
  out_bit none d s = shifted_out d s
  out_bit (some k) d s = out_if (leb k s.osr_count) d s

  -- The side-set.
  abbrev pub sided : Bool → Bool → State → State
  sided true side s = record s { output = side }
  sided false side s = record s { level = side }

  abbrev pub refresh : State → State
  refresh s = refilled c.pull_threshold s

  unfoldable pub exec : (ℕ → Bool) → Instr → ℕ → State → State
  exec line nop d s = next d (refresh s)
  exec line (set_pindirs o) d s = next d (refresh (record s { output = o }))
  exec line (set_x v) d s = next d (refresh (record s { x = v }))
  exec line (set_y v) d s = next d (refresh (record s { y = v }))
  exec line (jmp_x_dec a) d s = jump_if (is_nonzero s.x) a d (refresh (record s { x = pred s.x }))
  exec line (jmp_y_dec a) d s = jump_if (is_nonzero s.y) a d (refresh (record s { y = pred s.y }))
  exec line (jmp a) d s = jump a d (refresh s)
  exec line (jmp_not_x a) d s = jump_if (not (is_nonzero s.x)) a d (refresh s)
  exec line (wait_pin v) d s = next_if (same v (line s.time)) d (refresh s)
  exec line pull_block d s = pulled s.tx d s
  exec line mov_x_osr d s = next d (record s { x = s.osr })
  exec line in_pin d s = next d (shifted (line s.time) (refresh s))
  exec line in_null d s = next d (shifted false (refresh s))
  exec line out_x d s = out_bit c.pull_threshold d s
  exec line mov_isr_pins d s =
      next d (refresh (record s { isr = c.others s.time * 2 + bit (line s.time); isr_count = 0 }))
  exec line push_block d s =
      next d (refresh (record s { isr = 0; isr_count = 0; rx = s.isr ∷ s.rx }))

  -- An instruction, or a tick of one that waits. The side-set takes effect at its beginning.
  unfoldable pub step : List Op → (ℕ → Bool) → State → State
  unfolding exec
  step p line s =
      let op = fetch p s.pc in exec line op.instr op.delay (sided c.side_pindirs op.side s)

  unfoldable pub run : List Op → (ℕ → Bool) → ℕ → State → State
  unfolding step
  run p line zero s = s
  run p line (suc n) s = run p line n (step p line s)
