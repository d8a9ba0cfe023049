-- ===== src/OneWire/Program.antt =====
-- The program of the PIO block behind the 1-Wire interface (src/comm/onewire/onewire.pio, and
-- include/comm/onewire/onewire.pio.h, which pioasm makes of it). A tick is 1 us.
pub mod Slots
pub mod Bytes
pub mod Reset
pub mod Runs
mod Tests
use hk_rtos.Base.{ℕ, ◌+◌, ◌*◌, ◌^◌, Bool, true, false, some, List, [], ◌∷◌}
use hk_rtos.Pio.{
  Instr, set_x, jmp_x_dec, jmp, jmp_not_x, in_pin, in_null, out_x, mov_isr_pins, push_block, Op,
  Config, State,
}

-- `side 1` makes the pin an output, which pulls the line low.
abbrev pulls : Bool
pulls = true

abbrev lets_go : Bool
lets_go = false

abbrev op : Instr → Bool → ℕ → Op
op i side delay = record { instr = i; side = side; delay = delay }

-- .program onewire
abbrev pub program : List Op
program =
    op (set_x 28) pulls 15
    ∷ op (jmp_x_dec 1) pulls 15
    ∷ op (set_x 8) lets_go 6
    ∷ op (jmp_x_dec 3) lets_go 6
    ∷ op mov_isr_pins lets_go 0
    ∷ op push_block lets_go 0
    ∷ op (set_x 24) lets_go 7
    ∷ op (jmp_x_dec 7) lets_go 15
    ∷ op out_x lets_go 0
    ∷ op (jmp_not_x 14) pulls 5
    ∷ op (set_x 2) lets_go 8
    ∷ op in_pin lets_go 4
    ∷ op (jmp_x_dec 12) lets_go 15
    ∷ op (jmp 8) lets_go 0
    ∷ op (set_x 2) pulls 5
    ∷ op (jmp_x_dec 15) pulls 15
    ∷ op in_null lets_go 8
    ∷ []

-- onewire_program_instructions.
abbrev pub program_instructions : List ℕ
program_instructions =
    0xFF3C ∷ 0x1F41 ∷ 0xE628 ∷ 0x0643 ∷ 0xA0C0 ∷ 0x8020 ∷ 0xE738 ∷ 0x0F47 ∷ 0x6021 ∷ 0x152E ∷ 0xE822
    ∷ 0x4401 ∷ 0x0F4C ∷ 0x0008 ∷ 0xF522 ∷ 0x1F4F ∷ 0x4861 ∷ []

-- onewire_sm_init, for the eight bits of `bitMode` that main sets.
abbrev pub config : (ℕ → ℕ) → Config
config others = record {
  wrap_target = 8;
  wrap = 16;
  push_threshold = 8;
  in_right = true;
  pull_threshold = some 8;
  side_pindirs = true;
  others = others;
}

module _ (y : ℕ) where
  abbrev pub bus :
      (pc x osr osr_count isr isr_count : ℕ) (tx rx : List ℕ) (output : Bool) (time : ℕ) → State
  bus pc x osr osr_count isr isr_count tx rx output time = record {
    pc = pc;
    x = x;
    y = y;
    osr = osr;
    osr_count = osr_count;
    isr = isr;
    isr_count = isr_count;
    tx = tx;
    rx = rx;
    output = output;
    level = false;
    time = time;
  }
