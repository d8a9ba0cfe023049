-- ===== src/Dht/Program.antt =====
-- The program of the PIO block that reads a DHT11 or a DHT22 (src/sensors/dht11_22/dht11_22.pio, and
-- include/sensors/dht11_22/dht11_22.pio.h, which pioasm makes of it), and the two words that DHT_Read
-- of src/sensors/dht11_22/dht11_22_dma.c puts into its queue. A tick is 1 us.
pub mod Start
pub mod Signal
pub mod Bits
pub mod Bytes
pub mod Unanswered
pub mod Measured
pub mod Waveform
mod Tests
use hk_rtos.Base.{none, ℕ, ◌+◌, ◌*◌, ◌^◌, Bool, true, false, List, [], ◌∷◌}
use hk_rtos.Pio.{
  Instr, nop, set_pindirs, set_x, set_y, jmp_x_dec, jmp_y_dec, wait_pin, pull_block, mov_x_osr,
  in_pin, Op, Config, State, bit,
}

-- `side 0` and `side 1`.
abbrev pub low : Bool
low = false

abbrev pub high : Bool
high = true

abbrev pub op : Instr → Bool → ℕ → Op
op i side delay = record { instr = i; side = side; delay = delay }

-- .program dht11
abbrev pub program : List Op
program =
    op (set_pindirs true) high 0
    ∷ op pull_block high 0
    ∷ op mov_x_osr high 0
    ∷ op (jmp_x_dec 3) low 0
    ∷ op pull_block low 0
    ∷ op mov_x_osr low 0
    ∷ op (jmp_x_dec 6) high 0
    ∷ op (set_pindirs false) low 0
    ∷ op (wait_pin false) low 0
    ∷ op (wait_pin true) low 0
    ∷ op (set_x 4) low 0
    ∷ op (set_y 7) low 0
    ∷ op (wait_pin false) low 14
    ∷ op (wait_pin true) low 14
    ∷ op nop low 14
    ∷ op in_pin low 0
    ∷ op (jmp_y_dec 12) low 0
    ∷ op (jmp_x_dec 11) low 0
    ∷ []

-- dht11_program_instructions.
abbrev pub program_instructions : List ℕ
program_instructions =
    0xF081 ∷ 0x90A0 ∷ 0xB027 ∷ 0x0043 ∷ 0x80A0 ∷ 0xA027 ∷ 0x1046 ∷ 0xE080 ∷ 0x2020 ∷ 0x20A0 ∷ 0xE024
    ∷ 0xE047 ∷ 0x2E20 ∷ 0x2EA0 ∷ 0xAE42 ∷ 0x4001 ∷ 0x008C ∷ 0x004B ∷ []

-- dht11_program_init: the wrap, and the shifting of eight bits.
abbrev pub config : Config
config = record {
  wrap_target = 0;
  wrap = 17;
  push_threshold = 8;
  in_right = false;
  pull_threshold = none;
  side_pindirs = false;
  others = λ t. 0;
}

-- The start delays that DHT_Read puts into the queue.
abbrev pub low_delay : ℕ
low_delay = 20000

abbrev pub high_delay : ℕ
high_delay = 30

-- What DHT_Read does to the state machine: the queues are cleared and the delays are put into one. The
-- state machine stays where it is, and is enabled already.
pub refill : State → State
refill s = record s { tx = low_delay ∷ high_delay ∷ []; rx = [] }

-- A state whose word, if one has been pulled, is whole: the program shifts nothing out of it.
abbrev pub machine :
    (pc x y osr isr isr_count : ℕ) (tx rx : List ℕ) (output level : Bool) (time : ℕ) → State
machine pc x y osr isr isr_count tx rx output level time = record {
  pc = pc;
  x = x;
  y = y;
  osr = osr;
  osr_count = 0;
  isr = isr;
  isr_count = isr_count;
  tx = tx;
  rx = rx;
  output = output;
  level = level;
  time = time;
}
