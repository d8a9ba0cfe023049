-- ===== src/OneWire.antt =====
-- The 1-Wire interface over a PIO block (src/comm/onewire/onewire.c), as it is compiled: with
-- hkOW_USE_DMA off (include/config/arm.h). `reset` is OneWire_Reset, `write_byte` OneWire_WriteByte,
-- `write` OneWire_Write and `read` OneWire_Read. The block and the devices on the line are a
-- parameter that answers from what was done before, as Program/Runs makes one of the program of the
-- block; a run on the line is the list of what was done,
-- newest first.
pub mod Calls
pub mod Jam
pub mod Devices
pub mod Search
pub mod Program
mod Tests
use hk_rtos.Base.{ℕ, zero, suc, ◌+◌, ◌*◌, ◌/◌, ◌%◌, ◌^◌, Bool, true, false, not, Option, none, some}
use hk_rtos.Base.{List, [], ◌∷◌, ◌==◌, if◌then◌else◌, bit_and, u8, u32}

-- OneWire_Status_t, without the two values of the DMA driver.
pub data Status : Type 0 where
  init init_success read_success read_in_progress write_success write_in_progress : Status

abbrev pub is_busy : Status → Bool
is_busy read_in_progress = true
is_busy write_in_progress = true
is_busy _ = false

-- The reset instruction, and a word put into the block.
pub data LineOp : Type 0 where
  resets : LineOp
  puts : ℕ → LineOp

-- What pio_sm_get_blocking gives back.
abbrev pub Line : Type 0
Line = List LineOp → ℕ

pub record OneWire : Type 0 where
  pub status : Status
  pub ops : List LineOp

module _ (line : Line) where
  unfoldable pub reset : OneWire → Bool × OneWire
  reset ow =
      let ops = resets ∷ ow.ops in
      (if bit_and (u32 (line ops)) 1 == 0 then true else false, record ow { ops = ops })

  pub write_byte : ℕ → OneWire → Bool × OneWire
  write_byte b ow =
      if is_busy ow.status
      then (false, ow)
      else (true, record { status = write_success; ops = puts b ∷ ow.ops })

  -- The loop of OneWire_Write, and what follows it.
  write_from : List ℕ → OneWire → Bool × OneWire
  unfolding write_byte
  write_from [] ow = (true, record ow { status = write_success })
  write_from (b ∷ bs) ow =
      let r = write_byte b ow in
      let rest = write_from bs r.1 in if not r.0 then (false, r.1) else rest

  pub write : List ℕ → OneWire → Bool × OneWire
  unfolding write_from
  write bs ow =
      if is_busy ow.status
      then (false, ow)
      else write_from bs (record ow { status = write_in_progress })

  unfoldable pub read : OneWire → ℕ × OneWire
  read ow =
      if is_busy ow.status
      then (0, ow)
      else (let ops = puts 0xFF ∷ ow.ops in
          (u8 (u32 (line ops) / 2 ^ 24), record { status = read_success; ops = ops }))
