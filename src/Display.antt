-- ===== src/Display.antt =====
-- The transfers of the SSD1327 display (src/display/ssd1327/ssd1327.c, and GFX_Display in
-- ssd1327_gfx.c). `linked` says whether `sgI2C` is set; what Display_Init does with the reset pin is
-- left out.
pub mod Locking
use hk_rtos.Base.{
  ℕ, zero, suc, ◌+◌, ◌*◌, ◌/◌, Bool, true, false, none, some, List, [], ◌∷◌, if◌then◌else◌,
}
use hk_rtos.Bus.{Device, M, pure, ◌>>=◌, ◌>>◌, mutex_enter, mutex_exit, i2c_write, bytes_from}
use hk_rtos.Gfx.{State, width, height}

-- SSD1327_ADDRESS.
abbrev pub address : ℕ
address = 0x3C

-- `initCommands`.
pub init_commands : List ℕ
init_commands =
    0xFD ∷ 0x12 ∷ 0xAE ∷ 0xB3 ∷ 0xF1 ∷ 0xA8 ∷ 0x7F ∷ 0xA2 ∷ 0x00 ∷ 0xA1 ∷ 0x00 ∷ 0xA0 ∷ 0x71 ∷ 0xAB
    ∷ 0x01 ∷ 0x81 ∷ 0x9F ∷ 0xC7 ∷ 0x0F ∷ 0xBC ∷ 0x0D ∷ 0xB1 ∷ 0x32 ∷ 0xBE ∷ 0x0B ∷ 0xB6 ∷ 0x0D
    ∷ 0xC1 ∷ 0x99 ∷ []

-- The size of the frame buffer.
abbrev pub frame_size : ℕ
frame_size = width * height / 2

module _ (dev : Device) (linked : Bool) where
  -- The body of the three functions: a control byte and the bytes, under the mutex; the number of
  -- bytes written, or `false`.
  send : ℕ → List ℕ → M ℕ
  send control bytes =
      if linked
      then (do
        mutex_enter
        w ← i2c_write dev address (control ∷ bytes) false
        elim w [ none ↦ (do mutex_exit; pure 0) | some n ↦ (do mutex_exit; pure n) ])
      else pure 0

  pub write_command : ℕ → M ℕ
  unfolding send
  write_command command = send 0x00 (command ∷ [])

  pub write_command_list : List ℕ → M ℕ
  unfolding send
  write_command_list commands = send 0x00 commands

  pub write_data : List ℕ → M ℕ
  unfolding send
  write_data bytes = send 0x40 bytes

  -- SSD1327_DISPLAY_ON comes last.
  pub init : M ℕ
  unfolding write_command_list write_command
  init = do write_command_list init_commands; write_command 0xAF

  -- GFX_Display: the columns, the rows and the whole frame buffer.
  pub refresh : State → M ℕ
  unfolding write_command_list write_data
  refresh g = do
    write_command_list (0x15 ∷ 0x00 ∷ 0x3F ∷ [])
    write_command_list (0x75 ∷ 0x00 ∷ 0x7F ∷ [])
    write_data (bytes_from frame_size 0 g.frame_buffer)
