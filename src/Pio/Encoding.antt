-- ===== src/Pio/Encoding.antt =====
-- Instructions as pioasm encodes them: with one bit of side-set, and four of delay.
use hk_rtos.Base.{ℕ, ◌+◌, ◌*◌, ◌^◌}
use hk_rtos.Pio.{
  Instr, nop, set_pindirs, set_x, set_y, jmp_x_dec, jmp_y_dec, jmp, jmp_not_x, wait_pin, pull_block,
  mov_x_osr, in_pin, in_null, out_x, mov_isr_pins, push_block, Op, bit,
}

-- The encoding of an instruction without its side-set and its delay.
abbrev encode_instr : Instr → ℕ
encode_instr nop = 0xA042
encode_instr (set_pindirs o) = 0xE080 + bit o
encode_instr (set_x v) = 0xE020 + v
encode_instr (set_y v) = 0xE040 + v
encode_instr (jmp_x_dec a) = 0x0040 + a
encode_instr (jmp_y_dec a) = 0x0080 + a
encode_instr (wait_pin v) = 0x2020 + bit v * 2 ^ 7
encode_instr pull_block = 0x80A0
encode_instr mov_x_osr = 0xA027
encode_instr (jmp a) = a
encode_instr (jmp_not_x a) = 0x0020 + a
encode_instr in_pin = 0x4001
encode_instr in_null = 0x4061
encode_instr out_x = 0x6021
encode_instr mov_isr_pins = 0xA0C0
encode_instr push_block = 0x8020

abbrev pub encode : Op → ℕ
encode op = encode_instr op.instr + bit op.side * 2 ^ 12 + op.delay * 2 ^ 8
