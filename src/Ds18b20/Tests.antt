-- ===== src/Ds18b20/Tests.antt =====
-- The driver at concrete inputs.
use hk_rtos.Base.{ℕ, ◌≤◌, ◌≡◌, refl, arith, [], false}
use hk_rtos.Base.Int.{pos}
use hk_rtos.Samples.{coarse, zeros, with_byte, zeros-IsBytes, with_byte-IsBytes}
use hk_rtos.OneWire.{OneWire, Line, init_success}
use hk_rtos.Ds18b20.{Config, DataPacket, reading_scratchpad, process, unset, crc, tick, skip_rom}
use hk_rtos.Ds18b20.Checksum.{ds18b20_crc_detects}
use hk_rtos.Ds18b20.Machine.{Counted, tick-Counted, ticks, ticks_finish}

abbrev quiet : Line
quiet ops = 0

abbrev ready : OneWire
ready = record { status = init_success; ops = [] }

abbrev config : Config
config = record {
  address = skip_rom;
  data_buffer = zeros;
  length = 9;
  data_count = 6;
  state = reading_scratchpad;
  resolution = 12;
  convert_start_time = 0;
}

abbrev packet : DataPacket coarse
packet = record { temperature = pos 1; address = 5; status = unset }

ds18b20_crc_detects_example : crc (with_byte 3 0x40 zeros) 9 ≡ false
unfolding crc
ds18b20_crc_detects_example =
    ds18b20_crc_detects zeros (with_byte 3 0x40 zeros) 9 3 zeros-IsBytes
      (with_byte-IsBytes 3 0x40 zeros (omega arith) zeros-IsBytes) (omega arith) (ground arith)
      (λ j ne. ground arith) refl

tick-Counted_example :
    let c' = (tick quiet coarse 0 config packet ready).0 in
    Counted c' × ((j : ℕ) → 9 ≤ j → c'.data_buffer j ≡ zeros j)
tick-Counted_example =
    tick-Counted quiet coarse 0 config packet ready (omega arith, omega arith, λ e. omega arith)

ticks_finish_example : (ticks quiet coarse 3 (λ i. i) config packet ready).state ≡ process
ticks_finish_example =
    ticks_finish quiet coarse 2 (λ i. i) config packet ready (omega arith) refl refl
