-- ===== src/Sgp30/Tests.antt =====
-- The driver at concrete inputs.
use hk_rtos.Base.{◌≡◌, refl, arith}
use hk_rtos.Crc.{Buffer, IsBytes}
use hk_rtos.Samples.{zeros, with_byte, zeros-IsBytes, with_byte-IsBytes}
use hk_rtos.Sgp30.{Config, DataPacket, crc, init, process_data}
use hk_rtos.Sgp30.Polling.{sgp30_process_detects}

-- Two words with their checksums: 0xBEEF and 0.
abbrev message : Buffer
message = with_byte 0 0xBE (with_byte 1 0xEF (with_byte 2 0x92 (with_byte 5 0x81 zeros)))

message-IsBytes : IsBytes message
message-IsBytes = with_byte-IsBytes 0 0xBE _ (omega arith) (
    with_byte-IsBytes 1 0xEF _ (omega arith) (
      with_byte-IsBytes 2 0x92 _ (omega arith)
        (with_byte-IsBytes 5 0x81 zeros (omega arith) zeros-IsBytes)))

abbrev config : Buffer → Config
config raw = record { address = 0x58; status = init; raw_data = raw; length = 6 }

abbrev packet : DataPacket
packet = record { eco2 = 400; tvoc = 7 }

sgp30_process_detects_example : process_data (config (with_byte 4 9 message)) packet ≡ packet
unfolding crc
sgp30_process_detects_example =
    sgp30_process_detects (config (with_byte 4 9 message)) packet message 4 message-IsBytes
      (with_byte-IsBytes 4 9 message (omega arith) message-IsBytes) (omega arith) (ground arith)
      (λ m ne. ground arith) (refl, refl)
