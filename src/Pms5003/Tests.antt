-- ===== src/Pms5003/Tests.antt =====
-- The driver at concrete inputs.
use hk_rtos.Base.{◌≡◌, ◌↔◌, refl, arith, true}
use hk_rtos.Crc.{Buffer, IsBytes}
use hk_rtos.Samples.{zeros, with_byte, zeros-IsBytes, with_byte-IsBytes}
use hk_rtos.Pms5003.{DataPacket, validate_packet, process_data}
use hk_rtos.Pms5003.Frames.{IsFrame, validate_packet-IsFrame, pms_process_detects}

-- A frame with the one measurement 12: 0x42 + 0x4D + 12 is 155.
abbrev frame : Buffer
frame = with_byte 0 0x42 (with_byte 1 0x4D (with_byte 5 12 (with_byte 31 155 zeros)))

frame-IsBytes : IsBytes frame
frame-IsBytes = with_byte-IsBytes 0 0x42 _ (omega arith) (
    with_byte-IsBytes 1 0x4D _ (omega arith) (
      with_byte-IsBytes 5 12 _ (omega arith)
        (with_byte-IsBytes 31 155 zeros (omega arith) zeros-IsBytes)))

abbrev packet : DataPacket
packet = record { pm1 = 1; pm2_5 = 2; pm10 = 3 }

validate_packet-IsFrame_example : (validate_packet frame ≡ true) ↔ IsFrame frame
validate_packet-IsFrame_example = validate_packet-IsFrame frame frame-IsBytes

pms_process_detects_example : process_data (with_byte 7 1 frame) packet ≡ packet
pms_process_detects_example =
    pms_process_detects frame (with_byte 7 1 frame) 7 packet frame-IsBytes
      (with_byte-IsBytes 7 1 frame (omega arith) frame-IsBytes) (omega arith) (ground arith)
      (λ j ne. ground arith) (refl, refl, refl)
