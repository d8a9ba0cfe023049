-- ===== src/Dht20/Tests.antt =====
-- The driver at concrete inputs.
use hk_rtos.Base.{◌≡◌, refl, arith}
use hk_rtos.Crc.{Buffer}
use hk_rtos.Bus.{failure}
use hk_rtos.Samples.{coarse, zeros, with_byte, zeros-IsBytes, with_byte-IsBytes}
use hk_rtos.Base.Int.{pos}
use hk_rtos.Dht.{DataPacket}
use hk_rtos.Dht20.{Config, crc, verdict}
use hk_rtos.Dht20.Polling.{verdict_detects}

abbrev beef : Buffer
beef = with_byte 0 0xBE (with_byte 1 0xEF zeros)

-- The example of the sensors' data sheets.
crc-beef : crc beef 2 ≡ 0x92
unfolding crc
crc-beef = refl

abbrev message : Buffer
message = with_byte 6 0x6A zeros

abbrev config : Config
config = record { address = 0x38; raw_data = message; length = 7 }

abbrev packet : DataPacket coarse
packet = record {
  temperature = pos 1;
  dew_point = pos 1;
  humidity = pos 1;
  absolute_humidity = pos 1;
}

verdict_detects_example : verdict (with_byte 2 1 message) ≡ failure
unfolding crc
verdict_detects_example =
    verdict_detects message (with_byte 2 1 message) 2
      (with_byte-IsBytes 6 0x6A zeros (omega arith) zeros-IsBytes)
      (with_byte-IsBytes 2 1 message (omega arith)
        (with_byte-IsBytes 6 0x6A zeros (omega arith) zeros-IsBytes))
      (omega arith) (ground arith) (λ j ne. ground arith) refl
