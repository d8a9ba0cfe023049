-- ===== src/Ds1307/Tests.antt =====
-- The driver at concrete inputs.
use hk_rtos.Base.{◌≡◌, ◌≢◌, arith, true}
use hk_rtos.Ds1307.{Config, DataPacket, packet_of}
use hk_rtos.Ds1307.Clock.{registers, packet_of-registers}

abbrev config : Config
config = record { address = 0x68; reset = true; utc_offset = 2 }

abbrev noon : DataPacket
noon = record { sec = 1; min = 2; hour = 12; day_name = 3; day = 30; month = 9; year = 2025 }

packet_of-registers_example :
    let got = packet_of (registers noon) in
    (got.sec ≡ 1)
    × (got.min ≡ 2)
    × (got.hour ≡ 12)
    × (got.day_name ≡ 3)
    × (got.day ≡ 30)
    × (got.month ≡ 9)
    × (got.year ≢ 2025)
packet_of-registers_example =
    packet_of-registers noon (omega arith) (omega arith) (omega arith) (omega arith) (omega arith)
      (omega arith) (omega arith)
