-- ===== src/Heartbeat/Tests.antt =====
-- The heartbeat after one ping.
use hk_rtos.Base.{◌≡◌, none, some, [], ◌∷◌}
use hk_rtos.Crc.{Buffer}
use hk_rtos.Samples.{zeros, with_byte}
use hk_rtos.Heartbeat.{Net, Heartbeat, Trace, init, on_receive, freed}
use hk_rtos.Heartbeat.Beats.{
  IpHeader, delivered, begins, starts, IsBeating, Reach-IsBeating, on_receive-connects,
}

abbrev net : Net
net = record {
  on_new = λ t. some 3;
  on_alloc = λ t. some 5;
  content = λ t. zeros;
  chksum = λ bytes. 0;
}

abbrev idle : Heartbeat
idle = record { pcb = none; target = 0; seq = 0 }

abbrev started : Heartbeat × Trace
started = init net idle 77 []

-- The answer to the message with the number 0, in an IP datagram of its own identification.
abbrev reply : Buffer
reply = with_byte 4 0xAF (with_byte 5 0xAF zeros)

abbrev header : IpHeader
header = record { identification = 0x1234; fragment = 0; other = with_byte 0 0x45 zeros }

Reach-IsBeating_example : IsBeating started.0 started.1
Reach-IsBeating_example = Reach-IsBeating net started.0 started.1 (starts idle [] 77 begins)

-- It does not set the bit.
on_receive-connects_example :
    on_receive started.0 9 (delivered header reply) started.1 ≡ (1, freed 9 ∷ started.1)
unfolding init
on_receive-connects_example =
    on_receive-connects net started.0 started.1 9 header reply (starts idle [] 77 begins)
