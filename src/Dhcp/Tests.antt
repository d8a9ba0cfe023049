-- ===== src/Dhcp/Tests.antt =====
-- The server at the first message of a client.
use hk_rtos.Base.{◌+◌, ◌≡◌, refl, [], ◌∷◌, some}
use hk_rtos.Crc.{Buffer}
use hk_rtos.Samples.{zeros, with_byte}
use hk_rtos.Dns.{write_bytes}
use hk_rtos.Dhcp.{Server, Lease, no_lease, options, opt_find}
use hk_rtos.Base.{none, List, arith}
use hk_rtos.Base.Int.{pos}
use hk_rtos.Sockets.{Udp, Trace, arrived}
use hk_rtos.Dhcp.Service.{Service, init, on_datagram}
use hk_rtos.Dhcp.Service.Life.{fresh, starts, serves, Reach-IsOrderly, IsOrderly}
use hk_rtos.Dhcp.Options.{Opt, Carries, position, opt_find-position}

-- A DHCPDISCOVER, with a host name before the message type.
abbrev message : Buffer
message =
    write_bytes 28 (2 ∷ 0 ∷ 0 ∷ 0 ∷ 0 ∷ 9 ∷ [])
      (write_bytes options (12 ∷ 1 ∷ 97 ∷ 53 ∷ 1 ∷ 1 ∷ 255 ∷ []) zeros)

abbrev ip : Buffer
ip = with_byte 0 192 (with_byte 1 168 (with_byte 2 4 (with_byte 3 1 zeros)))

abbrev free : Lease
free = no_lease

abbrev server : Server
server = record {
  ip = ip;
  nm = zeros;
  lease = free ∷ free ∷ free ∷ free ∷ free ∷ free ∷ free ∷ free ∷ [];
}

abbrev hello : List Opt
hello = (12, 97 ∷ []) ∷ (53, 1 ∷ []) ∷ []

hello_carried : Carries (λ i. message (options + i)) 0 hello
hello_carried = (
  omega arith,
  omega arith,
  (refl, (refl, (refl, tt))),
  (omega arith, omega arith, (refl, (refl, (refl, tt))), (omega arith, refl)),
)

opt_find-position_example : opt_find (λ i. message (options + i)) 53 ≡ position 53 0 hello
opt_find-position_example = opt_find-position (λ i. message (options + i)) 53 hello hello_carried

-- A network on which everything works, and a server that is started and gets the message.
abbrev works : Udp
works = record {
  on_new = λ t. some 7;
  on_bind = λ t. pos 0;
  on_alloc = λ t n. some 9;
  on_send = λ t. pos 0;
  on_netif = λ t. some 1;
}

abbrev started : Service × Trace
started = init works ip zeros []

abbrev asked : Service × Trace
asked = on_datagram (λ i. 5) works started.0 5 300 message 300 (arrived 5 ∷ started.1)

Reach-IsOrderly_example : IsOrderly asked.0 asked.1
Reach-IsOrderly_example = Reach-IsOrderly works asked.0 asked.1 (
    serves started.0 started.1 (λ i. 5) 5 300 message 300
      (starts (record { udp = none; server = server }) [] ip zeros (fresh server refl) refl))
