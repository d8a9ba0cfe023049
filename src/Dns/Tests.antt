-- ===== src/Dns/Tests.antt =====
-- The server at a query for the name "a".
use hk_rtos.Base.{ℕ, ◌≤◌, ◌≢◌, ◌↔◌, refl, none, some}
use hk_rtos.Crc.{Buffer}
use hk_rtos.Samples.{zeros, with_byte}
use hk_rtos.Dns.{process, ntohs_at, write_bytes, header, answer}
use hk_rtos.Base.{[], ◌∷◌}
use hk_rtos.Base.Int.{pos}
use hk_rtos.Sockets.{Udp, Trace, arrived}
use hk_rtos.Sockets.Counts.{IsTidy}
use hk_rtos.Dns.Server.{Server, init, on_datagram}
use hk_rtos.Dns.Server.Life.{begins, starts, serves, Reach-IsTidy}
use hk_rtos.Dns.Reply.{IsQuery, IsReply, process_replies}
use hk_rtos.Dns.Names.{encoded, replies_iff}
use hk_rtos.Base.{List, length, arith, ◌≡◌, ◌/◌, ◌%◌, ◌^◌, ◌<◌}

abbrev query : Buffer
query = with_byte 2 1 (with_byte 5 1 (with_byte 12 1 (with_byte 13 97 zeros)))

abbrev ip : Buffer
ip = with_byte 0 192 (with_byte 1 168 (with_byte 2 4 (with_byte 3 1 zeros)))

abbrev response : Buffer
response = write_bytes 2 header (write_bytes 19 (answer ip) query)

abbrev name : List (List ℕ)
name = (97 ∷ []) ∷ []

replies_iff_example : (process ip query 19 ≢ none) ↔ (
    (ntohs_at query 2 / 2 ^ 15 % 2 ≡ 0)
    × (ntohs_at query 2 / 2 ^ 11 % 2 ^ 4 ≡ 0)
    × (0 < ntohs_at query 4)
    × (length (encoded name) ≤ 255))
replies_iff_example =
    replies_iff ip query 19 name (omega arith, omega arith, tt) (refl, (refl, (refl, tt)))
      (omega arith)

process_replies_example : (r : ℕ) × IsQuery query 19 r × IsReply ip query r 35 response × (35 ≤ 287)
unfolding process
process_replies_example = process_replies ip query 19 35 response refl

-- A network on which everything works, and a server that is started and asked.
abbrev works : Udp
works = record {
  on_new = λ t. some 7;
  on_bind = λ t. pos 0;
  on_alloc = λ t n. some 9;
  on_send = λ t. pos 0;
  on_netif = λ t. some 1;
}

abbrev started : Server × Trace
started = init works (record { udp = none; ip = zeros }) ip []

abbrev asked : Trace
asked = (on_datagram works started.0 5 query 19 100 4000 (arrived 5 ∷ started.1)).1

Reach-IsTidy_example : IsTidy started.0.udp asked
Reach-IsTidy_example = Reach-IsTidy works started.0 asked (
    serves started.0 started.1 5 query 19 100 4000
      (starts (record { udp = none; ip = zeros }) [] ip (begins zeros) refl))
