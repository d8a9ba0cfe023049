-- ===== src/Dns.antt =====
-- The DNS server of the access point (src/comm/network/dns/dnsserver.c): `process` is
-- dns_server_process, given what pbuf_copy_partial left in `dns_msg` and the number of bytes that it
-- copied, and giving the arguments of its call of dns_socket_sendto, if it makes one: the bytes of
-- the message and how many of them are sent. Pointers into `dns_msg` are indices.
pub mod Names
pub mod Question
pub mod Reply
pub mod Server
mod Tests
use hk_rtos.Base.{
  ℕ, zero, suc, ◌+◌, ◌-◌, ◌*◌, ◌/◌, ◌%◌, ◌^◌, Bool, true, false, not, Option, none, some,
}
use hk_rtos.Base.{List, [], ◌∷◌, ◌==◌, ltb, leb, if◌then◌else◌, bit_and, bit_or, u8, u16}
use hk_rtos.Crc.{Buffer}

abbrev pub max_dns_msg_size : ℕ
max_dns_msg_size = 300

-- sizeof(dns_header_t).
abbrev pub header_size : ℕ
header_size = 12

-- The u16 at an index, in network order: what lwip_ntohs reads.
abbrev pub ntohs_at : Buffer → ℕ → ℕ
ntohs_at msg i = msg i * 2 ^ 8 + msg (i + 1)

-- Bytes written from an index on.
abbrev pub write_bytes : ℕ → List ℕ → Buffer → Buffer
write_bytes i [] m = m
write_bytes i (b ∷ bs) m = write_bytes (i + 1) bs (λ j. if j == i then b else m j)

-- The loop over the labels of the question; `none` is the jump to ignore_request. Each round moves
-- on by a byte at least, so fuel for the bytes that are left is enough.
pub skip_labels : ℕ → Buffer → ℕ → ℕ → Option ℕ
skip_labels zero msg ptr end = some ptr
skip_labels (suc fuel) msg ptr end =
    let next = skip_labels fuel msg (ptr + 1 + msg ptr) end in
    if not (ltb ptr end)
    then some ptr
    else if msg ptr == 0
    then some (ptr + 1)
    else if ltb 63 (msg ptr)
    then none
    else next

-- The record of the answer, with the address of the server.
abbrev pub answer : Buffer → List ℕ
answer ip =
    0xC0 ∷ header_size ∷ 0 ∷ 1 ∷ 0 ∷ 1 ∷ 0 ∷ 0 ∷ 0 ∷ 60 ∷ 0 ∷ 4 ∷ ip 0 ∷ ip 1 ∷ ip 2 ∷ ip 3 ∷ []

-- The fields behind the id: the flags, one question, one answer, no other record.
abbrev pub header : List ℕ
header = 0x84 ∷ 0x80 ∷ 0 ∷ 1 ∷ 0 ∷ 1 ∷ 0 ∷ 0 ∷ 0 ∷ 0 ∷ []

-- From "Check question length" on; `ptr` is behind the question's name.
pub respond : Buffer → Buffer → ℕ → Option (ℕ × Buffer)
respond ip msg ptr =
    if ltb 255 (ptr - header_size)
    then none
    else (let at = ptr + 4 in some (at + 16, write_bytes 2 header (write_bytes at (answer ip) msg)))

pub process : Buffer → Buffer → ℕ → Option (ℕ × Buffer)
unfolding skip_labels respond
process ip msg msg_len =
    if ltb msg_len header_size
    then none
    else (let flags = ntohs_at msg 2 in
        if not (bit_and (flags / 2 ^ 15) 0x1 == 0)
        then none
        else if not (bit_and (flags / 2 ^ 11) 0xF == 0)
        then none
        else if ltb (ntohs_at msg 4) 1
        then none
        else elim (skip_labels msg_len msg header_size msg_len) [
          | none ↦ none
          | some ptr ↦ respond ip msg ptr
        ])
