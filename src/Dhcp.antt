-- ===== src/Dhcp.antt =====
-- The DHCP server of the access point (src/comm/network/dhcp/dhcpserver.c): `process` is
-- dhcp_server_process, given the size of the message, what pbuf_copy_partial left in `dhcp_msg` and
-- how many bytes it copied. Pointers into `dhcp_msg` are indices. `now` gives the results of
-- cyw43_hal_ticks_ms, by the number of the call.
pub mod Options
pub mod Leases
pub mod Replies
pub mod Service
mod Tests
use hk_rtos.Base.{
  ℕ, zero, suc, ◌+◌, ◌*◌, ◌-◌, ◌/◌, ◌%◌, ◌^◌, Bool, true, false, not, Option, none, some,
}
use hk_rtos.Base.{
  List, [], ◌∷◌, ◌++◌, ◌==◌, ◌||◌, ◌&&◌, ltb, leb, if◌then◌else◌, u8, u16, u32, get_or, set, length,
}
use hk_rtos.Crc.{Buffer}
use hk_rtos.Dns.{write_bytes}

-- DHCPS_BASE_IP and DHCPS_MAX_IP.
abbrev pub base_ip : ℕ
base_ip = 16

abbrev pub max_ip : ℕ
max_ip = 8

-- DHCP_MIN_SIZE, and the offsets of `yiaddr`, `chaddr` and the options behind the cookie.
abbrev pub min_size : ℕ
min_size = 243

abbrev pub yiaddr : ℕ
yiaddr = 16

abbrev pub chaddr : ℕ
chaddr = 28

abbrev pub options : ℕ
options = 240

abbrev pub opt_end : ℕ
opt_end = 255

abbrev pub lease_time_s : ℕ
lease_time_s = 86400

pub record Lease : Type 0 where
  pub mac : List ℕ
  pub expiry : ℕ

pub record Server : Type 0 where
  pub ip : Buffer
  pub nm : Buffer
  pub lease : List Lease

abbrev pub zero_mac : List ℕ
zero_mac = 0 ∷ 0 ∷ 0 ∷ 0 ∷ 0 ∷ 0 ∷ []

-- A lease as dhcp_server_init leaves it.
abbrev pub no_lease : Lease
no_lease = record { mac = zero_mac; expiry = 0 }

abbrev pub lease_at : List Lease → ℕ → Lease
lease_at ls i = get_or ls i no_lease

-- memcmp(a, b, n) == 0 on byte lists of one length.
pub same_bytes : List ℕ → List ℕ → Bool
same_bytes [] [] = true
same_bytes (x ∷ xs) (y ∷ ys) = x == y && same_bytes xs ys
same_bytes _ _ = false

-- `n` bytes of a buffer from an index on.
pub bytes_at : Buffer → ℕ → ℕ → List ℕ
bytes_at msg i zero = []
bytes_at msg i (suc n) = msg i ∷ bytes_at msg (i + 1) n

abbrev pub client : Buffer → List ℕ
client msg = bytes_at msg chaddr 6

-- The loop of opt_find at `i`. Each round moves on by two at least, so fuel for the bytes that are
-- left of the 308 is enough.
pub opt_find_from : ℕ → Buffer → ℕ → ℕ → Option ℕ
opt_find_from zero opt cmd i = none
opt_find_from (suc fuel) opt cmd i =
    let next = opt_find_from fuel opt cmd (i + (2 + opt (i + 1))) in
    if not (ltb i 308) || opt i == opt_end then none else if opt i == cmd then some i else next

pub opt_find : Buffer → ℕ → Option ℕ
unfolding opt_find_from
opt_find opt cmd = opt_find_from 308 opt cmd 0

-- The test `(int32_t)(expiry - ticks) < 0`.
pub is_expired : ℕ → ℕ → Bool
is_expired expiry ticks = leb (2 ^ 31) (u32 (u32 (expiry * 2 ^ 16) + 0xFFFF + 2 ^ 32 - u32 ticks))

-- The loop of DHCPDISCOVER from `i` on, with `left` rounds left.
pub search_from : (ℕ → ℕ) → List ℕ → ℕ → ℕ → ℕ → List Lease → ℕ × List Lease
unfolding same_bytes is_expired
search_from now ch zero i yi ls = (yi, ls)
search_from now ch (suc left) i yi ls =
    let l = lease_at ls i in
    let keep = search_from now ch left (i + 1) yi ls in
    let take_it = search_from now ch left (i + 1) i ls in
    let reuse =
      search_from now ch left (i + 1) i (set ls i (record { mac = zero_mac; expiry = l.expiry })) in
    if same_bytes l.mac ch
    then (i, ls)
    else if not (yi == max_ip)
    then keep
    else if is_expired l.expiry (now i)
    then reuse
    else if same_bytes l.mac zero_mac
    then take_it
    else keep

-- The case DHCPDISCOVER: the address offered, and the leases after.
pub discover : (ℕ → ℕ) → List ℕ → List Lease → Option ℕ × List Lease
unfolding search_from
discover now ch ls =
    let r = search_from now ch max_ip 0 max_ip ls in
    if r.0 == max_ip then (none, r.1) else (some r.0, r.1)

grant : (ℕ → ℕ) → List ℕ → ℕ → List Lease → Option ℕ × List Lease
grant now ch yi ls = (
  some yi,
  set ls yi (record { mac = ch; expiry = u32 (u32 (now 0) + lease_time_s * 1000) / 2 ^ 16 }),
)

-- The case DHCPREQUEST, with `o` the index of the option with the address that is asked for.
pub request : (ℕ → ℕ) → Buffer → Buffer → ℕ → List ℕ → List Lease → Option ℕ × List Lease
unfolding same_bytes bytes_at grant
request now ip opt o ch ls =
    let yi = u8 (opt (o + 5) + 2 ^ 8 - base_ip) in
    if not (same_bytes (bytes_at opt (o + 2) 3) (bytes_at ip 0 3))
    then (none, ls)
    else if leb max_ip yi
    then (none, ls)
    else if same_bytes (lease_at ls yi).mac ch
    then grant now ch yi ls
    else if same_bytes (lease_at ls yi).mac zero_mac
    then grant now ch yi ls
    else (none, ls)

-- The options of the answer, from the message type on.
pub answer_options : Server → ℕ → List ℕ
unfolding bytes_at
answer_options d kind =
    (53 ∷ 1 ∷ kind ∷ 54 ∷ 4 ∷ [])
    ++ bytes_at d.ip 0 4
    ++ (1 ∷ 4 ∷ [])
    ++ bytes_at d.nm 0 4
    ++ (3 ∷ 4 ∷ [])
    ++ bytes_at d.ip 0 4
    ++ (6 ∷ 4 ∷ [])
    ++ bytes_at d.ip 0 4
    ++ (51
        ∷ 4
        ∷ lease_time_s / 2 ^ 24
        ∷ u8 (lease_time_s / 2 ^ 16)
        ∷ u8 (lease_time_s / 2 ^ 8)
        ∷ u8 lease_time_s
        ∷ opt_end
        ∷ [])

-- The message with the head of the answer and its options, and its size.
pub reply : Server → ℕ → Buffer → ℕ → ℕ × Buffer
unfolding answer_options
reply d kind msg yi =
    let head =
      write_bytes yiaddr (d.ip 0 ∷ d.ip 1 ∷ d.ip 2 ∷ (base_ip + yi) ∷ [])
        (write_bytes 0 (2 ∷ []) msg) in
    (options + length (answer_options d kind), write_bytes options (answer_options d kind) head)

-- What follows the switch: an answer, or ignore_request.
finish : Server → ℕ → Buffer → Option ℕ × List Lease → Option (ℕ × Buffer) × Server
unfolding reply
finish d kind msg (none, ls) = (none, record d { lease = ls })
finish d kind msg (some yi, ls) = (some (reply d kind msg yi), record d { lease = ls })

-- The switch over the message type.
dispatch : (ℕ → ℕ) → Server → Buffer → ℕ → Option (ℕ × Buffer) × Server
unfolding discover request opt_find bytes_at finish
dispatch now d msg kind =
    let opt = λ (i : ℕ). msg (options + i) in
    if kind == 1
    then finish d 2 msg (discover now (client msg) d.lease)
    else if kind == 3
    then elim (opt_find opt 50) [
      | none ↦ (none, d)
      | some o ↦ finish d 5 msg (request now d.ip opt o (client msg) d.lease)
    ]
    else (none, d)

pub process : (ℕ → ℕ) → Server → ℕ → Buffer → ℕ → Option (ℕ × Buffer) × Server
unfolding opt_find dispatch
process now d tot_len msg len =
    if ltb tot_len min_size || ltb len min_size
    then (none, d)
    else elim (opt_find (λ i. msg (options + i)) 53) [
      | none ↦ (none, d)
      | some m ↦ dispatch now d msg (msg (options + m + 2))
    ]
