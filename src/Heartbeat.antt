-- ===== src/Heartbeat.antt =====
-- The heartbeat of the Wi-Fi (include/comm/network/ping.h): `init` is initHeartbeat, `send_timer`
-- pingSendTimer, `on_receive` pingRecvCallback and `prepare_echo` pingPrepareEcho. The functions of lwIP
-- (not in this repository) are a parameter, and a run is the list of what happened, newest first.
pub mod Beats
mod Tests
use hk_rtos.Base.{
  ℕ, ◌+◌, ◌-◌, ◌/◌, ◌%◌, ◌^◌, Bool, true, false, ◌&&◌, Option, none, some, List, [], ◌∷◌, ◌==◌, leb,
  ltb, if◌then◌else◌, u16,
}
use hk_rtos.Bus.{bytes_from}
use hk_rtos.Crc.{Buffer}
use hk_rtos.Dns.{ntohs_at, write_bytes}

-- `began` is a call of initHeartbeat, `fired` the end of a timer of lwIP, `arrived` a message whose
-- buffer the callback is handed, and `connected` the setting of WIFI_CONNECTED_BIT.
pub data PingOp : Type 0 where
  began fired armed connected : PingOp
  no_socket no_buffer : PingOp
  created : ℕ → PingOp
  receives bound : Option ℕ → PingOp
  arrived allocated freed : ℕ → PingOp
  sent : Option ℕ → List ℕ → ℕ → PingOp

abbrev pub Trace : Type 0
Trace = List PingOp

-- What the calls give, and the content of a new buffer.
pub record Net : Type 0 where
  pub on_new : Trace → Option ℕ
  pub on_alloc : Trace → Option ℕ
  pub content : Trace → Buffer
  pub chksum : List ℕ → ℕ

abbrev pub M : Type 0 → Type 0
M A = Trace → A × Trace

abbrev pub pure : {A : Type 0} → A → M A
pure a t = (a, t)

infixl 5 ◌>>=◌ ◌>>◌
abbrev ◌>>=◌ : {A B : Type 0} → M A → (A → M B) → M B
◌>>=◌ m f t = let r = m t in f r.0 r.1

abbrev ◌>>◌ : {A B : Type 0} → M A → M B → M B
m >> k = m >>= λ _. k

abbrev does : PingOp → M (Unit {0})
does op t = (tt, op ∷ t)

abbrev pub got_socket : Option ℕ → M (Option ℕ)
got_socket none t = (none, no_socket ∷ t)
got_socket (some s) t = (some s, created s ∷ t)

abbrev pub got_buffer : Option ℕ → M (Option ℕ)
got_buffer none t = (none, no_buffer ∷ t)
got_buffer (some p) t = (some p, allocated p ∷ t)

-- pingPCB, pingTarget and pingSeqNum.
pub record Heartbeat : Type 0 where
  pub pcb : Option ℕ
  pub target : ℕ
  pub seq : ℕ

-- sizeof(struct icmp_echo_hdr) + 32.
abbrev pub ping_size : ℕ
ping_size = 40

abbrev memset : Buffer → ℕ → ℕ → ℕ → Buffer
memset b from byte end i = if leb from i && ltb i end then byte else b i

-- The message; the number after it is that of `next_seq`. The fields of the header are the type, the
-- code, the checksum, the id and the number.
pub prepare_echo : (List ℕ → ℕ) → ℕ → Buffer → ℕ → Buffer
prepare_echo chksum seq b len =
    let header = write_bytes 0 (8 ∷ 0 ∷ 0 ∷ 0 ∷ 0xAF ∷ 0xAF ∷ seq / 2 ^ 8 ∷ seq % 2 ^ 8 ∷ []) b in
    let echo = memset header 8 0xA5 len in
    let sum = chksum (bytes_from len 0 echo) in write_bytes 2 (sum % 2 ^ 8 ∷ sum / 2 ^ 8 ∷ []) echo

abbrev next_seq : ℕ → ℕ
next_seq seq = u16 (seq + 1)

-- The test of pingRecvCallback. `payload` is what lwIP hands over, from the header of IP on: raw_recv
-- does not take it off.
pub is_answer : ℕ → Buffer → Bool
is_answer seq payload = ntohs_at payload 4 == 0xAFAF && ntohs_at payload 6 == u16 (seq + 2 ^ 16 - 1)

pub report : Bool → M (Unit {0})
report true = does connected
report false = pure tt

pub on_receive : Heartbeat → ℕ → Buffer → M ℕ
unfolding is_answer report
on_receive h p payload = do report (is_answer h.seq payload); does (freed p); pure 1

-- pingSendTimer behind the call of pbuf_alloc, up to that of sys_timeout.
pub send_in : Net → Heartbeat → Option ℕ → M Heartbeat
unfolding prepare_echo
send_in net h none t = (h, t)
send_in net h (some p) t =
    let echo = prepare_echo net.chksum h.seq (net.content t) ping_size in
    (
      record h { seq = next_seq h.seq },
      freed p ∷ sent h.pcb (bytes_from ping_size 0 echo) h.target ∷ t,
    )

pub send_timer : Net → Heartbeat → M Heartbeat
unfolding send_in
send_timer net h = do
  o ← (λ t. got_buffer (net.on_alloc t) t)
  h' ← send_in net h o
  does armed
  pure h'

-- initHeartbeat behind the call of raw_new.
pub start_on : Net → Heartbeat → Option ℕ → M Heartbeat
unfolding send_timer
start_on net h s = do does (receives s); does (bound s); send_timer net (record h { pcb = s })

pub init : Net → Heartbeat → ℕ → M Heartbeat
unfolding start_on
init net h gw = do
  does began
  s ← (λ t. got_socket (net.on_new t) t)
  start_on net (record h { target = gw }) s
