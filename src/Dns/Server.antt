-- ===== src/Dns/Server.antt =====
-- The life of the DNS server (the dns_socket functions, dns_server_process, dns_server_init and
-- dns_server_deinit in src/comm/network/dns/dnsserver.c). `assert` does nothing, as in a build for
-- release.
pub mod Life
use hk_rtos.Base.{ℕ, not, Option, none, some, List, ltb, if◌then◌else◌}
use hk_rtos.Base.Int.{ℤ, pos}
use hk_rtos.Bus.{bytes_from}
use hk_rtos.Crc.{Buffer}
use hk_rtos.Dns.{process}
use hk_rtos.Sockets.{
  M, pure, ok, is_ok, no_memory, ◌>>=◌, ◌>>◌, does, listens, removed, freed, Udp, udp_new, udp_bind,
  pbuf_alloc, udp_sendto,
}

-- dns_server_t.
pub record Server : Type 0 where
  pub udp : Option ℕ
  pub ip : Buffer

-- The functions below are split where the source tests what a call gave.
pub listen_on : Option ℕ → M (ℤ × Option ℕ)
listen_on none = pure (no_memory, none)
listen_on (some h) = do does (listens h); pure (ok, some h)

pub socket_new_dgram : Udp → M (ℤ × Option ℕ)
unfolding listen_on
socket_new_dgram udp = do s ← udp_new udp; listen_on s

pub socket_free : Option ℕ → M (Option ℕ)
socket_free none = pure none
socket_free (some h) = do does (removed h); pure none

pub socket_bind : Udp → Option ℕ → ℕ → M ℤ
socket_bind udp s port = udp_bind udp s port

pub send_in : Udp → Option ℕ → List ℕ → ℕ → ℕ → ℕ → Option ℕ → M ℤ
send_in udp s bytes len dest port none = pure no_memory
send_in udp s bytes len dest port (some h) = do
  err ← udp_sendto udp s bytes dest port
  does (freed h)
  pure (if not (is_ok err) then err else pos len)

pub socket_sendto : Udp → Option ℕ → Buffer → ℕ → ℕ → ℕ → M ℤ
unfolding send_in
socket_sendto udp s buf len dest port =
    let len' = if ltb 0xFFFF len then 0xFFFF else len in
    do p ← pbuf_alloc udp len'; send_in udp s (bytes_from len' 0 buf) len' dest port p

-- The end of dns_server_process: the reply, if there is one, and then the buffer of the datagram.
pub reply_to : Udp → Server → ℕ → ℕ → ℕ → Option (ℕ × Buffer) → M (Unit {0})
unfolding socket_sendto
reply_to udp d p src src_port none = does (freed p)
reply_to udp d p src src_port (some (len, reply)) = do
  socket_sendto udp d.udp reply len src src_port
  does (freed p)

-- dns_server_process, for the datagram in the buffer `p` from `src`.
pub on_datagram : Udp → Server → ℕ → Buffer → ℕ → ℕ → ℕ → M (Unit {0})
unfolding process reply_to
on_datagram udp d p msg msg_len src src_port =
    reply_to udp d p src src_port (process d.ip msg msg_len)

-- dns_server_init behind the call of dns_socket_new_dgram.
pub start_on : Udp → Server → Buffer → ℤ × Option ℕ → M Server
unfolding socket_bind
start_on udp d ip (status, s) = if not (is_ok status) then pure (record d { udp = s }) else (do
  err ← socket_bind udp s 53
  pure (record { udp = s; ip = if not (is_ok err) then d.ip else ip }))

pub init : Udp → Server → Buffer → M Server
unfolding socket_new_dgram start_on
init udp d ip = do r ← socket_new_dgram udp; start_on udp d ip r

pub deinit : Server → M Server
unfolding socket_free
deinit d = do s ← socket_free d.udp; pure (record d { udp = s })
