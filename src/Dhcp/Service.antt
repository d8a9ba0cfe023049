-- ===== src/Dhcp/Service.antt =====
-- The life of the DHCP server (the dhcp_socket functions, dhcp_server_process, dhcp_server_init and
-- dhcp_server_deinit in src/comm/network/dhcp/dhcpserver.c).
pub mod Life
use hk_rtos.Base.{ℕ, not, Option, none, some, List, [], ◌∷◌, ltb, if◌then◌else◌}
use hk_rtos.Base.Int.{ℤ, pos}
use hk_rtos.Bus.{bytes_from}
use hk_rtos.Crc.{Buffer}
use hk_rtos.Dhcp.{Server, no_lease, process}
use hk_rtos.Sockets.{
  M, pure, ◌>>=◌, ◌>>◌, does, ok, is_ok, no_memory, listens, removed, freed, Udp, udp_new, udp_bind,
  pbuf_alloc, udp_sendto, udp_sendto_if, ip_current_input_netif,
}

-- dhcp_server_t: the socket, and the fields that the handler of a message uses.
pub record Service : Type 0 where
  pub udp : Option ℕ
  pub server : Server

-- The functions below are split where the source tests what a call gave.
pub listen_on : Option ℕ → M (ℤ × Option ℕ)
listen_on none = pure (no_memory, none)
listen_on (some h) = do does (listens h); pure (ok, some h)

pub socket_new_dgram : Udp → M (ℤ × Option ℕ)
unfolding listen_on
socket_new_dgram udp = do s ← udp_new udp; listen_on s

pub socket_free : Option ℕ → M (Option ℕ)
socket_free none = pure none
socket_free (some h) = do does (removed h); pure none

pub socket_bind : Udp → Option ℕ → ℕ → M ℤ
socket_bind udp s port = udp_bind udp s port

pub send_over : Udp → Option ℕ → Option ℕ → List ℕ → ℕ → ℕ → M ℤ
send_over udp s none bytes ip port = udp_sendto udp s bytes ip port
send_over udp s (some nif) bytes ip port = udp_sendto_if udp s bytes ip port nif

pub send_in : Udp → Option ℕ → Option ℕ → List ℕ → ℕ → ℕ → ℕ → Option ℕ → M ℤ
unfolding send_over
send_in udp s nif bytes len ip port none = pure no_memory
send_in udp s nif bytes len ip port (some h) = do
  err ← send_over udp s nif bytes ip port
  does (freed h)
  pure (if not (is_ok err) then err else pos len)

pub socket_sendto : Udp → Option ℕ → Option ℕ → Buffer → ℕ → ℕ → ℕ → M ℤ
unfolding send_in
socket_sendto udp s nif buf len ip port =
    let len' = if ltb 0xFFFF len then 0xFFFF else len in
    do p ← pbuf_alloc udp len'; send_in udp s nif (bytes_from len' 0 buf) len' ip port p

-- The end of dhcp_server_process: the answer, if there is one, and then the buffer of the datagram.
pub reply_to : Udp → Option ℕ → ℕ → Option (ℕ × Buffer) → M (Unit {0})
unfolding socket_sendto
reply_to udp s p none = does (freed p)
reply_to udp s p (some (len, msg)) = do
  nif ← ip_current_input_netif udp
  socket_sendto udp s nif msg len 0xFFFFFFFF 68
  does (freed p)

-- dhcp_server_process, for the datagram in the buffer `p`.
pub on_datagram : (ℕ → ℕ) → Udp → Service → ℕ → ℕ → Buffer → ℕ → M Service
unfolding process reply_to
on_datagram now udp d p tot_len msg len =
    let r = process now d.server tot_len msg len in
    do reply_to udp d.udp p r.0; pure (record d { server = r.1 })

-- dhcp_server_init behind the call of dhcp_socket_new_dgram.
pub start_on : Udp → Server → ℤ × Option ℕ → M Service
unfolding socket_bind
start_on udp server (status, s) =
    if not (is_ok status)
    then pure (record { udp = s; server = server })
    else (do socket_bind udp s 67; pure (record { udp = s; server = server }))

pub init : Udp → Buffer → Buffer → M Service
unfolding socket_new_dgram start_on
init udp ip nm =
    let free = no_lease in
    let server : Server = record {
      ip = ip;
      nm = nm;
      lease = free ∷ free ∷ free ∷ free ∷ free ∷ free ∷ free ∷ free ∷ [];
    } in
    do r ← socket_new_dgram udp; start_on udp server r

pub deinit : Service → M Service
unfolding socket_free
deinit d = do s ← socket_free d.udp; pure (record d { udp = s })
