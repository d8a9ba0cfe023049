-- ===== src/Sockets.antt =====
-- The UDP functions of lwIP (not in this repository) that the two servers call: a run is the list of
-- what it did, newest first, and what the calls give is a parameter that depends on the run before.
pub mod Counts
use hk_rtos.Base.{ℕ, Bool, false, ◌==◌, Option, none, some, List, [], ◌∷◌}
use hk_rtos.Base.Int.{ℤ, pos, negsuc}

-- Sockets and buffers are numbers. `arrived` is a datagram whose buffer the server is handed.
pub data UdpOp : Type 0 where
  created : ℕ → UdpOp
  no_socket no_buffer : UdpOp
  listens removed : ℕ → UdpOp
  bound : Option ℕ → ℕ → UdpOp
  arrived allocated freed : ℕ → UdpOp
  sent : Option ℕ → List ℕ → ℕ → ℕ → UdpOp
  sent_if : Option ℕ → List ℕ → ℕ → ℕ → ℕ → UdpOp

abbrev pub Trace : Type 0
Trace = List UdpOp

pub record Udp : Type 0 where
  pub on_new : Trace → Option ℕ
  pub on_bind : Trace → ℤ
  pub on_alloc : Trace → ℕ → Option ℕ
  pub on_send : Trace → ℤ
  pub on_netif : Trace → Option ℕ

-- -ENOMEM.
abbrev pub no_memory : ℤ
no_memory = negsuc 11

-- ERR_OK.
abbrev pub ok : ℤ
ok = pos 0

abbrev pub is_ok : ℤ → Bool
is_ok (pos n) = n == 0
is_ok (negsuc n) = false

abbrev pub M : Type 0 → Type 0
M A = Trace → A × Trace

abbrev pub pure : {A : Type 0} → A → M A
pure a t = (a, t)

infixl 5 ◌>>=◌ ◌>>◌
abbrev pub ◌>>=◌ : {A B : Type 0} → M A → (A → M B) → M B
◌>>=◌ m f t = let r = m t in f r.0 r.1

abbrev pub ◌>>◌ : {A B : Type 0} → M A → M B → M B
m >> k = m >>= λ _. k

abbrev pub does : UdpOp → M (Unit {0})
does op t = (tt, op ∷ t)

-- What a call that makes a socket or a buffer leaves behind.
abbrev pub got_socket : Option ℕ → M (Option ℕ)
got_socket none t = (none, no_socket ∷ t)
got_socket (some s) t = (some s, created s ∷ t)

abbrev pub got_buffer : Option ℕ → M (Option ℕ)
got_buffer none t = (none, no_buffer ∷ t)
got_buffer (some p) t = (some p, allocated p ∷ t)

abbrev pub udp_new : Udp → M (Option ℕ)
udp_new udp t = got_socket (udp.on_new t) t

abbrev pub udp_bind : Udp → Option ℕ → ℕ → M ℤ
udp_bind udp s port t = (udp.on_bind t, bound s port ∷ t)

abbrev pub pbuf_alloc : Udp → ℕ → M (Option ℕ)
pbuf_alloc udp n t = got_buffer (udp.on_alloc t n) t

abbrev pub udp_sendto : Udp → Option ℕ → List ℕ → ℕ → ℕ → M ℤ
udp_sendto udp s bytes ip port t = (udp.on_send t, sent s bytes ip port ∷ t)

-- The last argument is the network interface.
abbrev pub udp_sendto_if : Udp → Option ℕ → List ℕ → ℕ → ℕ → ℕ → M ℤ
udp_sendto_if udp s bytes ip port nif t = (udp.on_send t, sent_if s bytes ip port nif ∷ t)

abbrev pub ip_current_input_netif : Udp → M (Option ℕ)
ip_current_input_netif udp t = (udp.on_netif t, t)
