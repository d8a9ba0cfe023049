-- ===== src/Dns/Server/Life.antt =====
-- The sockets and the buffers of the DNS server over its life.
use hk_rtos.Base.{ℕ, ◌≡◌, refl, Option, none, some, [], ◌∷◌, ltb, if◌then◌else◌}
use hk_rtos.Crc.{Buffer}
use hk_rtos.Sockets.{Trace, Udp, arrived, got_socket, got_buffer}
use hk_rtos.Sockets.Counts.{
  IsTidy, KeepsCounts, keeps_none, keeps_sent, keeps_arrived, KeepsCounts-self, IsTidy-KeepsCounts,
  IsTidy-removed, IsTidy-created,
}
use hk_rtos.Dns.Server.{
  Server, listen_on, send_in, socket_sendto, reply_to, on_datagram, start_on, init, deinit,
  socket_free,
}
use hk_rtos.Bus.{bytes_from}
use hk_rtos.Dns.{process}

-- What happens to a server: it is started while it has no socket, it is handed datagrams, and it is
-- stopped.
pub data Reach (udp : Udp) : Server → Trace → Type 0 where
  begins : (ip : Buffer) → Reach udp (record { udp = none; ip = ip }) []
  starts :
      (d : Server) (t : Trace) (ip : Buffer)
      → Reach udp d t
      → d.udp ≡ none
      → Reach udp (init udp d ip t).0 (init udp d ip t).1
  stops : (d : Server) (t : Trace) → Reach udp d t → Reach udp (deinit d t).0 (deinit d t).1
  serves :
      (d : Server) (t : Trace) (p : ℕ) (msg : Buffer) (msg_len src src_port : ℕ)
      → Reach udp d t
      → Reach udp d (on_datagram udp d p msg msg_len src src_port (arrived p ∷ t)).1

socket_sendto_keeps :
    (udp : Udp) (s : Option ℕ) (buf : Buffer) (len dest port : ℕ) (t : Trace)
    → KeepsCounts t (socket_sendto udp s buf len dest port t).1
unfolding socket_sendto
socket_sendto_keeps udp s buf len dest port t =
    let n = if ltb 0xFFFF len then 0xFFFF else len in room (udp.on_alloc t n)
  where
    room :
        (o : Option ℕ)
        → KeepsCounts t
            (send_in udp s
              (bytes_from (if ltb 0xFFFF len then 0xFFFF else len) 0 buf)
              (if ltb 0xFFFF len then 0xFFFF else len)
              dest
              port
              (got_buffer o t).0
              (got_buffer o t).1).1
    room none = keeps_none t
    room (some p) = keeps_sent s _ dest port p t

-- A datagram's buffer is given back, whether there is a reply or not.
reply_to_keeps :
    (udp : Udp) (d : Server) (p src src_port : ℕ) (reply : Option (ℕ × Buffer)) (t : Trace)
    → KeepsCounts t (reply_to udp d p src src_port reply (arrived p ∷ t)).1
unfolding reply_to
reply_to_keeps udp d p src src_port none t =
    keeps_arrived p t (arrived p ∷ t) (KeepsCounts-self (arrived p ∷ t))
reply_to_keeps udp d p src src_port (some (len, bytes)) t =
    keeps_arrived p t _ (socket_sendto_keeps udp d.udp bytes len src src_port (arrived p ∷ t))

deinit-IsTidy : (d : Server) (t : Trace) → IsTidy d.udp t → IsTidy (deinit d t).0.udp (deinit d t).1
unfolding deinit
deinit-IsTidy d t h = closes d.udp h
  where
    closes : (s : Option ℕ) → IsTidy s t → IsTidy (socket_free s t).0 (socket_free s t).1
    closes none k = k
    closes (some h) k = IsTidy-removed h t k

init-IsTidy :
    (udp : Udp) (d : Server) (ip : Buffer) (t : Trace)
    → IsTidy none t
    → IsTidy (init udp d ip t).0.udp (init udp d ip t).1
unfolding init
init-IsTidy udp d ip t h = opens (udp.on_new t)
  where
    opens :
        (o : Option ℕ)
        → let r = listen_on (got_socket o t).0 (got_socket o t).1 in
          IsTidy (start_on udp d ip r.0 r.1).0.udp (start_on udp d ip r.0 r.1).1
    opens none = record { sockets = h.sockets; buffers = h.buffers; careful = h.careful }
    opens (some s) =
        let k = IsTidy-created s t h in
        record { sockets = k.sockets; buffers = k.buffers; careful = k.careful }

-- As long as the server is started only while it has no socket, it has at all times at most the one
-- socket that it knows of: each socket has been closed as often as it was made, but for this one, and each
-- buffer has been given back as often as it was handed over or made. It never closes a socket that is not
-- open, and never gives back a buffer that it does not hold.
pub Reach-IsTidy : (udp : Udp) (d : Server) (t : Trace) → Reach udp d t → IsTidy d.udp t
unfolding on_datagram
Reach-IsTidy udp d t (begins ip) = record { sockets = λ x. refl; buffers = λ x. refl; careful = tt }
Reach-IsTidy udp d t (starts d' t' ip r e) =
    init-IsTidy udp d' ip t' (rw e at (Reach-IsTidy udp d' t' r))
Reach-IsTidy udp d t (stops d' t' r) = deinit-IsTidy d' t' (Reach-IsTidy udp d' t' r)
Reach-IsTidy udp d t (serves d' t' p msg msg_len src src_port r) =
    let k = reply_to_keeps udp d' p src src_port (process d'.ip msg msg_len) t' in
    IsTidy-KeepsCounts d'.udp t' _ (Reach-IsTidy udp d' t' r) k
