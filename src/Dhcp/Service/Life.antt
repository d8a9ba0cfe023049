-- ===== src/Dhcp/Service/Life.antt =====
-- The sockets, the buffers, the leases and the answers of the DHCP server over its life.
use hk_rtos.Base.{ℕ, zero, suc, ◌+◌, ◌≡◌, refl, arith, Option, none, some, List, [], ◌∷◌, length}
use hk_rtos.Crc.{Buffer}
use hk_rtos.Bus.{bytes_from}
use hk_rtos.Sockets.{Trace, UdpOp, Udp, arrived, sent, sent_if, got_socket, got_buffer}
use hk_rtos.Sockets.Counts.{
  IsTidy, KeepsCounts, keeps_none, keeps_sent, keeps_sent_if, keeps_arrived, KeepsCounts-self,
  IsTidy-KeepsCounts, IsTidy-removed, IsTidy-created,
}
use hk_rtos.Dhcp.{Server, max_ip, process}
use hk_rtos.Dhcp.Replies.{Says, process_leases}
use hk_rtos.Dhcp.Service.{
  Service, listen_on, send_in, send_over, socket_sendto, reply_to, on_datagram, start_on, init,
  deinit, socket_free,
}

-- What happens to a server: it is started while it has no socket, it is handed datagrams, and it is
-- stopped. `fresh` is the struct before its first start.
pub data Reach (udp : Udp) : Service → Trace → Type 0 where
  fresh : (s : Server) → length s.lease ≡ max_ip → Reach udp (record { udp = none; server = s }) []
  starts :
      (d : Service) (t : Trace) (ip nm : Buffer)
      → Reach udp d t
      → d.udp ≡ none
      → Reach udp (init udp ip nm t).0 (init udp ip nm t).1
  stops : (d : Service) (t : Trace) → Reach udp d t → Reach udp (deinit d t).0 (deinit d t).1
  serves :
      (d : Service) (t : Trace) (now : ℕ → ℕ) (p tot_len : ℕ) (msg : Buffer) (len : ℕ)
      → Reach udp d t
      → Reach udp
          (on_datagram now udp d p tot_len msg len (arrived p ∷ t)).0
          (on_datagram now udp d p tot_len msg len (arrived p ∷ t)).1

-- A datagram that is sent has the 274 bytes of an answer, and goes to the clients' port of all hosts.
abbrev IsAnswer : List ℕ → ℕ → ℕ → Type 0
IsAnswer bytes ip port = (length bytes ≡ 274) × (ip ≡ 0xFFFFFFFF) × (port ≡ 68)

abbrev Answers : UdpOp → Type 0
Answers (sent s bytes ip port) = IsAnswer bytes ip port
Answers (sent_if s bytes ip port nif) = IsAnswer bytes ip port
Answers _ = Unit

abbrev pub AllAnswers : Trace → Type 0
AllAnswers [] = Unit
AllAnswers (op ∷ t) = Answers op × AllAnswers t

-- What holds of a server and its run at all times.
pub record IsOrderly (d : Service) (t : Trace) : Type 0 where
  pub tidy : IsTidy d.udp t
  pub leases : length d.server.lease ≡ max_ip
  pub answers : AllAnswers t

length-bytes_from : (n i : ℕ) (b : Buffer) → length (bytes_from n i b) ≡ n
unfolding bytes_from
length-bytes_from zero i b = refl
length-bytes_from (suc n) i b = omega (arith, length-bytes_from n (i + 1) b)

-- An operation gives back the buffers that it takes, and sends answers only.
abbrev GivesBack : Trace → Trace → Type 0
GivesBack t t' = KeepsCounts t t' × (AllAnswers t → AllAnswers t')

send_in-GivesBack :
    (udp : Udp) (s nif : Option ℕ) (bytes : List ℕ) (len : ℕ) (o : Option ℕ) (t : Trace)
    → length bytes ≡ 274
    → let r = got_buffer o t in GivesBack t (send_in udp s nif bytes len 0xFFFFFFFF 68 r.0 r.1).1
unfolding send_in send_over
send_in-GivesBack udp s nif bytes len none t e = (keeps_none t, λ a. (tt, a))
send_in-GivesBack udp s none bytes len (some p) t e =
    (keeps_sent s bytes 0xFFFFFFFF 68 p t, λ a. (tt, ((e, refl, refl), (tt, a))))
send_in-GivesBack udp s (some nif) bytes len (some p) t e =
    (keeps_sent_if s bytes 0xFFFFFFFF 68 nif p t, λ a. (tt, ((e, refl, refl), (tt, a))))

socket_sendto-GivesBack :
    (udp : Udp) (s nif : Option ℕ) (buf : Buffer) (t : Trace)
    → GivesBack t (socket_sendto udp s nif buf 274 0xFFFFFFFF 68 t).1
unfolding socket_sendto
socket_sendto-GivesBack udp s nif buf t =
    send_in-GivesBack udp s nif (bytes_from 274 0 buf) 274 (udp.on_alloc t 274) t
      (length-bytes_from 274 0 buf)

socket_sendto-GivesBack_len :
    (udp : Udp) (s nif : Option ℕ) (buf : Buffer) (len : ℕ) (t : Trace)
    → len ≡ 274
    → GivesBack t (socket_sendto udp s nif buf len 0xFFFFFFFF 68 t).1
socket_sendto-GivesBack_len udp s nif buf len t e = rw e (socket_sendto-GivesBack udp s nif buf t)

-- A datagram's buffer is given back, whether it is answered or not.
reply_to-GivesBack :
    (udp : Udp) (s : Option ℕ) (p : ℕ) (d : Server) (msg : Buffer) (r : Option (ℕ × Buffer))
    (t : Trace)
    → Says d msg d.lease r
    → GivesBack t (reply_to udp s p r (arrived p ∷ t)).1
unfolding reply_to
reply_to-GivesBack udp s p d msg none t says =
    (keeps_arrived p t (arrived p ∷ t) (KeepsCounts-self (arrived p ∷ t)), λ a. (tt, (tt, a)))
reply_to-GivesBack udp s p d msg (some (len, bytes)) t says =
    let t' = arrived p ∷ t in
    let k = socket_sendto-GivesBack_len udp s (udp.on_netif t') bytes len t' says.0 in
    (keeps_arrived p t _ k.0, λ a. (tt, k.1 (tt, a)))

on_datagram-IsOrderly :
    (now : ℕ → ℕ) (udp : Udp) (d : Service) (p tot_len : ℕ) (msg : Buffer) (len : ℕ) (t : Trace)
    → IsOrderly d t
    → let r = on_datagram now udp d p tot_len msg len (arrived p ∷ t) in IsOrderly r.0 r.1
unfolding on_datagram
on_datagram-IsOrderly now udp d p tot_len msg len t h =
    let run = process_leases now d.server tot_len msg len h.leases in
    let r = process now d.server tot_len msg len in
    let k = reply_to-GivesBack udp d.udp p r.1 msg r.0 t run.0 in
    record {
      tidy = IsTidy-KeepsCounts d.udp t _ h.tidy k.0;
      leases = run.1;
      answers = k.1 h.answers;
    }

deinit-IsOrderly :
    (d : Service) (t : Trace) → IsOrderly d t → IsOrderly (deinit d t).0 (deinit d t).1
unfolding deinit
deinit-IsOrderly d t h =
    let c = closes d.udp h.tidy h.answers in record { tidy = c.0; leases = h.leases; answers = c.1 }
  where
    closes :
        (s : Option ℕ)
        → IsTidy s t
        → AllAnswers t
        → IsTidy (socket_free s t).0 (socket_free s t).1 × AllAnswers (socket_free s t).1
    closes none k a = (k, a)
    closes (some h) k a = (IsTidy-removed h t k, (tt, a))

init-IsOrderly :
    (udp : Udp) (ip nm : Buffer) (t : Trace)
    → IsTidy none t
    → AllAnswers t
    → IsOrderly (init udp ip nm t).0 (init udp ip nm t).1
unfolding init
init-IsOrderly udp ip nm t h a = opens (udp.on_new t) (record { ip = ip; nm = nm; lease = _ }) refl
  where
    opens :
        (o : Option ℕ) (server : Server)
        → length server.lease ≡ max_ip
        → let r = listen_on (got_socket o t).0 (got_socket o t).1 in
          IsOrderly (start_on udp server r.0 r.1).0 (start_on udp server r.0 r.1).1
    opens none server e = record {
      tidy = record { sockets = h.sockets; buffers = h.buffers; careful = h.careful };
      leases = e;
      answers = (tt, a);
    }
    opens (some s) server e = record {
      tidy =
          (let k = IsTidy-created s t h in
            record { sockets = k.sockets; buffers = k.buffers; careful = k.careful });
      leases = e;
      answers = (tt, (tt, (tt, a)));
    }

-- As long as the server is started only while it has no socket, it has at all times at most the one
-- socket that it knows of: each socket has been closed as often as it was made, but for this one, and each
-- buffer has been given back as often as it was handed over or made. It never closes a socket that is not
-- open, and never gives back a buffer that it does not hold. The table has eight leases, and all that it has
-- sent are answers of 274 bytes to port 68 of all hosts.
pub Reach-IsOrderly : (udp : Udp) (d : Service) (t : Trace) → Reach udp d t → IsOrderly d t
Reach-IsOrderly udp d t (fresh s e) = record {
  tidy = record { sockets = λ x. refl; buffers = λ x. refl; careful = tt };
  leases = e;
  answers = tt;
}
Reach-IsOrderly udp d t (starts d' t' ip nm r e) =
    let before = Reach-IsOrderly udp d' t' r in
    init-IsOrderly udp ip nm t' (rw e at before.tidy) before.answers
Reach-IsOrderly udp d t (stops d' t' r) = deinit-IsOrderly d' t' (Reach-IsOrderly udp d' t' r)
Reach-IsOrderly udp d t (serves d' t' now p tot_len msg len r) =
    on_datagram-IsOrderly now udp d' p tot_len msg len t' (Reach-IsOrderly udp d' t' r)
