-- ===== src/Heartbeat/Beats.antt =====
-- The life of the heartbeat: its timers, its buffers, the numbers of its messages, and which answer
-- sets the bit of the connection.
use hk_rtos.Base.{
  ℕ, ◌+◌, ◌-◌, ◌*◌, ◌/◌, ◌%◌, ◌^◌, ◌<◌, ◌≡◌, refl, arith, Option, none, some, List, [], ◌∷◌, ◌==◌,
  get_or, ◌&&◌, ltb, if◌then◌else◌, Bool, true, false,
}
use hk_rtos.Crc.{Buffer}
use hk_rtos.Bus.{bytes_from}
use hk_rtos.Dns.{write_bytes}
use hk_rtos.Sockets.Counts.{one_if, one_if_self}
use hk_rtos.Heartbeat.{
  Heartbeat, Net, PingOp, began, fired, armed, connected, arrived, allocated, freed, sent, Trace,
  got_socket, got_buffer, prepare_echo, ping_size, is_answer, report, on_receive, send_in,
  send_timer, start_on, init,
}

-- What a run has done, in numbers.
pub record Counts : Type 0 where
  pub starts : ℕ
  pub armed_timers : ℕ
  pub fired_timers : ℕ
  pub pings : ℕ

abbrev pub count : PingOp → Counts → Counts
count began c = record c { starts = c.starts + 1 }
count armed c = record c { armed_timers = c.armed_timers + 1 }
count fired c = record c { fired_timers = c.fired_timers + 1 }
count (sent s bytes target) c = record c { pings = c.pings + 1 }
count _ c = c

abbrev pub counts : Trace → Counts
counts [] = record { starts = 0; armed_timers = 0; fired_timers = 0; pings = 0 }
counts (op ∷ t) = count op (counts t)

-- How often the buffer with a number was taken and given back.
abbrev pub taken : ℕ → Trace → ℕ
taken x [] = 0
taken x (arrived p ∷ t) = taken x t + one_if x p
taken x (allocated p ∷ t) = taken x t + one_if x p
taken x (_ ∷ t) = taken x t

abbrev pub given_back : ℕ → Trace → ℕ
given_back x [] = 0
given_back x (freed p ∷ t) = given_back x t + one_if x p
given_back x (_ ∷ t) = given_back x t

-- Only a buffer that is held is ever given back.
abbrev pub Careful : Trace → Type 0
Careful [] = Unit
Careful (freed p ∷ t) = (given_back p t < taken p t) × Careful t
Careful (_ ∷ t) = Careful t

-- What happens: the heartbeat is started, again at each reconnection, a timer that is armed fires, and
-- messages arrive.
pub data Reach (net : Net) : Heartbeat → Trace → Type 0 where
  begins : Reach net (record { pcb = none; target = 0; seq = 0 }) []
  starts :
      (h : Heartbeat) (t : Trace) (gw : ℕ)
      → Reach net h t
      → Reach net (init net h gw t).0 (init net h gw t).1
  fires :
      (h : Heartbeat) (t : Trace)
      → Reach net h t
      → (counts t).fired_timers < (counts t).armed_timers
      → Reach net (send_timer net h (fired ∷ t)).0 (send_timer net h (fired ∷ t)).1
  receives_one :
      (h : Heartbeat) (t : Trace) (p : ℕ) (payload : Buffer)
      → Reach net h t
      → Reach net h (on_receive h p payload (arrived p ∷ t)).1

-- A message with the id of the heartbeat and the number `i`, in 16 bits.
abbrev pub HasNumber : ℕ → List ℕ → Type 0
HasNumber i bytes =
    (get_or bytes 4 0 * 2 ^ 8 + get_or bytes 5 0 ≡ 0xAFAF)
    × (get_or bytes 6 0 * 2 ^ 8 + get_or bytes 7 0 ≡ i % 2 ^ 16)

-- The messages that are sent are numbered, from 0 on.
abbrev pub IsNumbered : Trace → Type 0
IsNumbered [] = Unit
IsNumbered (sent s bytes target ∷ t) = HasNumber (counts t).pings bytes × IsNumbered t
IsNumbered (op ∷ t) = IsNumbered t

-- What holds of the heartbeat at all times.
pub record IsBeating (h : Heartbeat) (t : Trace) : Type 0 where
  pub timers : (counts t).armed_timers ≡ (counts t).fired_timers + (counts t).starts
  pub buffers : (x : ℕ) → taken x t ≡ given_back x t
  pub careful : Careful t
  pub number : h.seq ≡ (counts t).pings % 2 ^ 16
  pub numbered : IsNumbered t

prepare_echo-HasNumber :
    (chksum : List ℕ → ℕ) (i seq : ℕ) (b : Buffer)
    → seq ≡ i % 2 ^ 16
    → HasNumber i (bytes_from ping_size 0 (prepare_echo chksum seq b ping_size))
unfolding prepare_echo bytes_from
prepare_echo-HasNumber chksum i seq b e = (refl, omega arith)

-- A timer that has fired, or the first call, is still to be armed.
record Fires (h : Heartbeat) (t : Trace) : Type 0 where
  timers : (counts t).armed_timers + 1 ≡ (counts t).fired_timers + (counts t).starts
  buffers : (x : ℕ) → taken x t ≡ given_back x t
  careful : Careful t
  number : h.seq ≡ (counts t).pings % 2 ^ 16
  numbered : IsNumbered t

send_timer-IsBeating :
    (net : Net) (h : Heartbeat) (t : Trace)
    → Fires h t
    → IsBeating (send_timer net h t).0 (send_timer net h t).1
unfolding send_timer
send_timer-IsBeating net h t f = sends (net.on_alloc t)
  where
    sends :
        (o : Option ℕ)
        → let r = got_buffer o t in let s = send_in net h r.0 r.1 in IsBeating s.0 (armed ∷ s.1)
    sends none = record {
      timers = omega (arith, f.timers);
      buffers = f.buffers;
      careful = f.careful;
      number = f.number;
      numbered = f.numbered;
    }
    sends (some p) = record {
      timers = omega (arith, f.timers);
      buffers = λ x. omega (arith, f.buffers x);
      careful = (omega (arith, f.buffers p, one_if_self p), f.careful);
      number = omega (arith, f.number);
      numbered = (
        prepare_echo-HasNumber net.chksum (counts t).pings h.seq (net.content (allocated p ∷ t))
            f.number,
        f.numbered,
      );
    }

init-IsBeating :
    (net : Net) (h : Heartbeat) (gw : ℕ) (t : Trace)
    → IsBeating h t
    → IsBeating (init net h gw t).0 (init net h gw t).1
unfolding init start_on
init-IsBeating net h gw t b = opens (net.on_new (began ∷ t))
  where
    opens :
        (s : Option ℕ)
        → let r = got_socket s (began ∷ t) in
          let g = start_on net (record h { target = gw }) r.0 r.1 in IsBeating g.0 g.1
    opens none = send_timer-IsBeating net _ _ (record {
      timers = omega (arith, b.timers);
      buffers = b.buffers;
      careful = b.careful;
      number = b.number;
      numbered = b.numbered;
    })
    opens (some s) = send_timer-IsBeating net _ _ (record {
      timers = omega (arith, b.timers);
      buffers = b.buffers;
      careful = b.careful;
      number = b.number;
      numbered = b.numbered;
    })

on_receive-IsBeating :
    (h : Heartbeat) (t : Trace) (p : ℕ) (payload : Buffer)
    → IsBeating h t
    → IsBeating h (on_receive h p payload (arrived p ∷ t)).1
unfolding on_receive report
on_receive-IsBeating h t p payload b = reports (is_answer h.seq payload)
  where
    reports : (answer : Bool) → IsBeating h (freed p ∷ (report answer (arrived p ∷ t)).1)
    reports true = record {
      timers = b.timers;
      buffers = λ x. omega (arith, b.buffers x);
      careful = (omega (arith, b.buffers p, one_if_self p), b.careful);
      number = b.number;
      numbered = b.numbered;
    }
    reports false = record {
      timers = b.timers;
      buffers = λ x. omega (arith, b.buffers x);
      careful = (omega (arith, b.buffers p, one_if_self p), b.careful);
      number = b.number;
      numbered = b.numbered;
    }

-- At all times as many timers are pending as the heartbeat was started times, each buffer has been given
-- back as often as it was handed over or taken, none that was not held, and the messages are numbered
-- from 0 on, in 16 bits.
pub Reach-IsBeating : (net : Net) (h : Heartbeat) (t : Trace) → Reach net h t → IsBeating h t
Reach-IsBeating net h t begins = record {
  timers = refl;
  buffers = λ x. refl;
  careful = tt;
  number = refl;
  numbered = tt;
}
Reach-IsBeating net h t (starts h' t' gw r) =
    init-IsBeating net h' gw t' (Reach-IsBeating net h' t' r)
Reach-IsBeating net h t (fires h' t' r pending) =
    let b = Reach-IsBeating net h' t' r in
    send_timer-IsBeating net h' (fired ∷ t') (record {
      timers = omega (arith, b.timers);
      buffers = b.buffers;
      careful = b.careful;
      number = b.number;
      numbered = b.numbered;
    })
Reach-IsBeating net h t (receives_one h' t' p payload r) =
    on_receive-IsBeating h' t' p payload (Reach-IsBeating net h' t' r)

-- A header of IP without options: its identification, its flags and fragment offset in one field, and its
-- other bytes.
pub record IpHeader : Type 0 where
  pub identification : ℕ
  pub fragment : ℕ
  pub other : Buffer

-- What lwIP hands to a callback of raw_recv: the header of IP, and the ICMP message behind it.
pub delivered : IpHeader → Buffer → Buffer
delivered ip icmp =
    write_bytes 4
      (ip.identification / 2 ^ 8
        ∷ ip.identification % 2 ^ 8
        ∷ ip.fragment / 2 ^ 8
        ∷ ip.fragment % 2 ^ 8
        ∷ [])
      (λ j. if ltb j 20 then ip.other j else icmp (j - 20))

is_answer_lem :
    (pings seq : ℕ) (ip : IpHeader) (icmp : Buffer)
    → seq ≡ pings % 2 ^ 16
    → is_answer seq (delivered ip icmp)
      ≡ (ip.identification == 0xAFAF && ip.fragment == (pings + (2 ^ 16 - 1)) % 2 ^ 16)
unfolding is_answer delivered
is_answer_lem pings seq ip icmp e = ground (arith, e)

-- In the life of the heartbeat, take a message as lwIP delivers it, with the header of IP in front. The
-- callback sets the bit of the connection if the identification in the header of IP is 0xAFAF and the flags
-- and fragment offset in this header are the number of the last message sent, in 16 bits, and leaves the
-- bit as it is otherwise, whatever the ICMP message is: whether it answers the last message, or any, plays no
-- part. In both cases it gives the buffer back and returns 1.
pub on_receive-connects :
    (net : Net) (h : Heartbeat) (t : Trace) (p : ℕ) (ip : IpHeader) (icmp : Buffer)
    → Reach net h t
    → let last = ((counts t).pings + (2 ^ 16 - 1)) % 2 ^ 16 in
      on_receive h p (delivered ip icmp) t ≡ (
        1,
        freed p ∷ (if ip.identification == 0xAFAF && ip.fragment == last then connected ∷ t else t),
      )
unfolding on_receive report
on_receive-connects net h t p ip icmp r =
    let b = Reach-IsBeating net h t r in
    rw (is_answer_lem (counts t).pings h.seq ip icmp b.number) (
      reports
        (ip.identification == 0xAFAF && ip.fragment == ((counts t).pings + (2 ^ 16 - 1)) % 2 ^ 16))
  where
    reports :
        (answer : Bool)
        → ◌≡◌ {A = ℕ × Trace}
            (1, freed p ∷ (report answer t).1)
            (1, freed p ∷ (if answer then connected ∷ t else t))
    reports true = refl
    reports false = refl
