-- ===== src/Sockets/Counts.antt =====
-- The sockets and the buffers that a run has taken and given back, each for itself.
use hk_rtos.Base.{
  ℕ, ◌+◌, ◌≤◌, ◌<◌, ◌≡◌, refl, arith, Option, none, some, List, [], ◌∷◌, ◌==◌, if◌then◌else◌,
}
use hk_rtos.Sockets.{
  UdpOp, created, removed, arrived, allocated, freed, sent, sent_if, no_buffer, Trace,
}

pub one_if : ℕ → ℕ → ℕ
one_if x y = if x == y then 1 else 0

pub one_if_self : (x : ℕ) → one_if x x ≡ 1
unfolding one_if
one_if_self x = ground arith

-- How often the socket with a number was opened and closed, and the buffer with this number taken and
-- given back.
pub record Counts : Type 0 where
  pub opened : ℕ
  pub closed : ℕ
  pub taken : ℕ
  pub given_back : ℕ

abbrev pub count : ℕ → UdpOp → Counts → Counts
count x (created s) c = record c { opened = c.opened + one_if x s }
count x (removed s) c = record c { closed = c.closed + one_if x s }
count x (arrived p) c = record c { taken = c.taken + one_if x p }
count x (allocated p) c = record c { taken = c.taken + one_if x p }
count x (freed p) c = record c { given_back = c.given_back + one_if x p }
count x _ c = c

abbrev pub counts : ℕ → Trace → Counts
counts x [] = record { opened = 0; closed = 0; taken = 0; given_back = 0 }
counts x (op ∷ t) = count x op (counts x t)

abbrev pub held_by : ℕ → Option ℕ → ℕ
held_by x none = 0
held_by x (some s) = one_if x s

-- Only an open socket is ever closed, and only a buffer that is held given back.
abbrev pub Careful : Trace → Type 0
Careful [] = Unit
Careful (removed s ∷ t) = ((counts s t).closed < (counts s t).opened) × Careful t
Careful (freed p ∷ t) = ((counts p t).given_back < (counts p t).taken) × Careful t
Careful (_ ∷ t) = Careful t

-- Each buffer has been given back as often as it was taken, and each socket closed as often as it was
-- opened, but for that of the server, which is open.
pub record IsTidy (socket : Option ℕ) (t : Trace) : Type 0 where
  pub sockets : (x : ℕ) → (counts x t).opened ≡ (counts x t).closed + held_by x socket
  pub buffers : (x : ℕ) → (counts x t).taken ≡ (counts x t).given_back
  pub careful : Careful t

abbrev pub SameCounts : ℕ → Trace → Trace → Type 0
SameCounts x t t' =
    ((counts x t').opened ≡ (counts x t).opened)
    × ((counts x t').closed ≡ (counts x t).closed)
    × ((counts x t').taken + (counts x t).given_back
        ≡ (counts x t).taken + (counts x t').given_back)

-- An operation gives back the buffers that it takes, and opens and closes no socket.
pub record KeepsCounts (t t' : Trace) : Type 0 where
  pub same : (x : ℕ) → SameCounts x t t'
  pub careful : ((x : ℕ) → (counts x t).given_back ≤ (counts x t).taken) → Careful t → Careful t'

pub keeps_none : (t : Trace) → KeepsCounts t (no_buffer ∷ t)
keeps_none t = record { same = λ x. (refl, refl, omega arith); careful = λ b c. c }

pub keeps_sent :
    (s : Option ℕ) (bytes : List ℕ) (ip port p : ℕ) (t : Trace)
    → KeepsCounts t (freed p ∷ sent s bytes ip port ∷ allocated p ∷ t)
keeps_sent s bytes ip port p t = record {
  same = λ x. (refl, refl, omega arith);
  careful = λ b c. (omega (arith, b p, one_if_self p), c);
}

pub keeps_sent_if :
    (s : Option ℕ) (bytes : List ℕ) (ip port nif p : ℕ) (t : Trace)
    → KeepsCounts t (freed p ∷ sent_if s bytes ip port nif ∷ allocated p ∷ t)
keeps_sent_if s bytes ip port nif p t = record {
  same = λ x. (refl, refl, omega arith);
  careful = λ b c. (omega (arith, b p, one_if_self p), c);
}

pub KeepsCounts-self : (t : Trace) → KeepsCounts t t
KeepsCounts-self t = record { same = λ x. (refl, refl, omega arith); careful = λ b c. c }

-- A datagram's buffer is given back behind what is done with it.
pub keeps_arrived :
    (p : ℕ) (t t' : Trace) → KeepsCounts (arrived p ∷ t) t' → KeepsCounts t (freed p ∷ t')
keeps_arrived p t t' k = record {
  same = λ x. (let s = k.same x in (s.0, s.1, omega (arith, s.2)));
  careful = λ b c.
      (let s = k.same p in
        (omega (arith, s.2, b p, one_if_self p), k.careful (λ x. omega (arith, b x)) c));
}

pub IsTidy-KeepsCounts : (s : Option ℕ) (t t' : Trace) → IsTidy s t → KeepsCounts t t' → IsTidy s t'
IsTidy-KeepsCounts s t t' h k = record {
  sockets = λ x. (let e = k.same x in omega (arith, h.sockets x, e.0, e.1));
  buffers = λ x. (let e = k.same x in omega (arith, h.buffers x, e.2));
  careful = k.careful (λ x. omega (arith, h.buffers x)) h.careful;
}

-- The server closes its socket, or comes to have one.
pub IsTidy-removed : (s : ℕ) (t : Trace) → IsTidy (some s) t → IsTidy none (removed s ∷ t)
IsTidy-removed s t h = record {
  sockets = λ x. omega (arith, h.sockets x);
  buffers = h.buffers;
  careful = (omega (arith, h.sockets s, one_if_self s), h.careful);
}

pub IsTidy-created : (s : ℕ) (t : Trace) → IsTidy none t → IsTidy (some s) (created s ∷ t)
IsTidy-created s t h = record {
  sockets = λ x. omega (arith, h.sockets x);
  buffers = h.buffers;
  careful = h.careful;
}
