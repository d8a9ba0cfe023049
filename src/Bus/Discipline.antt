-- ===== src/Bus/Discipline.antt =====
-- The rule that a driver keeps on a shared bus: each transfer is made while the mutex is held, the
-- mutex is not entered twice nor left when it is free.
use hk_rtos.Base.{◌≡◌, [], ◌∷◌}
use hk_rtos.Bus.{BusOp, enter, leave, writes, reads, Trace, M, ◌>>=◌}

pub data LockState : Type 0 where
  free taken broken : LockState

abbrev on_enter : LockState → LockState
on_enter free = taken
on_enter _ = broken

abbrev on_leave : LockState → LockState
on_leave taken = free
on_leave _ = broken

abbrev on_transfer : LockState → LockState
on_transfer taken = taken
on_transfer _ = broken

abbrev pub after : BusOp → LockState → LockState
after enter s = on_enter s
after leave s = on_leave s
after (writes a bs n) s = on_transfer s
after (reads a k n) s = on_transfer s

-- The state of the mutex after a run.
abbrev pub lock_state : Trace → LockState
lock_state [] = free
lock_state (op ∷ t) = after op (lock_state t)

-- A run that keeps the rule, and leaves the mutex free.
abbrev pub Releases : {A : Type 0} → M A → Type 0
Releases m = (t : Trace) → lock_state t ≡ free → lock_state (m t).1 ≡ free

pub >>=-Releases :
    {A B : Type 0} (m : M A) (k : A → M B)
    → Releases m
    → ((a : A) → Releases (k a))
    → Releases (m >>= k)
>>=-Releases m k first rest t idle = rest (m t).0 (m t).1 (first t idle)
