-- ===== src/Drivers/Interleaving.antt =====
-- The drivers in tasks that run at once: the operations of the tasks on the bus in any order that the
-- mutex allows. mutex_enter_blocking (of the pico-sdk) goes on only while nobody has the mutex.
use hk_rtos.Base.{
  ℕ, ◌≡◌, ◌≢◌, refl, sym, ◌∙◌, arith, Bool, true, false, Option, none, some, List, [], ◌∷◌, ◌++◌,
  ◌==◌, Bool-cases, inl, inr, if◌then◌else◌,
}
use hk_rtos.Bus.{BusOp, enter, leave, writes, reads, Trace, Device}
use hk_rtos.Bus.Discipline.{LockState, free, taken, broken, after, lock_state}
use hk_rtos.F32.{F32}
use hk_rtos.Drivers.{Reach, Reach-free}

-- What the tasks have done on the bus, newest first, each with its task.
abbrev pub History : Type 0
History = List (ℕ × BusOp)

-- What one of them has done.
abbrev pub ops_of : ℕ → History → Trace
ops_of i [] = []
ops_of i ((j, op) ∷ g) = if j == i then op ∷ ops_of i g else ops_of i g

-- Who has the mutex.
abbrev owner_after : ℕ → BusOp → Option ℕ → Option ℕ
owner_after j enter o = some j
owner_after j leave o = none
owner_after j op o = o

abbrev pub owner : History → Option ℕ
owner [] = none
owner ((j, op) ∷ g) = owner_after j op (owner g)

-- The orders that the mutex allows.
abbrev pub Waits : BusOp → Option ℕ → Type 0
Waits enter o = o ≡ none
Waits op o = Unit

abbrev pub IsBlocking : History → Type 0
IsBlocking [] = Unit
IsBlocking ((j, op) ∷ g) = Waits op (owner g) × IsBlocking g

-- What a task has done so far is the beginning of some calls of the drivers, on devices that gave the
-- answers that it got.
abbrev pub IsBegun : F32 → Trace → Type 0
IsBegun fl t = (dev : Device) × (rest : Trace) × Reach dev fl (rest ++ t)

abbrev pub AllBegun : F32 → History → Type 0
AllBegun fl [] = Unit
AllBegun fl ((j, op) ∷ g) = IsBegun fl (ops_of j ((j, op) ∷ g)) × AllBegun fl g

-- Every transfer, and every leaving of the mutex, is by the task that has it.
abbrev Owns : ℕ → BusOp → Option ℕ → Type 0
Owns j enter o = Unit
Owns j op o = o ≡ some j

abbrev pub IsExclusive : History → Type 0
IsExclusive [] = Unit
IsExclusive ((j, op) ∷ g) = Owns j op (owner g) × IsExclusive g

after-broken : (op : BusOp) → after op broken ≡ broken
after-broken enter = refl
after-broken leave = refl
after-broken (writes a bs n) = refl
after-broken (reads a k n) = refl

begun_unbroken : (rest t : Trace) → lock_state t ≡ broken → lock_state (rest ++ t) ≡ broken
begun_unbroken [] t e = e
begun_unbroken (op ∷ rest) t e = rw (begun_unbroken rest t e) (after-broken op)

IsBegun-unbroken : (fl : F32) (t : Trace) → IsBegun fl t → lock_state t ≢ broken
IsBegun-unbroken fl t (dev, rest, r) e =
    let f = Reach-free r in let b = begun_unbroken rest t e in cc

-- The state of a task, as its own operations leave it, where `o` has the mutex.
abbrev owns : Option ℕ → ℕ → Bool
owns none i = false
owns (some j) i = j == i

abbrev state_of : Bool → LockState
state_of true = taken
state_of false = free

abbrev IsAgreed : History → Type 0
IsAgreed g = (i : ℕ) → lock_state (ops_of i g) ≡ state_of (owns (owner g) i)

-- Only the task that has the mutex is in the state `taken`.
owner_taken : (o : Option ℕ) (j : ℕ) → state_of (owns o j) ≡ taken → o ≡ some j
owner_taken none j e = absurd (ground arith)
owner_taken (some k) j e = elim (Bool-cases (k == j)) [
  | inl same ↦ let s : k ≡ j = ground arith in rw s refl
  | inr other ↦ let no : state_of false ≡ taken = rw other at e in absurd (ground arith)
]

-- A transfer, or a leaving, that keeps the rule is made in the state `taken`.
transfer_taken : (a k : ℕ) (n : Bool) (s : LockState) → after (reads a k n) s ≢ broken → s ≡ taken
transfer_taken a k n free u = absurd (u refl)
transfer_taken a k n taken u = refl
transfer_taken a k n broken u = absurd (u refl)

leave_taken : (s : LockState) → after leave s ≢ broken → s ≡ taken
leave_taken free u = absurd (u refl)
leave_taken taken u = refl
leave_taken broken u = absurd (u refl)

-- A step of the task `j`: the state of another task stays, and its own goes on by the operation.
module _ (j : ℕ) (g : History) (agreed : IsAgreed g) where
  own_state :
      (op : BusOp) → lock_state (ops_of j ((j, op) ∷ g)) ≡ after op (lock_state (ops_of j g))
  own_state op = let same : (j == j) ≡ true = ground arith in rw same refl

  owner_at : lock_state (ops_of j g) ≡ taken → owner g ≡ some j
  owner_at e = owner_taken (owner g) j (sym (agreed j) ∙ e)

  enter-IsAgreed : owner g ≡ none → IsAgreed ((j, enter) ∷ g)
  enter-IsAgreed idle i =
      let before : lock_state (ops_of i g) ≡ free = agreed i ∙ rw idle refl in
      elim (Bool-cases (j == i)) [
        | inl same ↦ rw (same, before) refl
        | inr other ↦ rw (other, before) refl
      ]

  leave-IsAgreed : owner g ≡ some j → IsAgreed ((j, leave) ∷ g)
  leave-IsAgreed mine i =
      let before : lock_state (ops_of i g) ≡ state_of (j == i) = agreed i ∙ rw mine refl in
      elim (Bool-cases (j == i)) [
        | inl same ↦ (let at_i = rw same at before in rw (same, at_i) refl)
        | inr other ↦ (let at_i = rw other at before in rw (other, at_i) refl)
      ]

  transfer-IsAgreed :
      (op : BusOp)
      → after op taken ≡ taken
      → owner ((j, op) ∷ g) ≡ owner g
      → owner g ≡ some j
      → IsAgreed ((j, op) ∷ g)
  transfer-IsAgreed op stays keeps mine i =
      let before : lock_state (ops_of i g) ≡ state_of (j == i) = agreed i ∙ rw mine refl in
      let now : state_of (owns (owner ((j, op) ∷ g)) i) ≡ state_of (j == i) =
        rw (keeps, mine) refl in
      elim (Bool-cases (j == i)) [
        | inl same ↦
            (let at_i = rw same at before in
              let now_i = rw same at now in rw (same, at_i, now_i) stays)
        | inr other ↦
            (let at_i = rw other at before in
              let now_i = rw other at now in rw (other, at_i, now_i) refl)
      ]

  -- The operation is the task's to make, and the states agree after it.
  step-IsAgreed :
      (op : BusOp)
      → after op (lock_state (ops_of j g)) ≢ broken
      → Waits op (owner g)
      → Owns j op (owner g) × IsAgreed ((j, op) ∷ g)
  step-IsAgreed enter u idle = (tt, enter-IsAgreed idle)
  step-IsAgreed leave u w =
      let mine = owner_at (leave_taken (lock_state (ops_of j g)) u) in (mine, leave-IsAgreed mine)
  step-IsAgreed (writes a bs n) u w =
      let mine = owner_at (transfer_taken a 0 n (lock_state (ops_of j g)) u) in
      (mine, transfer-IsAgreed (writes a bs n) refl refl mine)
  step-IsAgreed (reads a k n) u w =
      let mine = owner_at (transfer_taken a k n (lock_state (ops_of j g)) u) in
      (mine, transfer-IsAgreed (reads a k n) refl refl mine)

both : (fl : F32) (g : History) → IsBlocking g → AllBegun fl g → IsAgreed g × IsExclusive g
both fl [] b a = (λ i. refl, tt)
both fl ((j, op) ∷ g) b a =
    let before = both fl g b.1 a.1 in
    let own = own_state j g before.0 op in
    let u : after op (lock_state (ops_of j g)) ≢ broken =
      λ e. IsBegun-unbroken fl (ops_of j ((j, op) ∷ g)) a.0 (own ∙ e) in
    let s = step-IsAgreed j g before.0 op u b.0 in (s.1, (s.0, before.1))

-- Let tasks call the drivers at once, in any order that the mutex allows, each doing what the drivers do
-- with the answers that it gets. Then every transfer is made by the task that has the mutex, and nobody
-- else leaves it: between the entering and the leaving of a task, no other has the bus.
pub interleaved-IsExclusive :
    (fl : F32) (g : History) → IsBlocking g → AllBegun fl g → IsExclusive g
interleaved-IsExclusive fl g b a = (both fl g b a).1
