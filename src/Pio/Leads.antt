-- ===== src/Pio/Leads.antt =====
-- Runs of a state machine.
use native.Mathlib.Nat.{add-mul}
use hk_rtos.Base.{ℕ, zero, suc, ◌+◌, ◌*◌, ◌^◌, ◌≤◌, ◌<◌, ◌≡◌, arith, Bool, not, List}
use hk_rtos.Pio.{Config, State, Op, step}

module _ (c : Config) (p : List Op) (line : ℕ → Bool) (ok : State → Type 0) where
  -- The machine gets from a state to another, and what is claimed holds in each state that it gets to.
  -- The direction and the level of such a state are those of the pin during the last step.
  pub data Leads : State → State → Type 0 where
    stays : (s : State) → Leads s s
    goes : (s s' : State) → ok (step c p line s) → Leads (step c p line s) s' → Leads s s'

module _ {c : Config} {p : List Op} {line : ℕ → Bool} {ok : State → Type 0} where
  pub Leads-then :
      (s s' s'' : State)
      → Leads c p line ok s s'
      → Leads c p line ok s' s''
      → Leads c p line ok s s''
  Leads-then s s' s'' (stays t) m = m
  Leads-then s s' s'' (goes t t' h l) m = goes t s'' h (Leads-then (step c p line t) t' s'' l m)

  -- A step whose result is known.
  pub goes_to :
      (s r s' : State)
      → step c p line s ≡ r
      → ok r
      → Leads c p line ok r s'
      → Leads c p line ok s s'
  goes_to s r s' e h l = goes s s' (rw e h) (rw e l)

  -- A wait for a level, which the line has at the time `t + n` and not before.
  pub waits :
      (v : Bool) (at after : ℕ → State)
      → ((u : ℕ) → line u ≡ not v → step c p line (at u) ≡ at (u + 1))
      → ((u : ℕ) → line u ≡ v → step c p line (at u) ≡ after u)
      → ((u : ℕ) → ok (at u))
      → ((u : ℕ) → ok (after u))
      → (n t : ℕ) → ((u : ℕ) → t ≤ u → u < t + n → line u ≡ not v)
      → line (t + n) ≡ v
      → Leads c p line ok (at t) (after (t + n))
  waits v at after stall go ok_at ok_after zero t before now =
      let z : t + 0 ≡ t = omega arith in
      let now' : line t ≡ v = rw z at now in
      rw z (goes_to (at t) (after t) (after t) (go t now') (ok_after t) (stays (after t)))
  waits v at after stall go ok_at ok_after (suc n) t before now =
      let z : t + suc n ≡ t + 1 + n = omega arith in
      let later =
        waits v at after stall go ok_at ok_after n (t + 1)
          (λ u le lt. before u (omega arith) (omega arith)) (rw z at now) in
      rw z (
        goes_to (at t) (at (t + 1)) (after (t + 1 + n))
          (stall t (before t (omega arith) (omega arith))) (ok_at (t + 1)) later)

  -- A loop of `jmp x--` to itself, with a counter `n` and in each round `d` ticks.
  pub counts :
      (d : ℕ) (at : ℕ → ℕ → State) (after : ℕ → State)
      → ((u : ℕ) → step c p line (at 0 u) ≡ after (u + d))
      → ((n u : ℕ) → suc n < 2 ^ 32 → step c p line (at (suc n) u) ≡ at n (u + d))
      → ((n u : ℕ) → ok (at n u))
      → ((u : ℕ) → ok (after u))
      → (n t : ℕ) → n < 2 ^ 32
      → Leads c p line ok (at n t) (after (t + suc n * d))
  counts d at after last round ok_at ok_after zero t few =
      let e : t + 1 * d ≡ t + d = omega arith in
      rw e (
        goes_to (at 0 t) (after (t + d)) (after (t + d)) (last t) (ok_after (t + d))
          (stays (after (t + d))))
  counts d at after last round ok_at ok_after (suc n) t few =
      let e : t + suc (suc n) * d ≡ t + d + suc n * d =
        (let m = add-mul 1 (suc n) d in omega (arith, m)) in
      rw e (
        goes_to (at (suc n) t) (at n (t + d)) (after (t + d + suc n * d)) (round n t few)
          (ok_at n (t + d)) (counts d at after last round ok_at ok_after n (t + d) (omega arith)))
