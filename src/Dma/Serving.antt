-- ===== src/Dma/Serving.antt =====
-- Which interrupts the handlers serve, and which semaphores they give.
use hk_rtos.Base.{
  ℕ, zero, suc, ◌+◌, ◌≤◌, ◌<◌, ◌≡◌, ◌∙◌, refl, sym, arith, Bool, true, false, Option, none, some,
  List, [], ◌∷◌, ◌||◌, ◌==◌, inl, inr, ◌⊎◌, Bool-cases, if◌then◌else◌,
}
use hk_rtos.Dma.{State, max_channels, wake, irq0_from, irq0}
use hk_rtos.Dma.Channels.{Irq}

-- Whether a semaphore is among those given.
pub is_given : ℕ → List ℕ → Bool
is_given s [] = false
is_given s (t ∷ ts) = (s == t) || is_given s ts

-- The semaphores that are given for a channel, if it waits.
abbrev woken : Bool → Option (Option ℕ) → List ℕ → List ℕ
woken b x rest = if b then wake x rest else rest

woken_here :
    (b : Bool) (s : ℕ) (x : Option (Option ℕ)) (rest : List ℕ)
    → b ≡ true
    → x ≡ some (some s)
    → is_given s (woken b x rest) ≡ true
unfolding is_given wake
woken_here b s x rest h e = let same : (s == s) ≡ true = ground arith in rw (h, e, same) refl

woken_later :
    (b : Bool) (s : ℕ) (x : Option (Option ℕ)) (rest : List ℕ)
    → is_given s rest ≡ true
    → is_given s (woken b x rest) ≡ true
unfolding is_given wake
woken_later false s x rest h = h
woken_later true s none rest h = h
woken_later true s (some none) rest h = h
woken_later true s (some (some t)) rest h = ground arith

woken_cases :
    (b : Bool) (s : ℕ) (x : Option (Option ℕ)) (rest : List ℕ)
    → is_given s (woken b x rest) ≡ true
    → ((b ≡ true) × (x ≡ some (some s))) ⊎ (is_given s rest ≡ true)
unfolding is_given wake
woken_cases false s x rest h = inr h
woken_cases true s none rest h = inr h
woken_cases true s (some none) rest h = inr h
woken_cases true s (some (some t)) rest h = elim (Bool-cases (s == t)) [
  | inl e ↦ (let same : t ≡ s = ground arith in inl (refl, rw same refl))
  | inr e ↦ inr (rw e at h)
]

module _ (irq : Irq) where
  open irq use {P, status, acknowledge, status-acknowledge, status-acknowledge_other}

  -- A channel among `left` ones from `channel` on whose DHT has the semaphore and waits.
  pub record Waits (s left channel : ℕ) (dht : ℕ → Option (Option ℕ)) (p : P) : Type 0 where
    pub at : ℕ
    pub from : channel ≤ at
    pub upto : at < channel + left
    pub pending : status at p ≡ true
    pub semaphore : dht at ≡ some (some s)

  acknowledged : ℕ → P → P
  acknowledged c p = if status c p then acknowledge c p else p

  status-acknowledged : (c : ℕ) (p : P) → status c (acknowledged c p) ≡ false
  unfolding acknowledged
  status-acknowledged c p = elim (Bool-cases (status c p)) [
    | inl e ↦ rw e (status-acknowledge c p)
    | inr e ↦ rw (e, e) refl
  ]

  status-acknowledged_other :
      (c d : ℕ) (p : P) → (d == c) ≡ false → status d (acknowledged c p) ≡ status d p
  unfolding acknowledged
  status-acknowledged_other c d p h = elim (Bool-cases (status c p)) [
    | inl e ↦ rw e (status-acknowledge_other c d p h)
    | inr e ↦ rw e refl
  ]

  irq0_from-other :
      (left channel d : ℕ) (dht : ℕ → Option (Option ℕ)) (p : P)
      → (d < channel) ⊎ (channel + left ≤ d)
      → status d (irq0_from irq left channel dht p).0 ≡ status d p
  unfolding irq0_from acknowledged
  irq0_from-other zero channel d dht p h = refl
  irq0_from-other (suc left) channel d dht p h =
      irq0_from-other left (channel + 1) d dht (acknowledged channel p) (ground arith)
      ∙ status-acknowledged_other channel d p (ground arith)

  irq0_from-clears :
      (left channel d : ℕ) (dht : ℕ → Option (Option ℕ)) (p : P)
      → channel ≤ d
      → d < channel + left
      → status d (irq0_from irq left channel dht p).0 ≡ false
  unfolding irq0_from acknowledged
  irq0_from-clears zero channel d dht p h lt = absurd (omega arith)
  irq0_from-clears (suc left) channel d dht p h lt = elim (Bool-cases (d == channel)) [
    | inl e ↦
        let here : d ≡ channel = ground arith in
        irq0_from-other left (channel + 1) d dht (acknowledged channel p) (inl (omega arith))
        ∙ rw here (status-acknowledged channel p)
    | inr e ↦
        irq0_from-clears left (channel + 1) d dht (acknowledged channel p) (ground arith)
          (ground arith)
  ]

  Waits-suc :
      (s left channel : ℕ) (dht : ℕ → Option (Option ℕ)) (p : P)
      → Waits s left (channel + 1) dht (acknowledged channel p)
      → Waits s (suc left) channel dht p
  Waits-suc s left channel dht p w =
      let from = w.from in
      let upto = w.upto in
      record {
        at = w.at;
        from = omega arith;
        upto = omega arith;
        pending = sym (status-acknowledged_other channel w.at p (ground arith)) ∙ w.pending;
        semaphore = w.semaphore;
      }

  irq0_from-only :
      (left channel s : ℕ) (dht : ℕ → Option (Option ℕ)) (p : P)
      → is_given s (irq0_from irq left channel dht p).1 ≡ true
      → Waits s left channel dht p
  unfolding irq0_from acknowledged is_given
  irq0_from-only zero channel s dht p h = absurd cc
  irq0_from-only (suc left) channel s dht p h =
      elim (woken_cases (status channel p) s (dht channel) _ h) [
        | inl here ↦ record {
          at = channel;
          from = omega arith;
          upto = omega arith;
          pending = here.0;
          semaphore = here.1;
        }
        | inr later ↦
            Waits-suc s left channel dht p
              (irq0_from-only left (channel + 1) s dht (acknowledged channel p) later)
      ]

  irq0_from-gives :
      (left channel s : ℕ) (dht : ℕ → Option (Option ℕ)) (p : P)
      → Waits s left channel dht p
      → is_given s (irq0_from irq left channel dht p).1 ≡ true
  unfolding irq0_from acknowledged
  irq0_from-gives zero channel s dht p w = let a = w.from in let b = w.upto in absurd (omega arith)
  irq0_from-gives (suc left) channel s dht p w =
      let from = w.from in
      let upto = w.upto in
      elim (Bool-cases (w.at == channel)) [
        | inl e ↦
            let here : w.at ≡ channel = ground arith in
            woken_here (status channel p) s (dht channel) _ (rw here at w.pending)
              (rw here at w.semaphore)
        | inr e ↦ woken_later (status channel p) s (dht channel) _ (
            irq0_from-gives left (channel + 1) s dht (acknowledged channel p) (record {
              at = w.at;
              from = ground arith;
              upto = omega arith;
              pending = status-acknowledged_other channel w.at p e ∙ w.pending;
              semaphore = w.semaphore;
            }))
      ]

  -- What the handler of the DHT sensors does with the pending interrupts.
  pub record Serves (s : State) (p : P) (result : P × List ℕ) : Type 0 where
    pub clears : (c : ℕ) → c < max_channels → status c result.0 ≡ false
    pub keeps : (c : ℕ) → max_channels ≤ c → status c result.0 ≡ status c p
    pub gives : (t : ℕ) → Waits t max_channels 0 s.dht p → is_given t result.1 ≡ true
    pub only : (t : ℕ) → is_given t result.1 ≡ true → Waits t max_channels 0 s.dht p

  pub irq0-Serves : (s : State) (p : P) → Serves s p (irq0 irq s p)
  unfolding irq0
  irq0-Serves s p = record {
    clears = λ c h. irq0_from-clears max_channels 0 c s.dht p (omega arith) (omega arith);
    keeps = λ c h. irq0_from-other max_channels 0 c s.dht p (inr (omega arith));
    gives = λ t w. irq0_from-gives max_channels 0 t s.dht p w;
    only = λ t h. irq0_from-only max_channels 0 t s.dht p h;
  }
