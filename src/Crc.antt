-- ===== src/Crc.antt =====
-- What the checksums of the sensor drivers have in common: a state of one byte that takes in one
-- byte at a time, and the transition of the polynomial 0x31 on one byte.
use hk_rtos.Base.{ℕ, zero, suc, ◌+◌, ◌^◌, ◌≤◌, ◌<◌, ◌≡◌, ◌≢◌, arith}
use hk_rtos.Base.{inl, inr, ◌⊎◌, ap, sym, ◌∙◌}

-- A buffer in memory: the byte at each index.
abbrev pub Buffer : Type 0
Buffer = ℕ → ℕ

abbrev pub IsBytes : Buffer → Type 0
IsBytes d = (i : ℕ) → d i < 2 ^ 8

-- `left` bytes from index `i` on, taken in one after the other.
abbrev pub absorb : (ℕ → ℕ → ℕ) → Buffer → ℕ → ℕ → ℕ → ℕ
absorb step d zero i c = c
absorb step d (suc left) i c = absorb step d left (i + 1) (step c (d i))

-- A transition that stays in a byte and loses neither the state nor the byte it takes in.
pub record ByteStep (step : ℕ → ℕ → ℕ) : Type 0 where
  pub bounded : (c b : ℕ) → c < 2 ^ 8 → b < 2 ^ 8 → step c b < 2 ^ 8
  pub state_inj : (c c' b : ℕ) → c < 2 ^ 8 → c' < 2 ^ 8 → b < 2 ^ 8 → step c b ≡ step c' b → c ≡ c'
  pub byte_inj : (c b b' : ℕ) → c < 2 ^ 8 → b < 2 ^ 8 → b' < 2 ^ 8 → step c b ≡ step c b' → b ≡ b'

module _ (step : ℕ → ℕ → ℕ) (s : ByteStep step) where
  pub absorb-lt :
      (d : Buffer) (left i c : ℕ) → IsBytes d → c < 2 ^ 8 → absorb step d left i c < 2 ^ 8
  absorb-lt d zero i c bytes h = h
  absorb-lt d (suc left) i c bytes h =
      absorb-lt d left (i + 1) (step c (d i)) bytes (s.bounded c (d i) h (bytes i))

  -- Where the bytes agree, different states stay different.
  absorb_inj :
      (d d' : Buffer) (left i c c' : ℕ)
      → IsBytes d
      → IsBytes d'
      → c < 2 ^ 8
      → c' < 2 ^ 8
      → ((j : ℕ) → i ≤ j → d j ≡ d' j)
      → absorb step d left i c ≡ absorb step d' left i c'
      → c ≡ c'
  absorb_inj d d' zero i c c' bytes bytes' h h' same e = e
  absorb_inj d d' (suc left) i c c' bytes bytes' h h' same e =
      let here : d i ≡ d' i = same i (omega arith) in
      s.state_inj c c' (d i) h h' (bytes i) (
        absorb_inj d d' left (i + 1) (step c (d i)) (step c' (d' i)) bytes bytes'
          (s.bounded c (d i) h (bytes i)) (s.bounded c' (d' i) h' (bytes' i))
          (λ j p. same j (omega arith)) e
        ∙ ap (step c') (sym here))

  -- Two runs from one state over buffers that differ in exactly one byte end in different states.
  pub absorb_detects :
      (d d' : Buffer) (left i c k : ℕ)
      → IsBytes d
      → IsBytes d'
      → c < 2 ^ 8
      → i ≤ k
      → k < i + left
      → d k ≢ d' k
      → ((j : ℕ) → j ≢ k → d j ≡ d' j)
      → absorb step d left i c ≢ absorb step d' left i c
  absorb_detects d d' zero i c k bytes bytes' h lo hi bad same e = absurd (omega arith)
  absorb_detects d d' (suc left) i c k bytes bytes' h lo hi bad same e = elim (where_is i k lo) [
    | inl here ↦
        let at_i : d i ≢ d' i = rw here bad in
        at_i (
          s.byte_inj c (d i) (d' i) h (bytes i) (bytes' i) (
            absorb_inj d d' left (i + 1) (step c (d i)) (step c (d' i)) bytes bytes'
              (s.bounded c (d i) h (bytes i)) (s.bounded c (d' i) h (bytes' i))
              (λ j p. same j (omega arith)) e))
    | inr later ↦
        let here : d i ≡ d' i = same i (omega arith) in
        absorb_detects d d' left (i + 1) (step c (d i)) k bytes bytes'
          (s.bounded c (d i) h (bytes i)) later (omega arith) bad same
          (e ∙ ap (λ b. absorb step d' left (i + 1) (step c b)) (sym here))
  ]
    where
      where_is : (i k : ℕ) → i ≤ k → (i ≡ k) ⊎ (i + 1 ≤ k)
      where_is i k lo = omega arith
