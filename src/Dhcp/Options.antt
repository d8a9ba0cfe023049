-- ===== src/Dhcp/Options.antt =====
-- What the search for an option gives in a message as RFC 2132 describes it.
use hk_rtos.Base.{
  ℕ, zero, suc, ◌+◌, ◌≤◌, ◌<◌, ◌≡◌, arith, Option, none, some, List, [], ◌∷◌, length,
}
use hk_rtos.Base.{Holds, ◌==◌, if◌then◌else◌}
use hk_rtos.Crc.{Buffer}
use hk_rtos.Dhcp.{opt_find, opt_find_from, opt_end}

-- An option of RFC 2132, with its code and its bytes of data.
abbrev pub Opt : Type 0
Opt = ℕ × List ℕ

-- Its bytes in a message.
abbrev pub encoded : Opt → List ℕ
encoded o = o.0 ∷ length o.1 ∷ o.1

-- Options in a row, with the end mark behind them, within the 308 bytes; none of them is the end mark
-- or the padding, which have no length byte.
abbrev pub Carries : Buffer → ℕ → List Opt → Type 0
Carries b i [] = (i < 308) × (b i ≡ opt_end)
Carries b i (o ∷ os) =
    (0 < o.0) × (o.0 < opt_end) × Holds b i (encoded o) × Carries b (i + (2 + length o.1)) os

-- Where the first option with a code begins, when the first of all begins at an index.
abbrev pub position : ℕ → ℕ → List Opt → Option ℕ
position cmd i [] = none
position cmd i (o ∷ os) =
    let rest = position cmd (i + (2 + length o.1)) os in if o.0 == cmd then some i else rest

Carries-lt : (b : Buffer) (i : ℕ) (os : List Opt) → Carries b i os → i < 308
Carries-lt b i [] c = c.0
Carries-lt b i (o ∷ os) c = omega (arith, Carries-lt b (i + (2 + length o.1)) os c.3)

finds :
    (b : Buffer) (cmd fuel i : ℕ) (os : List Opt)
    → 308 ≤ i + fuel
    → Carries b i os
    → opt_find_from fuel b cmd i ≡ position cmd i os
unfolding opt_find_from
finds b cmd zero i os enough c = absurd (omega (arith, Carries-lt b i os c))
finds b cmd (suc fuel) i [] enough c = ground (arith, c.0, c.1)
finds b cmd (suc fuel) i (o ∷ os) enough (lo, hi, (code, (len, bytes)), c) =
    let rest = finds b cmd fuel (i + (2 + length o.1)) os (omega arith) c in
    let lt = Carries-lt b (i + (2 + length o.1)) os c in rw (code, len) (ground (arith, rest, lt))

-- In a message whose options stand in a row as RFC 2132 encodes them, without padding and with the end
-- mark within the 308 bytes, the search ends and gives where the first option with the code begins,
-- or nothing when there is none.
pub opt_find-position :
    (b : Buffer) (cmd : ℕ) (os : List Opt) → Carries b 0 os → opt_find b cmd ≡ position cmd 0 os
unfolding opt_find
opt_find-position b cmd os c = finds b cmd 308 0 os (omega arith) c
