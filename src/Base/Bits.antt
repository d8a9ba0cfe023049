-- ===== src/Base/Bits.antt =====
-- The bit operations of C at variables: one law for the lowest digit of each, and what follows.
use Prim.Native.Nat.{
  ℕ, zero, suc, ◌+◌, ◌-◌, ◌*◌, ◌/◌, ◌%◌, ◌^◌, ◌≤◌, ◌<◌, min, max, digits, bitwise,
}
use Prim.Native.Nat.{
  bit_and, bit_or, bit_xor, bit_and-bitwise, bit_or-bitwise, bit_xor-bitwise, differ,
}
use mathlib.Core.Path.{◌≡◌, refl, ap}
use mathlib.Core.Bool.{Bool, true, ◌&&◌}
use native.Mathlib.Nat.{pow-suc, one-le-pow}
use native.Mathlib.Omega.{arith}

-- `bitwise` runs through binary digits on fuel; fuel for the first argument gives the same as more.
module _ (z : ℕ → ℕ) (f : ℕ → ℕ → ℕ) where
  more_fuel : (k n a b : ℕ) → n ≤ k → a ≤ n → digits z f n a b ≡ digits z f a a b
  more_fuel k zero (suc a) b top h = absurd (omega arith)
  more_fuel k zero zero b top h = refl
  more_fuel k (suc n) zero b top h = refl
  more_fuel zero (suc n) (suc a) b top h = absurd (omega arith)
  more_fuel (suc k) (suc n) (suc a) b top h =
      let here = more_fuel k n (suc a / 2) (b / 2) (omega arith) (omega arith) in
      let there = more_fuel k a (suc a / 2) (b / 2) (omega arith) (omega arith) in
      rw (here, there) refl

  -- The lowest digit apart, for an operation that `z` agrees with at zero.
  lowest_digit :
      ((b : ℕ) → z b ≡ z (b / 2) * 2 + f 0 (b % 2))
      → (a b : ℕ) → bitwise z f a b ≡ bitwise z f (a / 2) (b / 2) * 2 + f (a % 2) (b % 2)
  lowest_digit agrees zero b = agrees b
  lowest_digit agrees (suc a) b =
      let e = more_fuel a a (suc a / 2) (b / 2) (omega arith) (omega arith) in omega (arith, e)

bit_or_step : (a b : ℕ) → bit_or a b ≡ bit_or (a / 2) (b / 2) * 2 + max (a % 2) (b % 2)
bit_or_step a b = simp bit_or-bitwise (lowest_digit (λ y. y) max (λ c. omega arith) a b)

bit_and_step : (a b : ℕ) → bit_and a b ≡ bit_and (a / 2) (b / 2) * 2 + min (a % 2) (b % 2)
bit_and_step a b = simp bit_and-bitwise (lowest_digit (λ y. 0) min (λ c. omega arith) a b)

differ_mod : (x y : ℕ) → x < 2 → y < 2 → differ x y ≡ (x + y) % 2
differ_mod zero zero p q = refl
differ_mod zero (suc zero) p q = refl
differ_mod (suc zero) zero p q = refl
differ_mod (suc zero) (suc zero) p q = refl
differ_mod zero (suc (suc y)) p q = absurd (omega arith)
differ_mod (suc zero) (suc (suc y)) p q = absurd (omega arith)
differ_mod (suc (suc x)) y p q = absurd (omega arith)

xor_digits : (a b : ℕ) → bit_xor a b ≡ bit_xor (a / 2) (b / 2) * 2 + differ (a % 2) (b % 2)
xor_digits a b = simp bit_xor-bitwise (
    lowest_digit (λ y. y) differ
      (λ c. omega (arith, differ_mod 0 (c % 2) (omega arith) (omega arith))) a b)

pub bit_xor_zero : (b : ℕ) → bit_xor 0 b ≡ b
bit_xor_zero b = simp bit_xor-bitwise refl

pub bit_xor_step : (a b : ℕ) → bit_xor a b ≡ bit_xor (a / 2) (b / 2) * 2 + (a + b) % 2
bit_xor_step a b =
    omega (arith, xor_digits a b, differ_mod (a % 2) (b % 2) (omega arith) (omega arith))

-- The fuel bounds the arguments, which halve at each step.
xor_comm_fuel : (n a b : ℕ) → a ≤ n → b ≤ n → bit_xor a b ≡ bit_xor b a
xor_comm_fuel zero zero zero p q = refl
xor_comm_fuel zero (suc a) b p q = absurd (omega arith)
xor_comm_fuel zero zero (suc b) p q = absurd (omega arith)
xor_comm_fuel (suc n) a b p q = omega (
  arith,
  bit_xor_step a b,
  bit_xor_step b a,
  xor_comm_fuel n (a / 2) (b / 2) (omega arith) (omega arith),
)

pub bit_xor_comm : (a b : ℕ) → bit_xor a b ≡ bit_xor b a
bit_xor_comm a b = xor_comm_fuel (a + b) a b (omega arith) (omega arith)

xor_cancel_fuel : (n a b : ℕ) → a ≤ n → b ≤ n → bit_xor (bit_xor a b) b ≡ a
xor_cancel_fuel zero zero zero p q = refl
xor_cancel_fuel zero (suc a) b p q = absurd (omega arith)
xor_cancel_fuel zero zero (suc b) p q = absurd (omega arith)
xor_cancel_fuel (suc n) a b p q =
    let half : bit_xor a b / 2 ≡ bit_xor (a / 2) (b / 2) = omega (arith, bit_xor_step a b) in
    omega (
      arith,
      bit_xor_step a b,
      bit_xor_step (bit_xor a b) b,
      ap (λ t. bit_xor t (b / 2)) half,
      xor_cancel_fuel n (a / 2) (b / 2) (omega arith) (omega arith),
    )

pub bit_xor_cancel : (a b : ℕ) → bit_xor (bit_xor a b) b ≡ a
bit_xor_cancel a b = xor_cancel_fuel (a + b) a b (omega arith) (omega arith)

xor_assoc_fuel :
    (n a b c : ℕ) → a ≤ n → b ≤ n → c ≤ n → bit_xor (bit_xor a b) c ≡ bit_xor a (bit_xor b c)
xor_assoc_fuel zero zero zero zero p q r = refl
xor_assoc_fuel zero (suc a) b c p q r = absurd (omega arith)
xor_assoc_fuel zero zero (suc b) c p q r = absurd (omega arith)
xor_assoc_fuel zero zero zero (suc c) p q r = absurd (omega arith)
xor_assoc_fuel (suc n) a b c p q r =
    let left : bit_xor a b / 2 ≡ bit_xor (a / 2) (b / 2) = omega (arith, bit_xor_step a b) in
    let right : bit_xor b c / 2 ≡ bit_xor (b / 2) (c / 2) = omega (arith, bit_xor_step b c) in
    omega (
      arith,
      bit_xor_step a b,
      bit_xor_step b c,
      bit_xor_step (bit_xor a b) c,
      bit_xor_step a (bit_xor b c),
      ap (λ t. bit_xor t (c / 2)) left,
      ap (λ t. bit_xor (a / 2) t) right,
      xor_assoc_fuel n (a / 2) (b / 2) (c / 2) (omega arith) (omega arith) (omega arith),
    )

pub bit_xor_assoc : (a b c : ℕ) → bit_xor (bit_xor a b) c ≡ bit_xor a (bit_xor b c)
bit_xor_assoc a b c = xor_assoc_fuel (a + b + c) a b c (omega arith) (omega arith) (omega arith)

-- Exclusive or with one value is injective.
pub bit_xor_inj : (a b c : ℕ) → bit_xor a c ≡ bit_xor b c → a ≡ b
bit_xor_inj a b c e = omega (arith, bit_xor_cancel a c, bit_xor_cancel b c, ap (λ t. bit_xor t c) e)

pub bit_xor-lt : (k a b : ℕ) → a < 2 ^ k → b < 2 ^ k → bit_xor a b < 2 ^ k
bit_xor-lt zero zero zero p q = omega arith
bit_xor-lt zero (suc a) b p q = absurd (omega arith)
bit_xor-lt zero zero (suc b) p q = absurd (omega arith)
bit_xor-lt (suc k) a b p q =
    let two : 2 ^ suc k ≡ 2 ^ k * 2 = omega (arith, pow-suc 2 k) in
    omega (arith, two, bit_xor_step a b, bit_xor-lt k (a / 2) (b / 2) (omega arith) (omega arith))

-- The second argument may be 0, once the first one is used up.
zero_right : (n a : ℕ) → a ≤ n → (bit_or a 0 ≡ a) × (bit_and a 0 ≡ 0)
zero_right n zero h = (refl, refl)
zero_right zero (suc a) h = absurd (omega arith)
zero_right (suc n) (suc a) h =
    let half = zero_right n (suc a / 2) (omega arith) in
    (omega (arith, half.0, bit_or_step (suc a) 0), omega (arith, half.1, bit_and_step (suc a) 0))

double : (q k : ℕ) → q * 2 ^ suc k ≡ q * 2 ^ k * 2
double q k = let e = ap (λ (p : ℕ). q * p) (pow-suc 2 k) in omega (arith, e)

or_sum : (r k q : ℕ) → r < 2 ^ k → bit_or (q * 2 ^ k) r ≡ q * 2 ^ k + r
or_sum r zero q h = let whole = (zero_right q q (omega arith)).0 in ground (arith, whole)
or_sum r (suc k) q h =
    let even = double q k in
    let high = or_sum (r / 2) k q (omega (arith, pow-suc 2 k)) in
    let low = bit_or_step (q * 2 ^ suc k) r in ground (arith, even, high, low)

and_rest : (r k q : ℕ) → r < 2 ^ k → bit_and (q * 2 ^ k + r) (2 ^ k - 1) ≡ r
and_rest r zero q h =
    let nothing = (zero_right (q * 1 + r) (q * 1 + r) (omega arith)).1 in ground (arith, nothing)
and_rest r (suc k) q h =
    let even = double q k in
    let two = pow-suc 2 k in
    let some_bit = one-le-pow k 2 in
    let high = and_rest (r / 2) k q (omega arith) in
    let low = bit_and_step (q * 2 ^ suc k + r) (2 ^ suc k - 1) in
    ground (arith, even, two, some_bit, high, low)

-- In C, `(q << k) | r` for an `r` of at most `k` bits puts the two side by side.
pub bit_or_fields : (k q r : ℕ) → r < 2 ^ k → bit_or (q * 2 ^ k) r ≡ q * 2 ^ k + r
bit_or_fields k q r h = or_sum r k q h

-- And `a & mask`, with the `k` lowest bits in the mask, is what is left of a division.
pub bit_and_mask : (k a : ℕ) → bit_and a (2 ^ k - 1) ≡ a % 2 ^ k
bit_and_mask k a =
    let some_bit = one-le-pow k 2 in
    let rest = and_rest (a % 2 ^ k) k (a / 2 ^ k) (omega arith) in ground (arith, some_bit, rest)

one_bit : (r k q : ℕ) → r < 2 ^ k → bit_and (q * 2 ^ k + r) (2 ^ k) ≡ q % 2 * 2 ^ k
one_bit r zero q h = let lowest = bit_and_mask 1 (q * 1 + r) in ground (arith, lowest)
one_bit r (suc k) q h =
    let even = double q k in
    let even' = double (q % 2) k in
    let two = pow-suc 2 k in
    let high = one_bit (r / 2) k q (omega arith) in
    let low = bit_and_step (q * 2 ^ suc k + r) (2 ^ suc k) in
    ground (arith, even, even', two, high, low)

-- `a & (1 << k)`, for an `a` with `q` from bit `k` on.
pub bit_and_bit : (k q r : ℕ) → r < 2 ^ k → bit_and (q * 2 ^ k + r) (2 ^ k) ≡ q % 2 * 2 ^ k
bit_and_bit k q r h = one_bit r k q h

-- A test of every number of a small range, to be evaluated.
unfoldable pub every_below : ℕ → (ℕ → Bool) → Bool
every_below zero test = true
every_below (suc top) test = every_below top test && test top

pub every_below_sound :
    (test : ℕ → Bool) (top x : ℕ) → x < top → every_below top test ≡ true → test x ≡ true
unfolding every_below
every_below_sound test zero x below e = absurd (omega arith)
every_below_sound test (suc top) x below e = ground (every_below_sound test top x, arith)
