-- ===== src/CString.antt =====
-- Strings of C in buffers: what the functions of the C library do with them.
use hk_rtos.Base.{
  ℕ, zero, suc, ◌+◌, ◌-◌, ◌<◌, ◌^◌, ◌≡◌, refl, arith, ap, false, List, [], ◌∷◌, ◌==◌, ltb,
  if◌then◌else◌, get_or, take, inl, inr, ◌⊎◌,
}
use hk_rtos.Crc.{Buffer}

-- strncpy: `n` characters, with zeros behind the end of the string.
unfoldable pub strncpy : Buffer → List ℕ → ℕ → Buffer
strncpy dest src n i = if ltb i n then get_or src i 0 else dest i

-- The characters of a buffer before the first zero, of `n` at most, from an index on.
pub c_string : ℕ → ℕ → Buffer → List ℕ
c_string zero i b = []
c_string (suc n) i b = let rest = c_string n (i + 1) b in if b i == 0 then [] else b i ∷ rest

-- Characters: bytes that are not zero.
abbrev pub IsString : List ℕ → Type 0
IsString [] = Unit
IsString (c ∷ cs) = (0 < c) × (c < 2 ^ 8) × IsString cs

-- A field of `suc n` characters that holds a string, cut to `n`.
abbrev pub Holds : ℕ → Buffer → List ℕ → Type 0
Holds n b v = (i : ℕ) → i < suc n → b i ≡ (if ltb i n then get_or v i 0 else 0)

pub strncpy-Holds : (n : ℕ) (b : Buffer) (v w : List ℕ) → Holds n b v → Holds n (strncpy b w n) w
unfolding strncpy
strncpy-Holds n b v w h i lt = let hi = h i lt in ground arith

take-nil : (n : ℕ) → take {A = ℕ} n [] ≡ []
take-nil zero = refl
take-nil (suc n) = refl

-- The string in such a field.
c_string_from :
    (n i k : ℕ) (b : Buffer) (v w : List ℕ)
    → Holds k b v
    → IsString w
    → i + n ≡ suc k
    → ((j : ℕ) → get_or w j 0 ≡ get_or v (i + j) 0)
    → c_string n i b ≡ take (k - i) w
unfolding c_string
c_string_from zero i k b v w h str e shift = let z : k - i ≡ 0 = omega arith in rw z refl
c_string_from (suc n) i k b v [] h str e shift =
    let z : i + 0 ≡ i = omega arith in
    let none_left : b i ≡ 0 = ground (arith, h i (omega arith), rw z at (shift 0)) in
    rw (none_left, take-nil (k - i)) refl
c_string_from (suc n) i k b v (c ∷ w) h str e shift = elim (at_last i k (omega arith)) [
  | inl last ↦
      (let zero_there : b i ≡ 0 = ground (arith, h i (omega arith)) in
        let z : k - i ≡ 0 = omega arith in rw (zero_there, z) refl)
  | inr inside ↦
      (let z : i + 0 ≡ i = omega arith in
        let there : b i ≡ c = ground (arith, h i (omega arith), rw z at (shift 0)) in
        let some_char : (c == 0) ≡ false = ground arith in
        let left : k - i ≡ suc (k - (i + 1)) = omega arith in
        rw (there, some_char, left)
          (ap (λ (l : List ℕ). c ∷ l)
            (c_string_from n (i + 1) k b v w h str.2 (omega arith)
              (λ j. let m : i + suc j ≡ i + 1 + j = omega arith in rw m at (shift (suc j))))))
]
  where
    at_last : (i k : ℕ) → i < suc k → (i ≡ k) ⊎ (i < k)
    at_last i k h = omega arith

pub c_string-Holds :
    (k : ℕ) (b : Buffer) (v : List ℕ) → Holds k b v → IsString v → c_string (suc k) 0 b ≡ take k v
c_string-Holds k b v h str =
    let all : k - 0 ≡ k = omega arith in
    rw all at (
      c_string_from (suc k) 0 k b v v h str (omega arith)
        (λ j. let z : 0 + j ≡ j = omega arith in rw z refl))
