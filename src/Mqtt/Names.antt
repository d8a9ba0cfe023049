-- ===== src/Mqtt/Names.antt =====
-- What hkUniqueID writes.
use hk_rtos.Base.{
  ℕ, zero, suc, ◌+◌, ◌-◌, ◌<◌, ◌≡◌, ◌^◌, arith, List, [], ◌∷◌, ◌++◌, map, ◌==◌, ltb, if◌then◌else◌,
  length, get_or,
}
use hk_rtos.Crc.{Buffer}
use hk_rtos.Mqtt.{to_lower, unique_id}

get_or-append :
    (xs ys : List ℕ) (i : ℕ)
    → get_or (xs ++ ys) i 0
      ≡ (if ltb i (length xs) then get_or xs i 0 else get_or ys (i - length xs) 0)
get_or-append [] ys i = let e : i - 0 ≡ i = omega arith in rw e (ground arith)
get_or-append (x ∷ xs) ys zero = ground arith
get_or-append (x ∷ xs) ys (suc i) =
    let e : suc i - suc (length xs) ≡ i - length xs = omega arith in
    rw e (ground (arith, get_or-append xs ys i))

length-append : (xs ys : List ℕ) → length (xs ++ ys) ≡ length xs + length ys
length-append [] ys = omega arith
length-append (x ∷ xs) ys = omega (arith, length-append xs ys)

-- How many characters of a string fit before its zero into `size` bytes.
abbrev pub fitting : List ℕ → ℕ → ℕ
fitting s size = if ltb size (length s + 1) then size - 1 else length s

-- If the name alone fits into the buffer, the buffer holds the name and behind it the id in small letters,
-- cut to the room that there is, and then a zero. What is behind that, and behind the end of the buffer,
-- stays as it was.
pub unique_id_fits :
    (name board : List ℕ) (client_id : Buffer) (size i : ℕ)
    → length name < size
    → size < 2 ^ 32
    → let s = name ++ map to_lower board in
      unique_id name board client_id size i ≡ (
        if ltb i (fitting s size)
        then get_or s i 0
        else if i == fitting s size
        then 0
        else client_id i)
unfolding unique_id
unique_id_fits name board client_id size i fits small =
    let id = map to_lower board in ground (arith, get_or-append name id i, length-append name id)
