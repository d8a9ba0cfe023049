-- ===== src/Dns/Names.antt =====
-- Which messages that hold a whole name are answered.
use hk_rtos.Base.{ℕ, ◌+◌, ◌/◌, ◌%◌, ◌^◌, ◌≤◌, ◌<◌, ◌≡◌, ◌≢◌, refl, arith, ◌↔◌, none}
use hk_rtos.Base.{List, [], ◌∷◌, ◌++◌, length, length-append, Holds, Holds-append}
use hk_rtos.Crc.{Buffer}
use hk_rtos.Dns.{skip_labels, process, header_size, ntohs_at}
use hk_rtos.Dns.Question.{Labels, root, label, skip_labels-Labels}
use hk_rtos.Dns.Reply.{answers, only}

-- A name of RFC 1035: its labels, each of 1 to 63 bytes.
abbrev pub IsName : List (List ℕ) → Type 0
IsName [] = Unit {0}
IsName (l ∷ ls) = (0 < length l) × (length l ≤ 63) × IsName ls

-- Its bytes in a message: each label behind its length, and a zero at the end.
abbrev pub encoded : List (List ℕ) → List ℕ
encoded [] = 0 ∷ []
encoded (l ∷ ls) = length l ∷ (l ++ encoded ls)

encoded-Labels :
    (msg : Buffer) (end p r : ℕ) (name : List (List ℕ))
    → IsName name
    → Holds msg p (encoded name)
    → r ≡ p + length (encoded name)
    → r ≤ end
    → Labels msg end p r
encoded-Labels msg end p r [] name here e fits =
    let e' : r ≡ p + 1 = omega arith in rw e' (root (omega arith) here.0)
encoded-Labels msg end p r (l ∷ ls) (lo, hi, name) (len, bytes) e fits =
    let size = length-append l (encoded ls) in
    let behind : Holds msg (p + 1 + msg p) (encoded ls) =
      rw len (Holds-append msg (p + 1) l (encoded ls) bytes) in
    label (omega arith) (omega (arith, len)) (omega (arith, len))
      (encoded-Labels msg end (p + 1 + msg p) r ls name behind (omega (arith, size, len)) fits)

-- The server replies to a message that holds a whole name behind its header if and only if that is a
-- standard query with a question, and the bytes of the name, its zero included, are 255 at most.
pub replies_iff :
    (ip msg : Buffer) (len : ℕ) (name : List (List ℕ))
    → IsName name
    → Holds msg header_size (encoded name)
    → header_size + length (encoded name) ≤ len
    → (process ip msg len ≢ none) ↔ (
        (ntohs_at msg 2 / 2 ^ 15 % 2 ≡ 0)
        × (ntohs_at msg 2 / 2 ^ 11 % 2 ^ 4 ≡ 0)
        × (0 < ntohs_at msg 4)
        × (length (encoded name) ≤ 255))
replies_iff ip msg len name is_name here fits =
    let r = header_size + length (encoded name) in
    let labels = encoded-Labels msg len header_size r name is_name here refl fits in
    let ends = (skip_labels-Labels msg len header_size len r (omega arith)).1 labels in
    (
      λ some_reply.
          let q = only ip msg len (skip_labels len msg header_size len) refl some_reply in
          let same = (skip_labels-Labels msg len header_size len q.0 (omega arith)).1 q.1.4 in
          let e : q.0 ≡ r = ground (arith, ends, same) in
          (q.1.1, q.1.2, q.1.3, omega (arith, q.1.5, e)),
      λ q.
          let a = answers ip msg len r (omega arith, q.0, q.1, q.2, labels, omega (arith, q.3)) in
          ground (arith, a.1),
    )
