-- ===== src/Dns/Reply.antt =====
-- What the server answers, and that the answer fits its buffer.
use hk_rtos.Base.{ℕ, suc, ◌+◌, ◌-◌, ◌/◌, ◌%◌, ◌^◌, ◌≤◌, ◌<◌, ◌≡◌, refl, arith, ◌∙◌, ◌⊎◌, inl, inr}
use hk_rtos.Base.{◌==◌, ltb, leb, if◌then◌else◌, ◌&&◌, List, [], ◌∷◌, length, get_or}
use hk_rtos.Base.{◌≢◌, Option, none, some}
use hk_rtos.Base.Bits.{bit_and_mask}
use hk_rtos.Crc.{Buffer}
use hk_rtos.Dns.{skip_labels, write_bytes, answer, header, respond, process, header_size, ntohs_at}
use hk_rtos.Dns.Question.{Labels, cut, root, label, skip_labels-Labels}

write_bytes_lem :
    (i : ℕ) (bs : List ℕ) (m : Buffer) (j : ℕ)
    → write_bytes i bs m j ≡ (if leb i j && ltb j (i + length bs) then get_or bs (j - i) 0 else m j)
write_bytes_lem i [] m j = ground arith
write_bytes_lem i (b ∷ bs) m j =
    ground (arith, write_bytes_lem (i + 1) bs (λ k. if k == i then b else m k) j, shift)
  where
    shift : i < j → get_or (b ∷ bs) (j - i) 0 ≡ get_or bs (j - (i + 1)) 0
    shift lt = let e : j - i ≡ suc (j - (i + 1)) = omega arith in rw e

write_bytes-inside :
    (i : ℕ) (bs : List ℕ) (m : Buffer) (j : ℕ)
    → j < length bs
    → write_bytes i bs m (i + j) ≡ get_or bs j 0
write_bytes-inside i bs m j h =
    let e : i + j - i ≡ j = omega arith in ground (arith, write_bytes_lem i bs m (i + j))

write_bytes-outside :
    (i : ℕ) (bs : List ℕ) (m : Buffer) (j : ℕ)
    → (j < i) ⊎ (i + length bs ≤ j)
    → write_bytes i bs m j ≡ m j
write_bytes-outside i bs m j h = ground (arith, write_bytes_lem i bs m j)

-- What a reply is, given where the labels end.
abbrev pub IsReply : Buffer → Buffer → ℕ → ℕ → Buffer → Type 0
IsReply ip msg r n out =
    (n ≡ r + 20)
    × ((j : ℕ) → j < 2 → out j ≡ msg j)
    × ((j : ℕ) → j < 10 → out (2 + j) ≡ get_or header j 0)
    × ((j : ℕ) → header_size ≤ j → j < r + 4 → out j ≡ msg j)
    × ((j : ℕ) → j < 16 → out (r + 4 + j) ≡ get_or (answer ip) j 0)
    × ((j : ℕ) → n ≤ j → out j ≡ msg j)

respond-IsReply :
    (ip msg : Buffer) (r : ℕ)
    → header_size ≤ r
    → IsReply ip msg r (r + 20) (write_bytes 2 header (write_bytes (r + 4) (answer ip) msg))
respond-IsReply ip msg r lo =
    let m = write_bytes (r + 4) (answer ip) msg in
    (
      omega arith,
      λ j h.
          write_bytes-outside 2 header m j (inl h)
          ∙ write_bytes-outside (r + 4) (answer ip) msg j (inl (omega arith)),
      λ j h. write_bytes-inside 2 header m j h,
      λ j h h'.
          write_bytes-outside 2 header m j (inr h)
          ∙ write_bytes-outside (r + 4) (answer ip) msg j (inl h'),
      λ j h.
          write_bytes-outside 2 header m (r + 4 + j) (inr (omega arith))
          ∙ write_bytes-inside (r + 4) (answer ip) msg j h,
      λ j h.
          write_bytes-outside 2 header m j (inr (omega arith))
          ∙ write_bytes-outside (r + 4) (answer ip) msg j (inr (omega arith)),
    )

-- A message that the server answers, with the labels of its first question ending at `r`: a standard
-- query with a question, whose labels end, with a zero byte or with the message, within 255 bytes.
abbrev pub IsQuery : Buffer → ℕ → ℕ → Type 0
IsQuery msg len r =
    (header_size ≤ len)
    × (ntohs_at msg 2 / 2 ^ 15 % 2 ≡ 0)
    × (ntohs_at msg 2 / 2 ^ 11 % 2 ^ 4 ≡ 0)
    × (0 < ntohs_at msg 4)
    × Labels msg len header_size r
    × (r ≤ header_size + 255)

Labels-le : (msg : Buffer) (end p r : ℕ) → Labels msg end p r → p ≤ r
Labels-le msg end p r (cut h) = omega arith
Labels-le msg end p r (root h z) = omega arith
Labels-le msg end p r (label h lo hi rest) = omega (arith, Labels-le msg end (p + 1 + msg p) r rest)

pub answers :
    (ip msg : Buffer) (len r : ℕ)
    → IsQuery msg len r
    → (out : Buffer) × (process ip msg len ≡ some (r + 20, out)) × IsReply ip msg r (r + 20) out
unfolding process respond
answers ip msg len r (size, qr, op, count, labels, short) =
    let ends = (skip_labels-Labels msg len header_size len r (omega arith)).1 labels in
    let mask = bit_and_mask 1 (ntohs_at msg 2 / 2 ^ 15) in
    let mask' = bit_and_mask 4 (ntohs_at msg 2 / 2 ^ 11) in
    (_, ground (arith, ends, mask, mask'), respond-IsReply ip msg r (Labels-le msg len _ r labels))

-- From a reply, the message and where its labels end.
pub only :
    (ip msg : Buffer) (len : ℕ) (o : Option ℕ)
    → skip_labels len msg header_size len ≡ o
    → process ip msg len ≢ none
    → (r : ℕ) × IsQuery msg len r
unfolding process respond
only ip msg len none e some_reply = absurd (ground arith)
only ip msg len (some r) e some_reply =
    let labels = (skip_labels-Labels msg len header_size len r (omega arith)).0 e in
    let mask = bit_and_mask 1 (ntohs_at msg 2 / 2 ^ 15) in
    let mask' = bit_and_mask 4 (ntohs_at msg 2 / 2 ^ 11) in
    (
      r,
      (
        ground (arith, mask, mask'),
        ground (arith, mask, mask'),
        ground (arith, mask, mask'),
        ground (arith, mask, mask'),
        labels,
        ground (arith, mask, mask'),
      ),
    )

-- A reply repeats the id and the question, with one
-- answer that gives the address of the server behind it, and ends at 287 bytes or before;
-- what lies behind the reply in the buffer of 300 bytes, and after the buffer, is not written to.
pub process_replies :
    (ip msg : Buffer) (len n : ℕ) (out : Buffer)
    → process ip msg len ≡ some (n, out)
    → (r : ℕ) × IsQuery msg len r × IsReply ip msg r n out × (n ≤ 287)
process_replies ip msg len n out e =
    let q = only ip msg len (skip_labels len msg header_size len) refl (ground arith) in
    let a = answers ip msg len q.0 q.1 in
    let size : q.0 + 20 ≡ n = ground (arith, a.1) in
    let same : a.0 ≡ out = ground (arith, a.1) in (q.0, q.1, rw (← size, ← same) a.2, ground arith)
