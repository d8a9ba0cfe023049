-- ===== src/OneWire/Search/Reads.antt =====
-- The loop over the bits walks down the tree of the devices.
use hk_rtos.Base.{
  ℕ, zero, suc, ◌+◌, ◌≤◌, ◌<◌, ◌≡◌, ◌∙◌, refl, sym, ap, arith, Bool, true, false, not, ◌&&◌, ◌||◌,
  Option, none, some, List, [], ◌∷◌, inl, inr, Bool-cases, ◌==◌, if◌then◌else◌,
}
use hk_rtos.OneWire.{LineOp, puts, Line, OneWire, write_success, read_success, is_busy, read}
use hk_rtos.OneWire.Calls.{write_byte_lem}
use hk_rtos.OneWire.Devices.{Bits, is_some_left, tails, at, last_open, chosen, walk}
use hk_rtos.OneWire.Devices.Walk.{IsSized, tails-IsSized, tails-some}
use hk_rtos.OneWire.Search.{Address, takes, Pass, write_bit, choose, take, bits_from}
use hk_rtos.OneWire.Search.Answers.{Answers, asked, top}

-- `left` bits of an address from `index` on.
unfoldable pub bits_of : ℕ → ℕ → Address → Bits
bits_of zero index a = []
bits_of (suc left) index a = a index ∷ bits_of left (index + 1) a

pub bits_of-same :
    (left index : ℕ) (a a' : Address)
    → ((i : ℕ) → index ≤ i → a i ≡ a' i)
    → bits_of left index a ≡ bits_of left index a'
unfolding bits_of
bits_of-same zero index a a' h = refl
bits_of-same (suc left) index a a' h =
    rw (h index (omega arith), bits_of-same left (index + 1) a a' (λ i le. h i (omega arith))) refl

read_lem :
    (line : Line) (ow : OneWire)
    → is_busy ow.status ≡ false
    → read line ow ≡ (
      top (line (puts 0xFF ∷ ow.ops)),
      record { status = read_success; ops = puts 0xFF ∷ ow.ops },
    )
unfolding read
read_lem line ow idle = rw idle refl

two_reads :
    (line : Line) (ow : OneWire)
    → is_busy ow.status ≡ false
    → read line (read line ow).1 ≡ (
      top (line (puts 0xFF ∷ puts 0xFF ∷ ow.ops)),
      record { status = read_success; ops = puts 0xFF ∷ puts 0xFF ∷ ow.ops },
    )
two_reads line ow idle =
    rw (read_lem line ow idle)
      (read_lem line (record { status = read_success; ops = puts 0xFF ∷ ow.ops }) refl)

tails_or :
    (n : ℕ) (ds : List Bits)
    → IsSized (suc n) ds
    → is_some_left ds ≡ true
    → is_some_left (tails false ds) || is_some_left (tails true ds) ≡ true
tails_or n ds z h = elim (Bool-cases (is_some_left (tails false ds))) [
  | inl left ↦ rw left refl
  | inr none_left ↦ rw (none_left, tails-some n ds z h none_left) refl
]

-- The choice of a bit by what the line gives.
choose-chosen :
    (a b index branch : ℕ) (old : Bool) (ds : List Bits)
    → (a == 0) ≡ is_some_left (tails false ds)
    → (b == 0) ≡ is_some_left (tails true ds)
    → is_some_left (tails false ds) || is_some_left (tails true ds) ≡ true
    → choose a b index branch old
      ≡ takes
          (chosen ds index branch old)
          (not (chosen ds index branch old) && is_some_left (tails true ds))
unfolding choose chosen
choose-chosen a b index branch old ds za ob h = ground arith

unfoldable pub finished_after : Option ℕ → Bool → Bool
finished_after none f = f
finished_after (some j) f = false

unfoldable pub next_after : Option ℕ → ℕ → ℕ
next_after none n = n
next_after (some j) n = j

-- The branches below a bit come before the one at it.
abbrev deepest : Option ℕ → Bool → ℕ → Option ℕ
deepest deeper opens index = elim deeper [
  | some j ↦ some j
  | none ↦ if opens then some index else none
]

finished-deepest :
    (deeper : Option ℕ) (opens : Bool) (index : ℕ) (f : Bool)
    → finished_after deeper (if opens then false else f)
      ≡ finished_after (deepest deeper opens index) f
unfolding finished_after
finished-deepest none true index f = refl
finished-deepest none false index f = refl
finished-deepest (some j) opens index f = refl

next-deepest :
    (deeper : Option ℕ) (opens : Bool) (index n : ℕ)
    → next_after deeper (if opens then index else n) ≡ next_after (deepest deeper opens index) n
unfolding next_after
next-deepest none true index n = refl
next-deepest none false index n = refl
next-deepest (some j) opens index n = refl

-- The bit that is chosen is that of a device.
chosen_some :
    (index branch : ℕ) (old : Bool) (ds : List Bits)
    → is_some_left (tails false ds) || is_some_left (tails true ds) ≡ true
    → is_some_left (tails (chosen ds index branch old) ds) ≡ true
unfolding chosen
chosen_some index branch old ds h = ground arith

module _ (line : Line) (command : ℕ) (ds : List Bits) (answers : Answers line command ds) where
  -- What a walk from a node does, with `left` bits left.
  pub record Walked (left index branch : ℕ) (node : List Bits) (s : Pass) (r : Bool × Pass)
      : Type 0 where
    pub goes_on : r.0 ≡ false
    pub bits :
        bits_of left index r.1.address ≡ walk index branch node (bits_of left index s.address)
    pub keeps : (i : ℕ) → i < index → r.1.address i ≡ s.address i
    pub idle : is_busy r.1.ow.status ≡ false
    pub finished :
        r.1.finished
        ≡ finished_after (last_open index node (bits_of left index r.1.address)) s.finished
    pub next :
        r.1.next_branch_point
        ≡ next_after (last_open index node (bits_of left index r.1.address)) s.next_branch_point

  -- A round of the loop at a node.
  bits_from-suc :
      (ops : List LineOp) (left index branch : ℕ) (p : Bits) (s : Pass)
      → IsSized (suc left) (at ds p)
      → is_some_left (at ds p) ≡ true
      → is_busy s.ow.status ≡ false
      → s.ow.ops ≡ asked command ops p
      → let b = chosen (at ds p) index branch (s.address index) in
        bits_from line (suc left) index branch s
        ≡ bits_from line left (index + 1) branch (record {
          ow = record { status = write_success; ops = asked command ops (b ∷ p) };
          address = λ i. if i == index then b else s.address i;
          finished = if not b && is_some_left (tails true (at ds p)) then false else s.finished;
          next_branch_point =
              if not b && is_some_left (tails true (at ds p)) then index else s.next_branch_point;
        })
  unfolding bits_from take
  bits_from-suc ops left index branch p s z alive idle at_p =
      let zero_read : ((read line s.ow).0 == 0) ≡ is_some_left (tails false (at ds p)) =
        rw (read_lem line s.ow idle, at_p) (answers.zeros ops p) in
      let one_read : ((read line (read line s.ow).1).0 == 0) ≡ is_some_left (tails true (at ds p)) =
        rw (two_reads line s.ow idle, at_p) (answers.ones ops p) in
      let choice =
        choose-chosen (read line s.ow).0 (read line (read line s.ow).1).0 index branch
          (s.address index) (at ds p) zero_read one_read (tails_or left (at ds p) z alive) in
      let b = chosen (at ds p) index branch (s.address index) in
      let written =
        write_byte_lem line (write_bit b)
          (record { status = read_success; ops = puts 0xFF ∷ puts 0xFF ∷ s.ow.ops }) refl in
      rw (choice, bits_from) (rw (two_reads line s.ow idle, written, at_p) refl)

  -- The state of the loop after a bit.
  abbrev after_bit : List LineOp → ℕ → ℕ → Bits → Pass → Pass
  after_bit ops index branch p s =
      let b = chosen (at ds p) index branch (s.address index) in
      record {
        ow = record { status = write_success; ops = asked command ops (b ∷ p) };
        address = λ i. if i == index then b else s.address i;
        finished = if not b && is_some_left (tails true (at ds p)) then false else s.finished;
        next_branch_point =
            if not b && is_some_left (tails true (at ds p)) then index else s.next_branch_point;
      }

  Walked-suc :
      (ops : List LineOp) (left index branch : ℕ) (p : Bits) (s : Pass) (r : Bool × Pass)
      → Walked left
          (index + 1)
          branch
          (tails (chosen (at ds p) index branch (s.address index)) (at ds p))
          (after_bit ops index branch p s)
          r
      → Walked (suc left) index branch (at ds p) s r
  unfolding bits_of walk last_open
  Walked-suc ops left index branch p s r w =
      let b = chosen (at ds p) index branch (s.address index) in
      let here : r.1.address index ≡ b = w.keeps index (omega arith) ∙ ground arith in
      let rest = bits_of left (index + 1) r.1.address in
      let deeper = last_open (index + 1) (tails b (at ds p)) rest in
      let opens = not b && is_some_left (tails true (at ds p)) in
      record {
        goes_on = w.goes_on;
        bits =
            (let same =
                bits_of-same left (index + 1) (after_bit ops index branch p s).address s.address
                  (λ i le. ground arith) in
              rw (here, w.bits, same) refl);
        keeps = λ i lt. w.keeps i (omega arith) ∙ ground arith;
        idle = w.idle;
        finished =
            w.finished
            ∙ finished-deepest deeper opens index s.finished
            ∙ ap (λ c. finished_after (last_open index (at ds p) (c ∷ rest)) s.finished) (sym here);
        next =
            w.next
            ∙ next-deepest deeper opens index s.next_branch_point
            ∙ ap (λ c. next_after (last_open index (at ds p) (c ∷ rest)) s.next_branch_point)
                (sym here);
      }

  pub bits_from-Walked :
      (ops : List LineOp) (left index branch : ℕ) (p : Bits) (s : Pass)
      → IsSized left (at ds p)
      → is_some_left (at ds p) ≡ true
      → is_busy s.ow.status ≡ false
      → s.ow.ops ≡ asked command ops p
      → Walked left index branch (at ds p) s (bits_from line left index branch s)
  unfolding bits_of walk last_open at bits_from finished_after next_after
  bits_from-Walked ops zero index branch p s z alive idle at_p = record {
    goes_on = refl;
    bits = refl;
    keeps = λ i lt. refl;
    idle = idle;
    finished = refl;
    next = refl;
  }
  bits_from-Walked ops (suc left) index branch p s z alive idle at_p =
      let b = chosen (at ds p) index branch (s.address index) in
      let alive' =
        chosen_some index branch (s.address index) (at ds p) (tails_or left (at ds p) z alive) in
      rw (bits_from-suc ops left index branch p s z alive idle at_p) (
        Walked-suc ops left index branch p s _ (
          bits_from-Walked ops left (index + 1) branch (b ∷ p) (after_bit ops index branch p s)
            (tails-IsSized b left (at ds p) z) alive' refl refl))
