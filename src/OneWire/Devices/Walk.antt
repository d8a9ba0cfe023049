-- ===== src/OneWire/Devices/Walk.antt =====
-- A walk down the tree takes the next address of the listing.
use hk_rtos.Base.{
  ℕ, zero, suc, ◌+◌, ◌≤◌, ◌<◌, ◌≡◌, refl, sym, ap, arith, Bool, true, false, not, ◌&&◌, Option,
  none, some, List, [], ◌∷◌, length, inl, inr, ◌⊎◌, Bool-cases, if◌then◌else◌,
}
use hk_rtos.OneWire.Devices.{
  Bits, is_some_left, tails, listing, after, InTree, last_open, chosen, walk,
}

pub length-walk :
    (index branch : ℕ) (ds : List Bits) (s : Bits) → length (walk index branch ds s) ≡ length s
unfolding walk
length-walk index branch ds [] = refl
length-walk index branch ds (b ∷ s) =
    ap suc (length-walk (index + 1) branch (tails (chosen ds index branch b) ds) s)

-- The tree below the bits that no device has is empty.
pub listing-empty : (n : ℕ) (ds : List Bits) → is_some_left ds ≡ false → listing n ds ≡ []
unfolding listing tails
listing-empty zero [] h = refl
listing-empty zero (d ∷ ds) h = cc
listing-empty (suc n) [] h = rw (listing-empty n [] refl) refl
listing-empty (suc n) (d ∷ ds) h = cc

-- What follows a bit of an address in `last_open`.
open_here : ℕ → Bool → List Bits → Option ℕ → Option ℕ
open_here index b ds deeper = elim deeper [
  | some j ↦ some j
  | none ↦ if not b && is_some_left (tails true ds) then some index else none
]

open_here-none :
    (index : ℕ) (b : Bool) (ds : List Bits) (deeper : Option ℕ)
    → open_here index b ds deeper ≡ none
    → (deeper ≡ none) × ((b ≡ true) ⊎ (is_some_left (tails true ds) ≡ false))
unfolding open_here
open_here-none index b ds (some j) h = cc
open_here-none index true ds none h = (refl, inl refl)
open_here-none index false ds none h = (refl, ground arith)

open_here-some :
    (index j : ℕ) (b : Bool) (ds : List Bits) (deeper : Option ℕ)
    → open_here index b ds deeper ≡ some j
    → (deeper ≡ some j)
      ⊎ ((deeper ≡ none) × (b ≡ false) × (is_some_left (tails true ds) ≡ true) × (j ≡ index))
unfolding open_here
open_here-some index j b ds (some i) h = inl h
open_here-some index j true ds none h = cc
open_here-some index j false ds none h = inr (ground arith)

-- An address that has no open branch is the last one.
pub after-empty :
    (index : ℕ) (ds : List Bits) (s : Bits) → last_open index ds s ≡ none → after ds s ≡ []
unfolding after last_open open_here
after-empty index ds [] h = refl
after-empty index ds (true ∷ s) h =
    let d = open_here-none index true ds (last_open (index + 1) (tails true ds) s) h in
    rw (after-empty (index + 1) (tails true ds) s d.0) refl
after-empty index ds (false ∷ s) h =
    let d = open_here-none index false ds (last_open (index + 1) (tails false ds) s) h in
    let none_right : is_some_left (tails true ds) ≡ false = ground (arith) in
    rw
      (
        after-empty (index + 1) (tails false ds) s d.0,
        listing-empty (length s) (tails true ds) none_right,
      )
      refl

last_open-ge : (index j : ℕ) (ds : List Bits) (s : Bits) → last_open index ds s ≡ some j → index ≤ j
unfolding last_open open_here
last_open-ge index j ds [] h = cc
last_open-ge index j ds (b ∷ s) h = elim (open_here-some index j b ds _ h) [
  | inl deeper ↦ (let k = last_open-ge (index + 1) j (tails b ds) s deeper in omega arith)
  | inr (none_deeper, zero_bit, right, here) ↦ omega arith
]

-- Where nothing is behind the branch point any more, or it lies ahead of an address of zeros, a walk
-- takes the first address of the tree.
unfoldable pub IsFirst : ℕ → ℕ → Bits → Type 0
IsFirst index branch [] = Unit {0}
IsFirst index branch (b ∷ s) =
    ((branch < index) ⊎ ((index < branch) × (b ≡ false))) × IsFirst (index + 1) branch s

chosen_first :
    (index branch : ℕ) (ds : List Bits) (b : Bool)
    → ((branch < index) ⊎ ((index < branch) × (b ≡ false)))
    → is_some_left (tails false ds) ≡ true
    → chosen ds index branch b ≡ false
unfolding chosen
chosen_first index branch ds b f left = ground arith

chosen_one :
    (index branch : ℕ) (ds : List Bits) (b : Bool)
    → is_some_left (tails false ds) ≡ false
    → chosen ds index branch b ≡ true
unfolding chosen
chosen_one index branch ds b left = ground arith

chosen_branch :
    (index branch : ℕ) (ds : List Bits)
    → branch ≡ index
    → is_some_left (tails false ds) ≡ true
    → is_some_left (tails true ds) ≡ true
    → chosen ds index branch false ≡ true
unfolding chosen
chosen_branch index branch ds here left right = ground arith

IsFirst-past : (index branch : ℕ) (s : Bits) → branch < index → IsFirst index branch s
unfolding IsFirst
IsFirst-past index branch [] h = tt
IsFirst-past index branch (b ∷ s) h = (inl h, IsFirst-past (index + 1) branch s (omega arith))

-- Before the branch point the walk follows the earlier address.
chosen_same :
    (index branch : ℕ) (ds : List Bits) (b : Bool)
    → index < branch
    → is_some_left (tails b ds) ≡ true
    → chosen ds index branch b ≡ b
unfolding chosen
chosen_same index branch ds true f left = ground arith
chosen_same index branch ds false f left = ground arith

-- All addresses have a given number of bits.
unfoldable pub IsSized : ℕ → List Bits → Type 0
IsSized n [] = Unit {0}
IsSized n (d ∷ ds) = (length d ≡ n) × IsSized n ds

pub tails-IsSized :
    (b : Bool) (n : ℕ) (ds : List Bits) → IsSized (suc n) ds → IsSized n (tails b ds)
unfolding tails IsSized
tails-IsSized b n [] h = tt
tails-IsSized b n ([] ∷ ds) h = tails-IsSized b n ds h.1
tails-IsSized true n ((true ∷ d) ∷ ds) h = (omega (arith, h.0), tails-IsSized true n ds h.1)
tails-IsSized true n ((false ∷ d) ∷ ds) h = tails-IsSized true n ds h.1
tails-IsSized false n ((true ∷ d) ∷ ds) h = tails-IsSized false n ds h.1
tails-IsSized false n ((false ∷ d) ∷ ds) h = (omega (arith, h.0), tails-IsSized false n ds h.1)

-- A device that is left has a zero or a one as its next bit.
pub tails-some :
    (n : ℕ) (ds : List Bits)
    → IsSized (suc n) ds
    → is_some_left ds ≡ true
    → is_some_left (tails false ds) ≡ false
    → is_some_left (tails true ds) ≡ true
unfolding tails IsSized
tails-some n [] z h e = cc
tails-some n ([] ∷ ds) z h e = absurd (omega (arith, z.0))
tails-some n ((true ∷ d) ∷ ds) z h e = refl
tails-some n ((false ∷ d) ∷ ds) z h e = cc

pub walk-first :
    (index branch : ℕ) (ds : List Bits) (s : Bits)
    → IsFirst index branch s
    → IsSized (length s) ds
    → is_some_left ds ≡ true
    → let w = walk index branch ds s in InTree ds w × (listing (length s) ds ≡ w ∷ after ds w)
unfolding walk listing after InTree IsFirst
walk-first index branch [] [] f z h = cc
walk-first index branch (d ∷ ds) [] f z h = (refl, refl)
walk-first index branch ds (b ∷ s) f z h = elim (Bool-cases (is_some_left (tails false ds))) [
  | inl left ↦
      let ih =
        walk-first (index + 1) branch (tails false ds) s f.1 (tails-IsSized false (length s) ds z)
          left in
      let to_zero : chosen ds index branch b ≡ false = chosen_first index branch ds b f.0 left in
      let size = length-walk (index + 1) branch (tails false ds) s in
      rw to_zero (ih.0, rw (ih.1, size) refl)
  | inr none_left ↦
      let right = tails-some (length s) ds z h none_left in
      let ih =
        walk-first (index + 1) branch (tails true ds) s f.1 (tails-IsSized true (length s) ds z)
          right in
      let to_one : chosen ds index branch b ≡ true = chosen_one index branch ds b none_left in
      rw to_one (ih.0, rw (listing-empty (length s) (tails false ds) none_left, ih.1) refl)
]

pub InTree-some : (ds : List Bits) (s : Bits) → InTree ds s → is_some_left ds ≡ true
unfolding InTree tails
InTree-some ds [] t = t
InTree-some [] (b ∷ s) t = InTree-some [] s t
InTree-some (d ∷ ds) (b ∷ s) t = refl

after-cons :
    (b : Bool) (ds : List Bits) (s w : Bits)
    → length w ≡ length s
    → after (tails b ds) s ≡ w ∷ after (tails b ds) w
    → after ds (b ∷ s) ≡ (b ∷ w) ∷ after ds (b ∷ w)
unfolding after
after-cons true ds s w size e = rw e refl
after-cons false ds s w size e = rw (e, size) refl

-- Where the walk leaves the earlier address.
walk-branch :
    (index branch : ℕ) (ds : List Bits) (s : Bits)
    → branch ≡ index
    → IsSized (suc (length s)) ds
    → is_some_left (tails false ds) ≡ true
    → is_some_left (tails true ds) ≡ true
    → last_open (index + 1) (tails false ds) s ≡ none
    → let w = walk index branch ds (false ∷ s) in
      InTree ds w × (after ds (false ∷ s) ≡ w ∷ after ds w)
unfolding walk after InTree
walk-branch index branch ds s here z left right shallow =
    let ih =
      walk-first (index + 1) branch (tails true ds) s
        (IsFirst-past (index + 1) branch s (omega arith)) (tails-IsSized true (length s) ds z)
        right in
    let to_one : chosen ds index branch false ≡ true =
      chosen_branch index branch ds here left right in
    let rest = after-empty (index + 1) (tails false ds) s shallow in
    rw to_one (ih.0, rw (rest, ih.1) refl)

-- Past an address with an open branch, a walk with that branch point takes the next address.
pub walk-next :
    (index branch : ℕ) (ds : List Bits) (s : Bits)
    → IsSized (length s) ds
    → InTree ds s
    → last_open index ds s ≡ some branch
    → let w = walk index branch ds s in InTree ds w × (after ds s ≡ w ∷ after ds w)
unfolding walk InTree last_open open_here
walk-next index branch ds [] z t h = cc
walk-next index branch ds (b ∷ s) z t h = elim (open_here-some index branch b ds _ h) [
  | inl deeper ↦
      let k = last_open-ge (index + 1) branch (tails b ds) s deeper in
      let ih =
        walk-next (index + 1) branch (tails b ds) s (tails-IsSized b (length s) ds z) t deeper in
      let same = chosen_same index branch ds b (omega (arith, k)) (InTree-some (tails b ds) s t) in
      let size = length-walk (index + 1) branch (tails b ds) s in
      rw same (ih.0, after-cons b ds s (walk (index + 1) branch (tails b ds) s) size ih.1)
  | inr (shallow, zero_bit, right, here) ↦
      let t' : InTree (tails false ds) s = rw (sym zero_bit) t in
      let shallow' : last_open (index + 1) (tails false ds) s ≡ none = rw (sym zero_bit) shallow in
      rw zero_bit
        (walk-branch index branch ds s here z (InTree-some (tails false ds) s t') right shallow')
]
