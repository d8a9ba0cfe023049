-- ===== src/OneWire/Devices.antt =====
-- The devices on a line as a tree of the bits of their addresses, and the order in which a search
-- meets them.
pub mod Walk
pub mod Listing
use hk_rtos.Base.{
  ℕ, zero, suc, ◌+◌, ◌≡◌, Bool, true, false, not, ◌&&◌, ◌||◌, Option, none, some, List, [], ◌∷◌,
  ◌++◌, map, length, ltb, ◌==◌, if◌then◌else◌,
}

abbrev pub Bits : Type 0
Bits = List Bool

abbrev pub is_some_left : List Bits → Bool
is_some_left [] = false
is_some_left (d ∷ ds) = true

-- The rest of the addresses whose next bit is `b`.
unfoldable pub tails : Bool → List Bits → List Bits
tails b [] = []
tails b ([] ∷ ds) = tails b ds
tails true ((true ∷ d) ∷ ds) = d ∷ tails true ds
tails true ((false ∷ d) ∷ ds) = tails true ds
tails false ((true ∷ d) ∷ ds) = tails false ds
tails false ((false ∷ d) ∷ ds) = d ∷ tails false ds

-- The devices that still take part after the bits `p`, the last one first.
unfoldable pub at : List Bits → Bits → List Bits
unfolding tails
at ds [] = ds
at ds (b ∷ p) = tails b (at ds p)

-- All addresses of `n` bits in the tree, those with a zero first.
pub listing : ℕ → List Bits → List Bits
unfolding tails
listing zero [] = []
listing zero (d ∷ ds) = [] ∷ []
listing (suc n) ds =
    map (λ d. false ∷ d) (listing n (tails false ds))
    ++ map (λ d. true ∷ d) (listing n (tails true ds))

-- Those after an address.
pub after : List Bits → Bits → List Bits
unfolding listing
after ds [] = []
after ds (true ∷ s) = map (λ d. true ∷ d) (after (tails true ds) s)
after ds (false ∷ s) =
    map (λ d. false ∷ d) (after (tails false ds) s)
    ++ map (λ d. true ∷ d) (listing (length s) (tails true ds))

-- The address belongs to a device.
pub InTree : List Bits → Bits → Type 0
InTree ds [] = is_some_left ds ≡ true
InTree ds (b ∷ s) = InTree (tails b ds) s

-- The last bit of an address, counted from `index`, where it has a zero and a device has a one.
unfoldable pub last_open : ℕ → List Bits → Bits → Option ℕ
unfolding tails
last_open index ds [] = none
last_open index ds (b ∷ s) = elim (last_open (index + 1) (tails b ds) s) [
  | some j ↦ some j
  | none ↦ if not b && is_some_left (tails true ds) then some index else none
]

-- The bit that a search takes.
unfoldable pub chosen : List Bits → ℕ → ℕ → Bool → Bool
unfolding tails
chosen ds index branch_point old =
    if is_some_left (tails false ds) && is_some_left (tails true ds)
    then (index == branch_point) || (not (ltb branch_point index) && old)
    else not (is_some_left (tails false ds))

-- The address that it takes in place of an earlier one.
unfoldable pub walk : ℕ → ℕ → List Bits → Bits → Bits
unfolding chosen
walk index branch_point ds [] = []
walk index branch_point ds (old ∷ s) =
    let b = chosen ds index branch_point old in b ∷ walk (index + 1) branch_point (tails b ds) s
