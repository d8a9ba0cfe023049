-- ===== src/OneWire/Devices/Listing.antt =====
-- The listing holds the addresses of the devices, each once.
use mathlib.Core.List.{Perm, perm_middle}
use mathlib.Core.List.Perm
use hk_rtos.Base.{
  ℕ, zero, suc, ◌+◌, ◌≡◌, ◌≢◌, refl, ap, arith, Bool, true, false, List, [], ◌∷◌, ◌++◌, map, length,
}
use hk_rtos.OneWire.Devices.{Bits, tails, listing}
use hk_rtos.OneWire.Devices.Walk.{IsSized, tails-IsSized}

abbrev pub IsOther : Bits → List Bits → Type 0
IsOther d [] = Unit {0}
IsOther d (e ∷ es) = (d ≢ e) × IsOther d es

-- No two devices have the same address.
abbrev pub IsDistinct : List Bits → Type 0
IsDistinct [] = Unit {0}
IsDistinct (d ∷ ds) = IsOther d ds × IsDistinct ds

tails-IsOther : (b : Bool) (d : Bits) (ds : List Bits) → IsOther (b ∷ d) ds → IsOther d (tails b ds)
unfolding tails
tails-IsOther b d [] h = tt
tails-IsOther b d ([] ∷ ds) h = tails-IsOther b d ds h.1
tails-IsOther true d ((true ∷ e) ∷ ds) h =
    (λ p. h.0 (ap (λ x. true ∷ x) p), tails-IsOther true d ds h.1)
tails-IsOther true d ((false ∷ e) ∷ ds) h = tails-IsOther true d ds h.1
tails-IsOther false d ((true ∷ e) ∷ ds) h = tails-IsOther false d ds h.1
tails-IsOther false d ((false ∷ e) ∷ ds) h =
    (λ p. h.0 (ap (λ x. false ∷ x) p), tails-IsOther false d ds h.1)

tails-IsDistinct : (b : Bool) (ds : List Bits) → IsDistinct ds → IsDistinct (tails b ds)
unfolding tails
tails-IsDistinct b [] h = tt
tails-IsDistinct b ([] ∷ ds) h = tails-IsDistinct b ds h.1
tails-IsDistinct true ((true ∷ d) ∷ ds) h =
    (tails-IsOther true d ds h.0, tails-IsDistinct true ds h.1)
tails-IsDistinct true ((false ∷ d) ∷ ds) h = tails-IsDistinct true ds h.1
tails-IsDistinct false ((true ∷ d) ∷ ds) h = tails-IsDistinct false ds h.1
tails-IsDistinct false ((false ∷ d) ∷ ds) h =
    (tails-IsOther false d ds h.0, tails-IsDistinct false ds h.1)

abbrev joined : List Bits → List Bits → List Bits
joined zeros ones = map (λ d. false ∷ d) zeros ++ map (λ d. true ∷ d) ones

-- The addresses by their first bit.
tails-Perm :
    (n : ℕ) (ds : List Bits)
    → IsSized (suc n) ds
    → Perm (joined (tails false ds) (tails true ds)) ds
unfolding tails IsSized
tails-Perm n [] z = Perm.rfl
tails-Perm n ([] ∷ ds) z = absurd (omega (arith, z.0))
tails-Perm n ((false ∷ d) ∷ ds) z = Perm.cons (false ∷ d) (tails-Perm n ds z.1)
tails-Perm n ((true ∷ d) ∷ ds) z =
    Perm.trans
      (perm_middle (map (λ d. false ∷ d) (tails false ds)) (map (λ d. true ∷ d) (tails true ds)))
      (Perm.cons (true ∷ d) (tails-Perm n ds z.1))

length-tails :
    (n : ℕ) (ds : List Bits)
    → IsSized (suc n) ds
    → length (tails false ds) + length (tails true ds) ≡ length ds
unfolding tails IsSized
length-tails n [] z = refl
length-tails n ([] ∷ ds) z = absurd (omega (arith, z.0))
length-tails n ((false ∷ d) ∷ ds) z = omega (arith, length-tails n ds z.1)
length-tails n ((true ∷ d) ∷ ds) z = omega (arith, length-tails n ds z.1)

length-joined : (zeros ones : List Bits) → length (joined zeros ones) ≡ length zeros + length ones
length-joined [] [] = refl
length-joined [] (o ∷ ones) = omega (arith, length-joined [] ones)
length-joined (z ∷ zeros) ones = omega (arith, length-joined zeros ones)

pub listing-Perm : (n : ℕ) (ds : List Bits) → IsSized n ds → IsDistinct ds → Perm (listing n ds) ds
unfolding listing IsSized
listing-Perm zero [] z h = Perm.rfl
listing-Perm zero ([] ∷ []) z h = Perm.rfl
listing-Perm zero ([] ∷ [] ∷ ds) z h = absurd (h.0.0 refl)
listing-Perm zero ([] ∷ (b ∷ d) ∷ ds) z h = absurd (omega (arith, z.1.0))
listing-Perm zero ((b ∷ d) ∷ ds) z h = absurd (omega (arith, z.0))
listing-Perm (suc n) ds z h =
    let zeros =
      listing-Perm n (tails false ds) (tails-IsSized false n ds z) (tails-IsDistinct false ds h) in
    let ones =
      listing-Perm n (tails true ds) (tails-IsSized true n ds z) (tails-IsDistinct true ds h) in
    Perm.trans (Perm.append (Perm.map (λ d. false ∷ d) zeros) (Perm.map (λ d. true ∷ d) ones))
      (tails-Perm n ds z)

pub length-listing :
    (n : ℕ) (ds : List Bits) → IsSized n ds → IsDistinct ds → length (listing n ds) ≡ length ds
unfolding listing IsSized
length-listing zero [] z h = refl
length-listing zero ([] ∷ []) z h = refl
length-listing zero ([] ∷ [] ∷ ds) z h = absurd (h.0.0 refl)
length-listing zero ([] ∷ (b ∷ d) ∷ ds) z h = absurd (omega (arith, z.1.0))
length-listing zero ((b ∷ d) ∷ ds) z h = absurd (omega (arith, z.0))
length-listing (suc n) ds z h =
    let zeros =
      length-listing n (tails false ds) (tails-IsSized false n ds z)
        (tails-IsDistinct false ds h) in
    let ones =
      length-listing n (tails true ds) (tails-IsSized true n ds z) (tails-IsDistinct true ds h) in
    omega (
      arith,
      zeros,
      ones,
      length-tails n ds z,
      length-joined (listing n (tails false ds)) (listing n (tails true ds)),
    )
