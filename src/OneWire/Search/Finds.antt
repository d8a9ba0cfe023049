-- ===== src/OneWire/Search/Finds.antt =====
-- A search finds the addresses of all devices on the line.
use mathlib.Core.List.{append-nil, append_assoc, Perm}
use hk_rtos.Base.{
  ℕ, zero, suc, ◌+◌, ◌-◌, ◌^◌, ◌≤◌, ◌<◌, ◌≡◌, ◌∙◌, refl, sym, ap, arith, true, false, some, List,
  [], ◌∷◌, ◌++◌, length, inr,
}
use hk_rtos.OneWire.{Line, OneWire, init_success}
use hk_rtos.OneWire.Devices.{Bits, is_some_left, listing, after, walk}
use hk_rtos.OneWire.Devices.Listing.{IsDistinct, listing-Perm, length-listing}
use hk_rtos.OneWire.Devices.Walk.{IsSized, IsFirst, walk-first}
use hk_rtos.OneWire.Search.{Address, Pass, Found, store, rounds, search_rom}
use hk_rtos.OneWire.Search.Answers.{Answers}
use hk_rtos.OneWire.Search.Reads.{bits_of}
use hk_rtos.OneWire.Search.Rounds.{
  entries, Ready, walked, length-bits_of, rounds-suc, store-Ready, store_lem,
}

-- What the rounds that are left add.
pub record Adds (n : ℕ) (rest : List Bits) (devices devices' : ℕ → Address) : Type 0 where
  pub found : entries devices' (n + length rest) ≡ entries devices n ++ rest
  pub others : (i : ℕ) → n + length rest ≤ i → devices' i ≡ devices i

Adds-nil : (n : ℕ) (devices : ℕ → Address) → Adds n [] devices devices
Adds-nil n devices = record {
  found = (let e : n + 0 ≡ n = omega arith in rw e (sym (append-nil (entries devices n))));
  others = λ i le. refl;
}

Adds-cons :
    (n n' : ℕ) (w : Bits) (ws : List Bits) (a b c : ℕ → Address)
    → n' ≡ suc n
    → entries b (suc n) ≡ entries a n ++ (w ∷ [])
    → ((i : ℕ) → n < i → b i ≡ a i)
    → Adds n' ws b c
    → Adds n (w ∷ ws) a c
Adds-cons n n' w ws a b c e first kept r =
    let e' : n + suc (length ws) ≡ n' + length ws = omega (arith, e) in
    record {
      found = rw e' (
          r.found
          ∙ ap (λ k. entries b k ++ ws) e
          ∙ ap (λ l. l ++ ws) first
          ∙ append_assoc (entries a n) (w ∷ []) ws);
      others = λ i le. r.others i (omega (arith, e)) ∙ kept i (omega (arith, e));
    }

some_left : (ds : List Bits) → 0 < length ds → is_some_left ds ≡ true
some_left [] h = absurd (omega arith)
some_left (d ∷ ds) h = refl

module _ (line : Line) (command : ℕ) (ds : List Bits) (answers : Answers line command ds) where
  rounds-Adds :
      (fuel max_devices : ℕ) (rest : List Bits) (f : Found)
      → 0 < max_devices
      → IsSized 64 ds
      → is_some_left ds ≡ true
      → Ready line command ds answers f.pass rest
      → length rest < fuel
      → f.found_devices + length rest ≤ 255
      → (f' : Found) × (rounds line fuel max_devices command f ≡ some f')
        × Adds f.found_devices rest f.devices f'.devices
  unfolding rounds
  rounds-Adds zero m rest f some_max z alive r enough room = absurd (omega arith)
  rounds-Adds (suc fuel) m [] f some_max z alive r enough room =
      (f, rw (r.finished, rounds) refl, Adds-nil f.found_devices f.devices)
  rounds-Adds (suc fuel) m (w ∷ ws) f some_max z alive r enough room =
      let step = store-Ready line command ds answers f w ws z alive (omega arith) r in
      let p = (walked line command ds answers f).1 in
      let g = store line (false, p) f in
      let stored = store_lem line f p w (omega arith) step.2 in
      let same : store line (walked line command ds answers f) f ≡ g =
        ap (λ t. store line t f) step.1 in
      let rest =
        rounds-Adds fuel m ws g some_max z alive (rw stored.0 step.0) (omega arith)
          (omega (arith, stored.1)) in
      (
        rest.0,
        rounds-suc line command ds answers fuel m f some_max r.finished
            ∙ ap (λ t. rounds line fuel m command t) same
            ∙ rest.1,
        Adds-cons f.found_devices g.found_devices w ws f.devices g.devices rest.0.devices stored.1
            stored.2 stored.3 rest.2,
      )

  -- The search begins with the first address.
  IsFirst-zeros :
      (left index branch : ℕ)
      → index + left ≤ branch
      → IsFirst index branch (bits_of left index (λ i. false))
  unfolding bits_of IsFirst
  IsFirst-zeros zero index branch h = tt
  IsFirst-zeros (suc left) index branch h =
      (inr (omega arith, refl), IsFirst-zeros left (index + 1) branch (omega arith))

  -- The variables of the loop at its start.
  abbrev begin : OneWire → Pass
  begin ow = record {
    ow = record ow { status = init_success };
    address = λ i. false;
    finished = false;
    next_branch_point = 2 ^ 32 - 1;
  }

  begin-Ready :
      (ow : OneWire)
      → IsSized 64 ds
      → is_some_left ds ≡ true
      → Ready line command ds answers (begin ow) (listing 64 ds)
  begin-Ready ow z alive =
      let zeros = bits_of 64 0 (λ i. false) in
      let n = 2 ^ 32 - 1 in
      let size = length-bits_of 64 0 (λ i. false) in
      let first = walk-first 0 n ds zeros (IsFirst-zeros 64 0 n (omega arith)) (rw size z) alive in
      let all : listing 64 ds ≡ walk 0 n ds zeros ∷ after ds (walk 0 n ds zeros) =
        ap (λ k. listing k ds) (sym size) ∙ first.1 in
      rw all (record {
        finished = refl;
        idle = refl;
        step = λ w' ws' h.
            let head : walk 0 n ds zeros ≡ w' = cc in
            let rest_same : after ds (walk 0 n ds zeros) ≡ ws' = cc in
            (head, rw (sym head) first.0, rw (sym head) rest_same);
      })

  -- On a line whose devices have distinct addresses, at least one and at most 255 of them, a search
  -- that may find any device ends after as many rounds as there are devices, with their addresses in
  -- the array, in some order, and nothing is written behind them; how many it may find, if it is not
  -- zero, bounds none of this.
  pub search_rom-Perm :
      (fuel max_devices : ℕ) (devices : ℕ → Address) (ow : OneWire)
      → 0 < max_devices
      → IsSized 64 ds
      → IsDistinct ds
      → 0 < length ds
      → length ds ≤ 255
      → length ds < fuel
      → (devices' : ℕ → Address) × (ow' : OneWire) × (search_rom line fuel max_devices command
            devices ow
          ≡ some (devices', ow'))
        × Perm (entries devices' (length ds)) ds
        × ((i : ℕ) → length ds ≤ i → devices' i ≡ devices i)
  unfolding search_rom entries
  search_rom-Perm fuel m devices ow some_max z h some_device few enough =
      let size = length-listing 64 ds z h in
      let alive : is_some_left ds ≡ true = some_left ds some_device in
      let f : Found = record { pass = begin ow; devices = devices; found_devices = 0 } in
      let r =
        rounds-Adds fuel m (listing 64 ds) f some_max z alive (begin-Ready ow z alive)
          (omega (arith, size)) (omega (arith, size)) in
      let count : 0 + length (listing 64 ds) ≡ length ds = omega (arith, size) in
      let all : entries r.0.devices (length ds) ≡ listing 64 ds = rw count at r.2.found in
      (
        r.0.devices,
        record r.0.pass.ow { status = init_success },
        rw (r.1, search_rom) refl,
        rw all (listing-Perm 64 ds z h),
        λ i le. r.2.others i (omega (arith, size)),
      )
