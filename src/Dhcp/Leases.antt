-- ===== src/Dhcp/Leases.antt =====
-- Who holds which address: what one message changes in the table, and what is answered.
use hk_rtos.Base.{
  ℕ, zero, suc, ◌+◌, ◌-◌, ◌*◌, ◌/◌, ◌^◌, ◌<◌, ◌≡◌, ◌≢◌, refl, ap, arith, ◌∙◌, ◌⊎◌, inl, inr,
}
use hk_rtos.Base.{true, false, ◌==◌, ==_iff, leb, Option, none, some}
use hk_rtos.Base.{
  List, [], ◌∷◌, length, set, length-set, get_or-set_self, get_or-set_ne, u8, u32, Bool-cases,
}
use hk_rtos.Crc.{Buffer}
use hk_rtos.Dhcp.{
  Lease, zero_mac, no_lease, lease_at, same_bytes, is_expired, search_from, max_ip, discover, grant,
  request, bytes_at, lease_time_s, base_ip,
}

same_bytes_sound : (xs ys : List ℕ) → same_bytes xs ys ≡ true → xs ≡ ys
unfolding same_bytes
same_bytes_sound [] [] e = refl
same_bytes_sound [] (y ∷ ys) e = absurd (ground arith)
same_bytes_sound (x ∷ xs) [] e = absurd (ground arith)
same_bytes_sound (x ∷ xs) (y ∷ ys) e =
    let head : x ≡ y = ground arith in
    let tail = same_bytes_sound xs ys (ground arith) in rw (head, tail) refl

-- A lease without its client.
abbrev pub freed : Lease → Lease
freed l = record { mac = zero_mac; expiry = l.expiry }

-- A slot that is the client's or no one's.
abbrev pub IsFree : List ℕ → Lease → Type 0
IsFree ch l = (l.mac ≡ ch) ⊎ (l.mac ≡ zero_mac)

-- A slot is as it was, or it is freed and its lease had expired at one of the readings of the clock.
abbrev pub Lapse : (ℕ → ℕ) → Lease → Lease → Type 0
Lapse now l l' = (l' ≡ l) ⊎ ((i : ℕ) × (is_expired l.expiry (now i) ≡ true) × (l' ≡ freed l))

Lapse-then :
    (now : ℕ → ℕ) (l : Lease) (i : ℕ) (l' : Lease)
    → is_expired l.expiry (now i) ≡ true
    → Lapse now (freed l) l'
    → Lapse now l l'
Lapse-then now l i l' old (inl e) = inr (i, old, e)
Lapse-then now l i l' old (inr (j, old', e)) = inr (i, old, e)

Lapse-set :
    (now : ℕ → ℕ) (ls : List Lease) (i j : ℕ) (l' : Lease)
    → i < length ls
    → is_expired (lease_at ls i).expiry (now i) ≡ true
    → Lapse now (lease_at (set ls i (freed (lease_at ls i))) j) l'
    → Lapse now (lease_at ls j) l'
Lapse-set now ls i j l' lt old h = elim (here i j) [
  | inl e ↦
      let at_i = get_or-set_self ls i (freed (lease_at ls i)) no_lease lt in
      let h' = rw (← e, at_i) at h in rw (← e) (Lapse-then now (lease_at ls i) i l' old h')
  | inr ne ↦ let h' = rw (get_or-set_ne ls i j (freed (lease_at ls i)) no_lease ne) at h in h'
]
  where
    here : (i j : ℕ) → (i ≡ j) ⊎ (i ≢ j)
    here i j = omega arith

-- What the search gives back: an address that is free for the client, or none, and the table.
abbrev Good : (ℕ → ℕ) → List ℕ → List Lease → ℕ × List Lease → Type 0
Good now ch ls r =
    ((r.0 ≡ max_ip) ⊎ ((r.0 < max_ip) × IsFree ch (lease_at r.1 r.0)))
    × (length r.1 ≡ max_ip)
    × ((j : ℕ) → Lapse now (lease_at ls j) (lease_at r.1 j))

search_from-Good :
    (now : ℕ → ℕ) (ch : List ℕ) (left i yi : ℕ) (ls : List Lease)
    → length ls ≡ max_ip
    → i + left ≡ max_ip
    → (yi ≡ max_ip) ⊎ ((yi < i) × IsFree ch (lease_at ls yi))
    → Good now ch ls (search_from now ch left i yi ls)
unfolding search_from
search_from-Good now ch zero i yi ls len whole ok = (ground arith, len, λ j. inl refl)
search_from-Good now ch (suc left) i yi ls len whole ok =
    let l = lease_at ls i in
    let ls' = set ls i (freed l) in
    let set_len : length ls' ≡ max_ip = length-set ls i (freed l) ∙ len in
    let at_i : lease_at ls' i ≡ freed l = get_or-set_self ls i (freed l) no_lease (omega arith) in
    elim (Bool-cases (same_bytes l.mac ch)) [
      | inl mine ↦
          rw mine (inr (omega arith, inl (same_bytes_sound l.mac ch mine)), len, λ j. inl refl)
      | inr other ↦ rw other (elim (Bool-cases (yi == max_ip)) [
        | inr chosen ↦
            rw chosen (search_from-Good now ch left (i + 1) yi ls len (omega arith) (ground arith))
        | inl none_yet ↦ rw none_yet (elim (Bool-cases (is_expired l.expiry (now i))) [
          | inl old ↦ rw old (
              let rest =
                search_from-Good now ch left (i + 1) i ls' set_len (omega arith)
                  (inr (omega arith, inr (ap (λ (k : Lease). k.mac) at_i))) in
              (rest.0, rest.1, λ j. Lapse-set now ls i j _ (omega arith) old (rest.2 j)))
          | inr recent ↦ rw recent (elim (Bool-cases (same_bytes l.mac zero_mac)) [
            | inl empty ↦ rw empty (
                search_from-Good now ch left (i + 1) i ls len (omega arith)
                  (inr (omega arith, inr (same_bytes_sound l.mac zero_mac empty))))
            | inr taken ↦
                rw taken
                  (search_from-Good now ch left (i + 1) yi ls len (omega arith) (ground arith))
          ])
        ])
      ])
    ]

-- What a message may do to a slot: the lease lapses, or the client gets an address that is its own
-- or no one's.
abbrev pub Step : (ℕ → ℕ) → List ℕ → Lease → Lease → Type 0
Step now ch l l' = Lapse now l l' ⊎ (IsFree ch l × (l'.mac ≡ ch))

-- The address that is answered, if one is, is in the range and free for the client.
abbrev pub Answered : List ℕ → Option ℕ → List Lease → Type 0
Answered ch none ls = Unit
Answered ch (some yi) ls = (yi < max_ip) × IsFree ch (lease_at ls yi)

-- What the two cases of the switch leave.
abbrev pub Fits : (ℕ → ℕ) → List ℕ → List Lease → Option ℕ × List Lease → Type 0
Fits now ch ls r =
    Answered ch r.0 r.1
    × (length r.1 ≡ max_ip)
    × ((j : ℕ) → Step now ch (lease_at ls j) (lease_at r.1 j))

pub discover-Fits :
    (now : ℕ → ℕ) (ch : List ℕ) (ls : List Lease)
    → length ls ≡ max_ip
    → Fits now ch ls (discover now ch ls)
unfolding discover
discover-Fits now ch ls len =
    let r = search_from now ch max_ip 0 max_ip ls in
    let g = search_from-Good now ch max_ip 0 max_ip ls len refl (inl refl) in
    elim g.0 [
      | inl e ↦
          let full : (r.0 == max_ip) ≡ true = (==_iff r.0 max_ip).1 e in
          rw full (tt, g.1, λ j. inl (g.2 j))
      | inr (lt, free) ↦
          let found : (r.0 == max_ip) ≡ false = below r.0 lt in
          rw found ((lt, free), g.1, λ j. inl (g.2 j))
    ]
  where
    below : (n : ℕ) → n < max_ip → (n == max_ip) ≡ false
    below n lt = ground arith

pub unanswered :
    (now : ℕ → ℕ) (ch : List ℕ) (ls : List Lease) → length ls ≡ max_ip → Fits now ch ls (none, ls)
unanswered now ch ls len = (tt, len, λ j. inl (inl refl))

-- After a request that is answered, the slot is the client's.
abbrev pub Granted : (ℕ → ℕ) → List ℕ → List Lease → Option ℕ × List Lease → Type 0
Granted now ch ls r = Fits now ch ls r × ((yi : ℕ) → r.0 ≡ some yi → (lease_at r.1 yi).mac ≡ ch)

grant-Granted :
    (now : ℕ → ℕ) (ch : List ℕ) (yi : ℕ) (ls : List Lease)
    → length ls ≡ max_ip
    → yi < max_ip
    → IsFree ch (lease_at ls yi)
    → Granted now ch ls (grant now ch yi ls)
unfolding grant
grant-Granted now ch yi ls len lt free =
    let until = u32 (u32 (now 0) + lease_time_s * 1000) / 2 ^ 16 in
    let l : Lease = record { mac = ch; expiry = until } in
    let at_yi = get_or-set_self ls yi l no_lease (omega arith) in
    let mine : (lease_at (set ls yi l) yi).mac ≡ ch = rw at_yi refl in
    (
      (
        (lt, inl mine),
        length-set ls yi l ∙ len,
        λ j. elim (here yi j) [
          | inl e ↦ inr (rw (← e) free, rw (← e) mine)
          | inr ne ↦ inl (inl (get_or-set_ne ls yi j l no_lease ne))
        ],
      ),
      λ yi' e. let same : yi ≡ yi' = ground arith in rw (← same) mine,
    )
  where
    here : (i j : ℕ) → (i ≡ j) ⊎ (i ≢ j)
    here i j = omega arith

pub request-Granted :
    (now : ℕ → ℕ) (ip opt : Buffer) (o : ℕ) (ch : List ℕ) (ls : List Lease)
    → length ls ≡ max_ip
    → Granted now ch ls (request now ip opt o ch ls)
unfolding request
request-Granted now ip opt o ch ls len =
    let yi = u8 (opt (o + 5) + 2 ^ 8 - base_ip) in
    let refused : Granted now ch ls (none, ls) =
      (unanswered now ch ls len, λ yi e. absurd (ground arith)) in
    elim (Bool-cases (same_bytes (bytes_at opt (o + 2) 3) (bytes_at ip 0 3))) [
      | inr foreign ↦ rw foreign refused
      | inl ours ↦ rw ours (elim (Bool-cases (leb max_ip yi)) [
        | inl out ↦ rw out refused
        | inr inside ↦ rw inside (elim (Bool-cases (same_bytes (lease_at ls yi).mac ch)) [
          | inl mine ↦
              rw mine
                (grant-Granted now ch yi ls len (ground arith) (inl (same_bytes_sound _ _ mine)))
          | inr other ↦ rw other (elim (Bool-cases (same_bytes (lease_at ls yi).mac zero_mac)) [
            | inl empty ↦
                rw empty
                  (grant-Granted now ch yi ls len (ground arith) (inr (same_bytes_sound _ _ empty)))
            | inr taken ↦ rw taken refused
          ])
        ])
      ])
    ]
