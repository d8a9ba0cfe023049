-- ===== src/Dhcp/Replies.antt =====
-- What a whole run of the handler does to the leases, and what it answers.
use hk_rtos.Base.{ℕ, ◌+◌, ◌<◌, ◌≡◌, refl, sym, arith, ◌∙◌, inl, inr}
use hk_rtos.Base.{◌==◌, ◌||◌, ltb, Option, none, some, Bool-cases, Option-cases}
use hk_rtos.Base.{List, length}
use hk_rtos.Crc.{Buffer}
use hk_rtos.Dhcp.{
  Lease, Server, lease_at, max_ip, min_size, base_ip, yiaddr, options, finish, dispatch, process,
  client, reply, opt_find, answer_options,
}
use hk_rtos.Dhcp.Leases.{IsFree, Step, Fits, discover-Fits, request-Granted}

-- What a reply says: its size, the address in the range of the server and, for an acknowledgement,
-- that the client holds the slot of that address.
abbrev pub Says : Server → Buffer → List Lease → Option (ℕ × Buffer) → Type 0
Says d msg ls none = Unit
Says d msg ls (some r) =
    (r.0 ≡ 274)
    × ((yi : ℕ) × (yi < max_ip)
        × (r.1 (yiaddr + 3) ≡ base_ip + yi)
        × IsFree (client msg) (lease_at ls yi)
        × (r.1 (options + 2) ≡ 5 → (lease_at ls yi).mac ≡ client msg))

abbrev Run : (ℕ → ℕ) → Server → Buffer → Option (ℕ × Buffer) × Server → Type 0
Run now d msg r =
    Says d msg r.1.lease r.0
    × (length r.1.lease ≡ max_ip)
    × ((j : ℕ) → Step now (client msg) (lease_at d.lease j) (lease_at r.1.lease j))

ignored :
    (now : ℕ → ℕ) (d : Server) (msg : Buffer) → length d.lease ≡ max_ip → Run now d msg (none, d)
ignored now d msg len = (tt, len, λ j. inl (inl refl))

reply_fields :
    (d : Server) (kind : ℕ) (msg : Buffer) (yi : ℕ)
    → ((reply d kind msg yi).0 ≡ 274)
      × ((reply d kind msg yi).1 (yiaddr + 3) ≡ base_ip + yi)
      × ((reply d kind msg yi).1 (options + 2) ≡ kind)
unfolding reply answer_options
reply_fields d kind msg yi = (refl, refl, refl)

finish-Run :
    (now : ℕ → ℕ) (d : Server) (kind : ℕ) (msg : Buffer) (r : Option ℕ × List Lease)
    → Fits now (client msg) d.lease r
    → (kind ≡ 5 → (yi : ℕ) → r.0 ≡ some yi → (lease_at r.1 yi).mac ≡ client msg)
    → Run now d msg (finish d kind msg r)
unfolding finish
finish-Run now d kind msg (none, ls) (a, len, steps) mine = (tt, len, steps)
finish-Run now d kind msg (some yi, ls) (a, len, steps) mine =
    let f = reply_fields d kind msg yi in
    ((f.0, (yi, a.0, f.1, a.1, λ e. mine (sym f.2 ∙ e) yi refl)), len, steps)

dispatch-Run :
    (now : ℕ → ℕ) (d : Server) (msg : Buffer) (kind : ℕ)
    → length d.lease ≡ max_ip
    → Run now d msg (dispatch now d msg kind)
unfolding dispatch
dispatch-Run now d msg kind len =
    let opt : Buffer = λ i. msg (options + i) in
    elim (Bool-cases (kind == 1)) [
      | inl is_discover ↦ rw is_discover (
          finish-Run now d 2 msg _ (discover-Fits now (client msg) d.lease len)
            (λ e. absurd (ground arith)))
      | inr other ↦ rw other (elim (Bool-cases (kind == 3)) [
        | inr neither ↦ rw neither (ignored now d msg len)
        | inl is_request ↦ rw is_request (elim (Option-cases (opt_find opt 50)) [
          | inl absent ↦ rw absent (ignored now d msg len)
          | inr (o, found) ↦ rw found (
              let g = request-Granted now d.ip opt o (client msg) d.lease len in
              finish-Run now d 5 msg _ g.0 (λ e. g.1))
        ])
      ])
    ]

pub process_leases :
    (now : ℕ → ℕ) (d : Server) (tot_len : ℕ) (msg : Buffer) (len : ℕ)
    → length d.lease ≡ max_ip
    → let r = process now d tot_len msg len in
      Says d msg r.1.lease r.0
      × (length r.1.lease ≡ max_ip)
      × ((j : ℕ) → Step now (client msg) (lease_at d.lease j) (lease_at r.1.lease j))
unfolding process
process_leases now d tot_len msg len size =
    elim (Bool-cases (ltb tot_len min_size || ltb len min_size)) [
      | inl short ↦ rw short (ignored now d msg size)
      | inr long ↦ rw long (elim (Option-cases (opt_find (λ i. msg (options + i)) 53)) [
        | inl absent ↦ rw absent (ignored now d msg size)
        | inr (m, found) ↦ rw found (dispatch-Run now d msg (msg (options + m + 2)) size)
      ])
    ]
