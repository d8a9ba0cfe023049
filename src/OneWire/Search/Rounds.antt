-- ===== src/OneWire/Search/Rounds.antt =====
-- The rounds of a search find the addresses of the listing, one after the other.
use hk_rtos.Base.{
  ℕ, zero, suc, ◌+◌, ◌/◌, ◌^◌, ◌<◌, ◌≡◌, ◌∙◌, refl, sym, ap, arith, Bool, true, false, List, [],
  ◌∷◌, ◌++◌, length, inl, inr, Option-cases, ltb, ◌==◌, if◌then◌else◌,
}
use hk_rtos.OneWire.{resets, puts, Line, OneWire, is_busy, reset, write_success}
use hk_rtos.OneWire.Calls.{reset_lem, write_byte_lem}
use hk_rtos.OneWire.Devices.{Bits, is_some_left, after, InTree, last_open, walk, at}
use hk_rtos.OneWire.Devices.Walk.{IsSized, walk-next, after-empty}
use hk_rtos.OneWire.Search.{Address, Pass, Found, bits_from, send_from, store, rounds}
use hk_rtos.OneWire.Search.Answers.{Answers, sent_from}
use hk_rtos.OneWire.Search.Reads.{bits_of, finished_after, next_after, Walked, bits_from-Walked}

-- The first `n` addresses of an array.
unfoldable pub entries : (ℕ → Address) → ℕ → List Bits
entries devices zero = []
entries devices (suc n) = entries devices n ++ (bits_of 64 0 (devices n) ∷ [])

entries-same :
    (n : ℕ) (a b : ℕ → Address) → ((i : ℕ) → i < n → a i ≡ b i) → entries a n ≡ entries b n
unfolding entries
entries-same zero a b h = refl
entries-same (suc n) a b h =
    rw (h n (omega arith), entries-same n a b (λ i lt. h i (omega arith))) refl

send_from_lem :
    (line : Line) (left i command : ℕ) (ow : OneWire)
    → is_busy ow.status ≡ false
    → let r = send_from line left i command ow in
      (is_busy r.status ≡ false) × (r.ops ≡ sent_from left i command ow.ops)
unfolding send_from
send_from_lem line zero i command ow idle = (idle, refl)
send_from_lem line (suc left) i command ow idle =
    rw (write_byte_lem line (command / 2 ^ i) ow idle, send_from)
      (send_from_lem line left (i + 1) command
        (record { status = write_success; ops = puts (command / 2 ^ i) ∷ ow.ops }) refl)

pub length-bits_of : (left index : ℕ) (a : Address) → length (bits_of left index a) ≡ left
unfolding bits_of
length-bits_of zero index a = refl
length-bits_of (suc left) index a = ap suc (length-bits_of left (index + 1) a)

abbrev pub is_empty : List Bits → Bool
is_empty [] = true
is_empty (w ∷ ws) = false

module _ (line : Line) (command : ℕ) (ds : List Bits) (answers : Answers line command ds) where
  -- A search that has yet to find `rest`.
  pub record Ready (p : Pass) (rest : List Bits) : Type 0 where
    pub finished : p.finished ≡ is_empty rest
    pub idle : is_busy p.ow.status ≡ false
    pub step :
        (w : Bits) (ws : List Bits)
        → rest ≡ w ∷ ws
        → (walk 0 p.next_branch_point ds (bits_of 64 0 p.address) ≡ w)
          × InTree ds w
          × (after ds w ≡ ws)

  -- The loop over the bits in a round.
  abbrev pub walked : Found → Bool × Pass
  walked f =
      let p = f.pass in
      bits_from line 64 0 p.next_branch_point
        (record p { ow = send_from line 8 0 command (reset line p.ow).1; finished = true })

  pub rounds-suc :
      (fuel max_devices : ℕ) (f : Found)
      → 0 < max_devices
      → f.pass.finished ≡ false
      → rounds line (suc fuel) max_devices command f
        ≡ rounds line fuel max_devices command (store line (walked f) f)
  unfolding rounds
  rounds-suc fuel max_devices f some_max going =
      let found = reset_lem line f.pass.ow (answers.present f.pass.ow.ops) in
      let bounded : ltb 0 max_devices ≡ true = ground arith in rw (going, bounded, found) refl

  round-Walked :
      (f : Found)
      → IsSized 64 ds
      → is_some_left ds ≡ true
      → is_busy f.pass.ow.status ≡ false
      → Walked line command ds answers 64 0 f.pass.next_branch_point ds
          (record f.pass {
            ow = send_from line 8 0 command (reset line f.pass.ow).1;
            finished = true;
          })
          (walked f)
  unfolding at
  round-Walked f z alive idle =
      let p = f.pass in
      let found = reset_lem line p.ow (answers.present p.ow.ops) in
      let sent = send_from_lem line 8 0 command (reset line p.ow).1 (rw found idle) in
      let asks : (reset line p.ow).1.ops ≡ resets ∷ p.ow.ops = rw found refl in
      bits_from-Walked line command ds answers p.ow.ops 64 0 p.next_branch_point []
        (record p { ow = send_from line 8 0 command (reset line p.ow).1; finished = true }) z alive
        sent.0 (sent.1 ∙ ap (λ ops. sent_from 8 0 command ops) asks)

  next-Ready :
      (p : Pass) (w ws : Bits) (n : ℕ) (rest : List Bits)
      → IsSized 64 ds
      → bits_of 64 0 p.address ≡ w
      → InTree ds w
      → after ds w ≡ rest
      → is_busy p.ow.status ≡ false
      → p.finished ≡ finished_after (last_open 0 ds w) true
      → p.next_branch_point ≡ next_after (last_open 0 ds w) n
      → Ready p rest
  unfolding finished_after next_after
  next-Ready p w ws n rest z bits t e idle done next = elim (Option-cases (last_open 0 ds w)) [
    | inl last ↦
        let ended : rest ≡ [] = sym e ∙ after-empty 0 ds w last in
        rw ended (record { finished = rw last at done; idle = idle; step = λ w' ws' h. cc })
    | inr (j, branch) ↦
        let size : length w ≡ 64 = rw (sym bits) (length-bits_of 64 0 p.address) in
        let more = walk-next 0 j ds w (rw size z) t branch in
        let going : rest ≡ walk 0 j ds w ∷ after ds (walk 0 j ds w) = sym e ∙ more.1 in
        let ahead : p.next_branch_point ≡ j = rw branch at next in
        rw going (record {
          finished = rw branch at done;
          idle = idle;
          step = λ w' ws' h.
              let head : walk 0 j ds w ≡ w' = cc in
              let rest_same : after ds (walk 0 j ds w) ≡ ws' = cc in
              (rw (ahead, bits) head, rw (sym head) more.0, rw (sym head) rest_same);
        })
  ]

  -- A round that finds the next address.
  pub store-Ready :
      (f : Found) (w : Bits) (ws : List Bits)
      → IsSized 64 ds
      → is_some_left ds ≡ true
      → f.found_devices < 255
      → Ready f.pass (w ∷ ws)
      → Ready (walked f).1 ws
        × (walked f ≡ (false, (walked f).1))
        × (bits_of 64 0 (walked f).1.address ≡ w)
  store-Ready f w ws z alive room r =
      let k = round-Walked f z alive r.idle in
      let step = r.step w ws refl in
      let bits : bits_of 64 0 (walked f).1.address ≡ w = k.bits ∙ step.0 in
      (
        next-Ready (walked f).1 w [] f.pass.next_branch_point ws z bits step.1 step.2 k.idle
            (rw bits at k.finished) (rw bits at k.next),
        ap (λ b. (b, (walked f).1)) k.goes_on,
        bits,
      )

pub store_lem :
    (line : Line) (f : Found) (p : Pass) (w : Bits)
    → f.found_devices < 255
    → bits_of 64 0 p.address ≡ w
    → let f' = store line (false, p) f in
      (f'.pass ≡ p)
      × (f'.found_devices ≡ suc f.found_devices)
      × (entries f'.devices (suc f.found_devices) ≡ entries f.devices f.found_devices ++ (w ∷ []))
      × ((i : ℕ) → f.found_devices < i → f'.devices i ≡ f.devices i)
unfolding store entries
store_lem line f p w room bits =
    let n = f.found_devices in
    let devices' : ℕ → Address = λ i. if i == n then p.address else f.devices i in
    let before = entries-same n devices' f.devices (λ i lt. ground arith) in
    let here : devices' n ≡ p.address = ground arith in
    (refl, omega arith, rw (before, here, bits) refl, λ i lt. ground arith)
