-- ===== src/OneWire/Search.antt =====
-- OneWire_SearchROM (src/comm/onewire/onewire.c). An address of 64 bits is a function from the number
-- of a bit, the lowest first, and the array of the addresses a function from indices. OneWire_Init
-- sets the status; that it finds room for its program is taken for granted. The line is in the mode
-- of one bit, where the bit that is read is the highest one of its word.
pub mod Answers
pub mod Reads
pub mod Rounds
pub mod Finds
pub mod Ideal
use hk_rtos.Base.{
  ℕ, zero, suc, ◌+◌, ◌-◌, ◌/◌, ◌^◌, Bool, true, false, not, ◌&&◌, ◌||◌, Option, none, some, ltb,
  ◌==◌, if◌then◌else◌, u8,
}
use hk_rtos.OneWire.{Line, OneWire, init_success, reset, write_byte, read}

abbrev pub Address : Type 0
Address = ℕ → Bool

abbrev pub write_bit : Bool → ℕ
write_bit false = 0
write_bit true = 1

-- What is done for a bit: the bit to write and whether a branch is left open there, or the end.
pub data Choice : Type 0 where
  takes : Bool → Bool → Choice
  disconnected : Choice

-- The tests of the loop over the bits; `old` is the bit of the address.
unfoldable pub choose : ℕ → ℕ → ℕ → ℕ → Bool → Choice
choose a b index branch_point old =
    if a == 0 && b == 0
    then if index == branch_point
      then takes true false
      else if ltb branch_point index || not old
      then takes false true
      else takes true false
    else if not (a == 0) && not (b == 0)
    then disconnected
    else if a == 0
    then takes false false
    else takes true false

-- The variables of the loop over the bits.
pub record Pass : Type 0 where
  pub ow : OneWire
  pub address : Address
  pub finished : Bool
  pub next_branch_point : ℕ

-- What the array and the number of devices add.
pub record Found : Type 0 where
  pub pass : Pass
  pub devices : ℕ → Address
  pub found_devices : ℕ

module _ (line : Line) where
  -- The eight writes of the command, from bit `i` on.
  pub send_from : ℕ → ℕ → ℕ → OneWire → OneWire
  send_from zero i command ow = ow
  send_from (suc left) i command ow =
      send_from left (i + 1) command (write_byte line (command / 2 ^ i) ow).1

  -- A bit that the search has chosen.
  pub take : ℕ → Bool → Bool → OneWire → Pass → Pass
  take index bit opens ow s = record {
    ow = (write_byte line (write_bit bit) ow).1;
    address = λ i. if i == index then bit else s.address i;
    finished = if opens then false else s.finished;
    next_branch_point = if opens then index else s.next_branch_point;
  }

  -- The loop over the bits; `true` when it has ended early, with no device.
  pub bits_from : ℕ → ℕ → ℕ → Pass → Bool × Pass
  unfolding take
  bits_from zero index branch_point s = (false, s)
  bits_from (suc left) index branch_point s =
      let ra = read line s.ow in
      let rb = read line ra.1 in
      elim (choose ra.0 rb.0 index branch_point (s.address index)) [
        | takes bit opens ↦ bits_from left (index + 1) branch_point (take index bit opens rb.1 s)
        | disconnected ↦ (true, record s { ow = rb.1; finished = true })
      ]

  -- The end of a round: the address is stored. -2 is the number of devices after an early end.
  pub store : Bool × Pass → Found → Found
  store (early, p) f =
      let n = if early then 254 else f.found_devices in
      record {
        pass = p;
        devices = λ i. if i == n then p.address else f.devices i;
        found_devices = u8 (n + 1);
      }

  -- The outer loop, with fuel for its rounds.
  pub rounds : ℕ → ℕ → ℕ → Found → Option Found
  unfolding store
  rounds zero max_devices command f = none
  rounds (suc fuel) max_devices command f =
      let p = f.pass in
      let r = reset line p.ow in
      let sent = send_from 8 0 command r.1 in
      let walked = bits_from 64 0 p.next_branch_point (record p { ow = sent; finished = true }) in
      let rest = rounds fuel max_devices command (store walked f) in
      if not p.finished && (ltb 0 max_devices || ltb f.found_devices max_devices)
      then (if not r.0
          then some (record f { pass = record p { ow = r.1; finished = true }; found_devices = 0 })
          else rest)
      else some f

  pub search_rom : ℕ → ℕ → ℕ → (ℕ → Address) → OneWire → Option ((ℕ → Address) × OneWire)
  unfolding rounds
  search_rom fuel max_devices command devices ow =
      let p : Pass = record {
        ow = record ow { status = init_success };
        address = λ i. false;
        finished = false;
        next_branch_point = 2 ^ 32 - 1;
      } in
      elim (rounds fuel max_devices command
        (record { pass = p; devices = devices; found_devices = 0 })) [
          | none ↦ none
          | some f ↦ some (f.devices, record f.pass.ow { status = init_success })
        ]
