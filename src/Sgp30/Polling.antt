-- ===== src/Sgp30/Polling.antt =====
-- Which measurements the driver accepts, and what a failed read does to the rounds after it.
use hk_rtos.Base.{ℕ, zero, suc, ◌+◌, ◌*◌, ◌^◌, ◌<◌, ◌≡◌, ◌≢◌, refl, sym, arith, ◌⊎◌, inl, inr}
use hk_rtos.Base.{[], ◌∷◌, false, Option, none}
use mathlib.Core.Path.{subst}
use hk_rtos.Base.Bits.{bit_or_fields}
use hk_rtos.Crc.{Buffer, IsBytes}
use hk_rtos.Bus.{Device, Trace, enter, leave, writes, reads}
use hk_rtos.Sgp30.{Config, DataPacket, read_in_progress, word_crc, process_data, poll}
use hk_rtos.Sgp30.Checksum.{crc_detects_here, crc_ext2}

abbrev pub IsIntact : Buffer → Type 0
IsIntact raw = (word_crc raw 0 ≡ raw 2) × (word_crc raw 3 ≡ raw 5)

-- A packet takes both words of an intact message, high byte first.
pub process_intact :
    (c : Config) (d : DataPacket)
    → IsBytes c.raw_data
    → IsIntact c.raw_data
    → let raw = c.raw_data in
      process_data c d ≡ record { eco2 = raw 0 * 2 ^ 8 + raw 1; tvoc = raw 3 * 2 ^ 8 + raw 4 }
unfolding process_data
process_intact c d bytes ok =
    let raw = c.raw_data in
    let b0 = bytes 0 in
    let b1 = bytes 1 in
    let b3 = bytes 3 in
    let b4 = bytes 4 in
    ground (arith, bit_or_fields 8 (raw 0) (raw 1), bit_or_fields 8 (raw 3) (raw 4))

-- The word at `k` and its checksum byte, with one of the three bytes changed, do not fit.
word_detects :
    (raw raw' : Buffer) (k j : ℕ)
    → IsBytes raw
    → IsBytes raw'
    → j < 3
    → raw (k + j) ≢ raw' (k + j)
    → ((m : ℕ) → m ≢ k + j → raw m ≡ raw' m)
    → word_crc raw k ≡ raw (k + 2)
    → word_crc raw' k ≢ raw' (k + 2)
word_detects raw raw' k zero bytes bytes' lt bad same ok e =
    crc_detects_here (λ i. raw (k + i)) (λ i. raw' (k + i)) 2 0 (omega arith) (λ i. bytes (k + i))
      (λ i. bytes' (k + i)) (omega arith) bad (λ m ne. same (k + m) (omega arith))
      (ground (arith, same (k + 2) (omega arith)))
word_detects raw raw' k (suc zero) bytes bytes' lt bad same ok e =
    crc_detects_here (λ i. raw (k + i)) (λ i. raw' (k + i)) 2 1 (omega arith) (λ i. bytes (k + i))
      (λ i. bytes' (k + i)) (omega arith) bad (λ m ne. same (k + m) (omega arith))
      (ground (arith, same (k + 2) (omega arith)))
word_detects raw raw' k (suc (suc zero)) bytes bytes' lt bad same ok e = ground (
  arith,
  crc_ext2 (λ i. raw (k + i)) (λ i. raw' (k + i)) (same (k + 0) (omega arith))
      (same (k + 1) (omega arith)),
)
word_detects raw raw' k (suc (suc (suc j))) bytes bytes' lt bad same ok e = absurd (omega arith)

-- A message that differs in exactly one of its six bytes from an intact one leaves the packet alone.
pub sgp30_process_detects :
    (c : Config) (d : DataPacket) (raw : Buffer) (k : ℕ)
    → IsBytes raw
    → IsBytes c.raw_data
    → k < 6
    → raw k ≢ c.raw_data k
    → ((m : ℕ) → m ≢ k → raw m ≡ c.raw_data m)
    → IsIntact raw
    → process_data c d ≡ d
unfolding process_data
sgp30_process_detects c d raw k bytes bytes' lt bad same ok = elim (which k lt) [
  | inl (i, e, first) ↦ ground (
    arith,
    word_detects raw c.raw_data 0 i bytes bytes' first (rw (← e) bad) (rw (← e) same) ok.0,
  )
  | inr (j, e, second) ↦ ground (
    arith,
    word_detects raw c.raw_data 3 j bytes bytes' second (rw (← e) bad) (rw (← e) same) ok.1,
  )
]
  where
    which : (k : ℕ) → k < 6 → ((j : ℕ) × (k ≡ 0 + j) × (j < 3)) ⊎ ((j : ℕ) × (k ≡ 3 + j) × (j < 3))
    which zero lt = inl (0, omega arith, omega arith)
    which (suc zero) lt = inl (1, omega arith, omega arith)
    which (suc (suc zero)) lt = inl (2, omega arith, omega arith)
    which (suc (suc (suc j))) lt = inr (j, omega arith, omega arith)

-- The rounds of the task from a given state, without what is sent.
abbrev pub rounds : Device → ℕ → Config → DataPacket → Trace → Config × Trace
rounds dev zero c d t = (c, t)
rounds dev (suc n) c d t = let r = poll dev c d t in rounds dev n r.0.1 r.0.2 r.1

abbrev pub count_writes : Trace → ℕ
count_writes [] = 0
count_writes (writes a bs n ∷ t) = suc (count_writes t)
count_writes (_ ∷ t) = count_writes t

wedged_round :
    (dev : Device) (c : Config) (d : DataPacket) (t : Trace)
    → ((s : Trace) → dev.on_read s c.address c.length false ≡ none)
    → c.status ≡ read_in_progress
    → poll dev c d t ≡ ((none, c, d), leave ∷ reads c.address c.length false ∷ enter ∷ t)
unfolding poll
wedged_round dev c d t down busy = ground (arith, down (enter ∷ t))

-- While the sensor answers no read, a task whose status is `read_in_progress` never asks for a
-- measurement again: in any number of rounds nothing is written to the bus and the status stays.
pub rounds_wedged :
    (dev : Device) (n : ℕ) (c : Config) (d : DataPacket) (t : Trace)
    → ((s : Trace) → dev.on_read s c.address c.length false ≡ none)
    → c.status ≡ read_in_progress
    → let r = rounds dev n c d t in (r.0 ≡ c) × (count_writes r.1 ≡ count_writes t)
rounds_wedged dev zero c d t down busy = (refl, refl)
rounds_wedged dev (suc n) c d t down busy =
    subst
      (λ (p : (Option DataPacket × Config × DataPacket) × Trace).
        let r = rounds dev n p.0.1 p.0.2 p.1 in (r.0 ≡ c) × (count_writes r.1 ≡ count_writes t))
      (sym (wedged_round dev c d t down busy)) (rounds_wedged dev n c d _ down busy)
