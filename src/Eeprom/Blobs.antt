-- ===== src/Eeprom/Blobs.antt =====
-- EEPROM_WriteBlob puts its bytes where they belong.
use hk_rtos.Base.{ℕ, zero, suc, ◌+◌, ◌%◌, ◌≤◌, ◌<◌, ◌≡◌, arith, ap, ◌∙◌}
use hk_rtos.Base.{
  List, [], ◌∷◌, Bool, true, false, length, take, drop, u8, u16, some, length-take_le, length-drop,
}
use hk_rtos.Bus.{Device, Trace, enter, writes}
use hk_rtos.Eeprom.{Packet, page_size, eeprom_addr, write, write_blob, write_blob_from, chunk_of}
use hk_rtos.Eeprom.Memory.{
  chip_size, written, memory-written, Memory, memory, laid_out, laid_out_split,
}

-- A bus on which every write is acknowledged to the last byte.
abbrev pub Acks : Device → Type 0
Acks dev = (t : Trace) (a : ℕ) (bs : List ℕ) (n : Bool) → dev.on_write t a bs n ≡ some (length bs)

write_lem :
    (dev : Device) (p : Packet) (t : Trace)
    → Acks dev
    → 0 < length p.bytes
    → length p.bytes ≤ page_size
    → write dev p t ≡ (true, written p t)
unfolding write
write_lem dev p t acks lo hi = ground (
  arith,
  acks (enter ∷ t) eeprom_addr (u8 p.address ∷ []) true,
  acks (writes eeprom_addr (u8 p.address ∷ []) true ∷ enter ∷ t) eeprom_addr
      (u8 p.address ∷ p.bytes) false,
)

chunk_bounds :
    (a n : ℕ)
    → 0 < n
    → (0 < chunk_of a n) × (chunk_of a n ≤ n) × (a % page_size + chunk_of a n ≤ page_size)
chunk_bounds a n h = ground arith

-- The packet of one round.
abbrev packet : ℕ → List ℕ → Packet
packet a bs = record { address = a; bytes = take (chunk_of a (length bs)) bs }

round :
    (dev : Device) (fuel addr offset a : ℕ) (bs : List ℕ) (t : Trace)
    → Acks dev
    → addr + offset ≡ a
    → 0 < length bs
    → a + length bs ≤ chip_size
    → let chunk = chunk_of a (length bs) in
      write_blob_from dev (suc fuel) addr offset bs t
      ≡ write_blob_from dev fuel addr (offset + chunk) (drop chunk bs) (written (packet a bs) t)
unfolding write_blob_from
round dev fuel addr offset a bs t acks e some_left fits =
    let exact : u16 (addr + offset) ≡ a = omega arith in
    let bounds = chunk_bounds a (length bs) some_left in
    let size = length-take_le (chunk_of a (length bs)) bs bounds.1 in
    let sent = write_lem dev (packet a bs) t acks (rw size bounds.0) (rw size (omega arith)) in
    ground (arith, exact, sent)

-- What the loop leaves: its result, and the memory at one address.
abbrev Stored : Memory → ℕ → List ℕ → Trace → ℕ → ℕ × Trace → Type 0
Stored m a bs t x r = (r.0 ≡ a + length bs) × (memory m r.1 x ≡ laid_out a bs (memory m t) x)

piece :
    (m : Memory) (a : ℕ) (bs : List ℕ) (t : Trace) (x : ℕ)
    → 0 < length bs
    → a + length bs ≤ chip_size
    → let chunk = chunk_of a (length bs) in
      laid_out (a + chunk) (drop chunk bs) (memory m (written (packet a bs) t)) x
      ≡ laid_out a bs (memory m t) x
piece m a bs t x some_left fits =
    let chunk = chunk_of a (length bs) in
    let bounds = chunk_bounds a (length bs) some_left in
    let size = length-take_le chunk bs bounds.1 in
    let exact : u8 a ≡ a = omega arith in
    laid_out_split a chunk bs (memory m t) (memory m (written (packet a bs) t)) x bounds.1 (
      memory-written m (packet a bs) t x (rw exact (omega arith)) (rw (size, exact) bounds.2)
      ∙ ap (λ y. laid_out y (take chunk bs) (memory m t) x) exact)

write_blob_from-Stored :
    (dev : Device) (m : Memory) (fuel addr offset a : ℕ) (bs : List ℕ) (t : Trace) (x : ℕ)
    → Acks dev
    → addr + offset ≡ a
    → length bs < fuel
    → a + length bs ≤ chip_size
    → Stored m a bs t x (write_blob_from dev fuel addr offset bs t)
write_blob_from-Stored dev m zero addr offset a bs t x acks e enough fits = absurd (omega arith)
write_blob_from-Stored dev m (suc fuel) addr offset a [] t x acks e enough fits =
    unfold write_blob_from in (omega arith, ground arith)
write_blob_from-Stored dev m (suc fuel) addr offset a (b ∷ bs) t x acks e enough fits =
    let all : List ℕ = b ∷ bs in
    let chunk = chunk_of a (length all) in
    let bounds = chunk_bounds a (length all) (omega arith) in
    let size = length-take_le chunk all bounds.1 in
    let left = length-drop chunk all in
    let t' = written (packet a all) t in
    let rest =
      write_blob_from-Stored dev m fuel addr (offset + chunk) (a + chunk) (drop chunk all) t' x acks
        (omega arith) (omega arith) (omega arith) in
    rw (round dev fuel addr offset a all t acks e (omega arith) fits)
      (omega (arith, rest.0, left), rest.1 ∙ piece m a all t x (omega arith) fits)

-- On a bus that acknowledges every write, a blob that ends within the 128 bytes of the chip is
-- stored whole: the call returns the address behind the blob, the chip holds the blob from `addr` on,
-- and every other byte of it is as before, wherever the page limits fall.
pub write_blob_stores :
    (dev : Device) (m : Memory) (addr : ℕ) (bs : List ℕ) (t : Trace)
    → Acks dev
    → addr + length bs ≤ chip_size
    → let r = write_blob dev addr bs t in
      (r.0 ≡ addr + length bs) × ((x : ℕ) → memory m r.1 x ≡ laid_out addr bs (memory m t) x)
unfolding write_blob
write_blob_stores dev m addr bs t acks fits =
    let at = λ (x : ℕ).
      write_blob_from-Stored dev m (suc (length bs)) addr 0 addr bs t x acks (omega arith)
        (omega arith) fits in
    ((at 0).0, λ x. (at x).1)
