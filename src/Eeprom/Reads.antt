-- ===== src/Eeprom/Reads.antt =====
-- EEPROM_ReadBlob gives back what the chip holds.
use hk_rtos.Base.{
  ℕ, ◌+◌, ◌-◌, ◌%◌, ◌≤◌, ◌<◌, ◌≡◌, arith, ap, ◌∙◌, List, [], ◌∷◌, true, false, some, length, get_or,
  u8,
}
use hk_rtos.Crc.{Buffer}
use hk_rtos.Bus.{Device, Trace, enter, writes, fill}
use hk_rtos.Eeprom.{eeprom_addr, write_blob, read_blob}
use hk_rtos.Eeprom.Memory.{chip_size, Memory, memory, memory-enter, laid_out}
use hk_rtos.Eeprom.Blobs.{Acks, write_blob_stores}

-- A chip that answers a read behind the write of an address with the bytes from there on; its counter
-- of addresses has seven bits.
abbrev pub Answers : Device → Memory → Type 0
Answers dev m =
    (t : Trace) (a n : ℕ)
    → dev.on_read (writes eeprom_addr (a ∷ []) true ∷ t) eeprom_addr n false
      ≡ some (n, λ i. memory m t ((a + i) % chip_size))

pub read_blob_lem :
    (dev : Device) (m : Memory) (speed addr n : ℕ) (b : Buffer) (t : Trace)
    → Acks dev
    → Answers dev m
    → (read_blob dev speed addr n b t).0
      ≡ (true, fill n (λ i. memory m (enter ∷ t) ((u8 addr + i) % chip_size)) b)
unfolding read_blob
read_blob_lem dev m speed addr n b t acks answers =
    ground
      (arith, acks (enter ∷ t) eeprom_addr (u8 addr ∷ []) true, answers (enter ∷ t) (u8 addr) n)

-- A byte that is read.
pub read_blob-at :
    (dev : Device) (m : Memory) (speed addr n : ℕ) (b : Buffer) (t : Trace) (i : ℕ)
    → Acks dev
    → Answers dev m
    → addr + n ≤ chip_size
    → i < n
    → (read_blob dev speed addr n b t).0.1 i ≡ u8 (memory m t (addr + i))
read_blob-at dev m speed addr n b t i acks answers fits lt =
    let exact : (u8 addr + i) % chip_size ≡ addr + i = omega arith in
    rw (read_blob_lem dev m speed addr n b t acks answers, exact)
      (ground (arith, memory-enter m t (addr + i)))

pub in_blob :
    (a : ℕ) (bs : List ℕ) (m : Memory) (i : ℕ)
    → i < length bs
    → laid_out a bs m (a + i) ≡ get_or bs i 0
in_blob a bs m i lt = let e : a + i - a ≡ i = omega arith in rw e (ground arith)

-- A blob of bytes that was written is read back whole: on a bus that acknowledges every write and a
-- chip that answers, if the blob ends within the 128 bytes of the chip, EEPROM_ReadBlob succeeds
-- and its buffer has the bytes of the blob.
pub read_blob-write_blob :
    (dev : Device) (m : Memory) (speed addr : ℕ) (bs : List ℕ) (b : Buffer) (t : Trace)
    → Acks dev
    → Answers dev m
    → addr + length bs ≤ chip_size
    → let t' = (write_blob dev addr bs t).1 in
      let r = (read_blob dev speed addr (length bs) b t').0 in
      (r.0 ≡ true) × ((i : ℕ) → i < length bs → r.1 i ≡ u8 (get_or bs i 0))
read_blob-write_blob dev m speed addr bs b t acks answers fits =
    let t' = (write_blob dev addr bs t).1 in
    let stored = (write_blob_stores dev m addr bs t acks fits).1 in
    (
      ap (λ r. r.0) (read_blob_lem dev m speed addr (length bs) b t' acks answers),
      λ i lt.
          read_blob-at dev m speed addr (length bs) b t' i acks answers fits lt
          ∙ ap u8 (stored (addr + i) ∙ in_blob addr bs (memory m t) i lt),
    )
