-- ===== src/Pms5003/Frames.antt =====
-- Which frames the driver takes.
use hk_rtos.Base.{ℕ, zero, suc, ◌+◌, ◌*◌, ◌^◌, ◌≤◌, ◌<◌, ◌≡◌, ◌≢◌, ◌↔◌, refl, arith, ◌⊎◌, inl, inr}
use hk_rtos.Base.{true, u16}
use hk_rtos.Base.Bits.{bit_or_fields}
use hk_rtos.Crc.{Buffer, IsBytes}
use hk_rtos.Pms5003.{packet_length, DataPacket, sum_from, word_at, validate_packet, process_data}

-- The sum of `n` bytes from index `i` on, as a number.
abbrev pub total : Buffer → ℕ → ℕ → ℕ
total raw zero i = 0
total raw (suc n) i = raw i + total raw n (i + 1)

total-le : (raw : Buffer) (n i : ℕ) → IsBytes raw → total raw n i ≤ n * 0xFF
total-le raw zero i bytes = omega arith
total-le raw (suc n) i bytes = let b = bytes i in omega (arith, total-le raw n (i + 1) bytes)

-- The sum of up to 256 bytes fits a u16.
sum_from-eq :
    (raw : Buffer) (n i acc : ℕ)
    → IsBytes raw
    → acc + n * 0xFF < 2 ^ 16
    → sum_from raw n i acc ≡ acc + total raw n i
unfolding sum_from
sum_from-eq raw zero i acc bytes fits = omega arith
sum_from-eq raw (suc n) i acc bytes fits =
    let b = bytes i in
    let exact : u16 (acc + raw i) ≡ acc + raw i = omega arith in
    rw exact (omega (arith, sum_from-eq raw n (i + 1) (acc + raw i) bytes (omega arith)))

word_at-eq : (raw : Buffer) (k : ℕ) → IsBytes raw → word_at raw k ≡ raw k * 2 ^ 8 + raw (k + 1)
unfolding word_at
word_at-eq raw k bytes =
    let b = bytes k in
    let b' = bytes (k + 1) in omega (arith, bit_or_fields 8 (raw k) (raw (k + 1)))

-- A frame: the two start bytes, and the sum of the first thirty bytes in the last two.
abbrev pub IsFrame : Buffer → Type 0
IsFrame raw = (raw 0 ≡ 0x42) × (raw 1 ≡ 0x4D) × (total raw 30 0 ≡ raw 30 * 2 ^ 8 + raw 31)

-- The validation accepts exactly the frames: the sum in sixteen bits loses nothing.
pub validate_packet-IsFrame :
    (raw : Buffer) → IsBytes raw → (validate_packet raw ≡ true) ↔ IsFrame raw
unfolding validate_packet
validate_packet-IsFrame raw bytes =
    let s = sum_from-eq raw 30 0 0 bytes (omega arith) in
    let w = word_at-eq raw 30 bytes in
    (
      λ h. (ground (arith, s, w), ground (arith, s, w), ground (arith, s, w)),
      λ h. ground (arith, s, w),
    )

total_ext :
    (raw raw' : Buffer) (n i : ℕ)
    → ((j : ℕ) → i ≤ j → j < i + n → raw j ≡ raw' j)
    → total raw n i ≡ total raw' n i
total_ext raw raw' zero i same = refl
total_ext raw raw' (suc n) i same = omega (
  arith,
  same i (omega arith) (omega arith),
  total_ext raw raw' n (i + 1) (λ j p q. same j (omega arith) (omega arith)),
)

-- One changed byte among those added up changes the sum by as much.
total_changed :
    (raw raw' : Buffer) (n i k : ℕ)
    → i ≤ k
    → k < i + n
    → ((j : ℕ) → j ≢ k → raw j ≡ raw' j)
    → total raw n i + raw' k ≡ total raw' n i + raw k
total_changed raw raw' zero i k lo hi same = absurd (omega arith)
total_changed raw raw' (suc n) i k lo hi same = elim (where_is i k lo) [
  | inl e ↦
      let here : raw' k ≡ raw' i = rw e refl in
      let here' : raw k ≡ raw i = rw e refl in
      omega (arith, total_ext raw raw' n (i + 1) (λ j p q. same j (omega arith)))
  | inr later ↦
      omega
        (arith, same i (omega arith), total_changed raw raw' n (i + 1) k later (omega arith) same)
]
  where
    where_is : (i k : ℕ) → i ≤ k → (i ≡ k) ⊎ (i + 1 ≤ k)
    where_is i k lo = omega arith

not_frame :
    (raw raw' : Buffer) (k : ℕ)
    → IsBytes raw
    → IsBytes raw'
    → k < packet_length
    → raw k ≢ raw' k
    → ((j : ℕ) → j ≢ k → raw j ≡ raw' j)
    → total raw 30 0 ≡ raw 30 * 2 ^ 8 + raw 31
    → total raw' 30 0 ≢ raw' 30 * 2 ^ 8 + raw' 31
not_frame raw raw' k bytes bytes' lt bad same sum sum' = elim (which k lt) [
  | inl inside ↦ omega (
    arith,
    total_changed raw raw' 30 0 k (omega arith) (omega arith) same,
    same 30 (omega arith),
    same 31 (omega arith),
  )
  | inr (inl e) ↦
      let differ : raw 30 ≢ raw' 30 = rw (← e) bad in
      omega (arith, total_ext raw raw' 30 0 (λ j p q. same j (omega arith)), same 31 (omega arith))
  | inr (inr e) ↦
      let differ : raw 31 ≢ raw' 31 = rw (← e) bad in
      omega (arith, total_ext raw raw' 30 0 (λ j p q. same j (omega arith)), same 30 (omega arith))
]
  where
    which : (k : ℕ) → k < packet_length → (k < 30) ⊎ (k ≡ 30) ⊎ (k ≡ 31)
    which k lt = omega arith

-- A frame with exactly one of its 32 bytes changed to another byte leaves the packet as it was.
pub pms_process_detects :
    (raw raw' : Buffer) (k : ℕ) (d : DataPacket)
    → IsBytes raw
    → IsBytes raw'
    → k < packet_length
    → raw k ≢ raw' k
    → ((j : ℕ) → j ≢ k → raw j ≡ raw' j)
    → IsFrame raw
    → process_data raw' d ≡ d
unfolding process_data
pms_process_detects raw raw' k d bytes bytes' lt bad same frame =
    let v = validate_packet-IsFrame raw' bytes' in
    ground (arith, v.0, not_frame raw raw' k bytes bytes' lt bad same frame.2)
