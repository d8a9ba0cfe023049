-- ===== src/Dht/Packets.antt =====
-- Which transfers the DHT11 and the DHT22 paths accept.
use hk_rtos.Base.{ℕ, zero, suc, ◌+◌, ◌%◌, ◌^◌, ◌<◌, ◌≡◌, ◌≢◌, refl, arith}
use hk_rtos.Base.{◌==◌, ltb, u8, if◌then◌else◌, Option, none, some}
use hk_rtos.Base.Bits.{bit_and_mask}
use hk_rtos.Crc.{Buffer, IsBytes}
use hk_rtos.F32.{F32}
use hk_rtos.Dht.{
  Config, DataPacket, dht_11, dht_22, read_bad_checksum, checksum, process_data, poll, read, derive,
  measure_22,
}

pub checksum_sum : (raw : Buffer) → checksum raw ≡ (raw 0 + raw 1 + raw 2 + raw 3) % 2 ^ 8
unfolding checksum
checksum_sum raw = omega (arith, bit_and_mask 8 (raw 0 + raw 1 + raw 2 + raw 3))

checksum_detects :
    (raw raw' : Buffer) (k : ℕ)
    → IsBytes raw
    → IsBytes raw'
    → k < 5
    → raw k ≢ raw' k
    → ((j : ℕ) → j ≢ k → raw j ≡ raw' j)
    → checksum raw ≡ raw 4
    → checksum raw' ≢ raw' 4
checksum_detects raw raw' zero bytes bytes' lt bad same ok e = omega (
  arith,
  checksum_sum raw,
  checksum_sum raw',
  same 1 (omega arith),
  same 2 (omega arith),
  same 3 (omega arith),
  same 4 (omega arith),
  bytes 0,
  bytes' 0,
)
checksum_detects raw raw' (suc zero) bytes bytes' lt bad same ok e = omega (
  arith,
  checksum_sum raw,
  checksum_sum raw',
  same 0 (omega arith),
  same 2 (omega arith),
  same 3 (omega arith),
  same 4 (omega arith),
  bytes 1,
  bytes' 1,
)
checksum_detects raw raw' (suc (suc zero)) bytes bytes' lt bad same ok e = omega (
  arith,
  checksum_sum raw,
  checksum_sum raw',
  same 0 (omega arith),
  same 1 (omega arith),
  same 3 (omega arith),
  same 4 (omega arith),
  bytes 2,
  bytes' 2,
)
checksum_detects raw raw' (suc (suc (suc zero))) bytes bytes' lt bad same ok e = omega (
  arith,
  checksum_sum raw,
  checksum_sum raw',
  same 0 (omega arith),
  same 1 (omega arith),
  same 2 (omega arith),
  same 4 (omega arith),
  bytes 3,
  bytes' 3,
)
checksum_detects raw raw' (suc (suc (suc (suc zero)))) bytes bytes' lt bad same ok e = omega (
  arith,
  checksum_sum raw,
  checksum_sum raw',
  same 0 (omega arith),
  same 1 (omega arith),
  same 2 (omega arith),
  same 3 (omega arith),
  bytes 4,
  bytes' 4,
)
checksum_detects raw raw' (suc (suc (suc (suc (suc k))))) bytes bytes' lt bad same ok e =
    absurd (omega arith)

-- The DHT11 path, given a buffer that differs in exactly one of its five bytes from one with a right
-- checksum, marks the checksum as bad and leaves the packet alone.
pub process_11_detects :
    (fl : F32) (c : Config) (d : DataPacket fl) (raw : Buffer) (k : ℕ)
    → IsBytes raw
    → IsBytes c.raw_data
    → k < 5
    → raw k ≢ c.raw_data k
    → ((j : ℕ) → j ≢ k → raw j ≡ c.raw_data j)
    → checksum raw ≡ raw 4
    → c.kind ≡ dht_11
    → process_data fl c d ≡ (record c { status = read_bad_checksum }, d)
unfolding process_data
process_11_detects fl c d raw k bytes bytes' lt bad same ok kind =
    ground (arith, checksum_detects raw c.raw_data k bytes bytes' lt bad same ok)

process_22 :
    (fl : F32) (c : Config) (d : DataPacket fl)
    → c.kind ≡ dht_22
    → process_data fl c d ≡ (c, derive fl (measure_22 fl c.raw_data d))
unfolding process_data
process_22 fl c d kind = rw kind refl

read_kind : (c : Config) → (read c).1.kind ≡ c.kind
unfolding read
read_kind c = ground arith

-- The buffer behind a transfer.
abbrev pub landed : Config → Buffer → Buffer
landed c bytes i = if ltb i 5 then u8 (bytes i) else (read c).1.raw_data i

pub poll_22 :
    (fl : F32) (c : Config) (d : DataPacket fl) (bytes : Buffer)
    → c.kind ≡ dht_22
    → (poll fl (some bytes) c d).0 ≡ some (derive fl (measure_22 fl (landed c bytes) d))
unfolding poll
poll_22 fl c d bytes kind =
    let full = record (read c).1 { raw_data = landed c bytes } in
    let same : (read c).1.kind ≡ dht_22 = rw (read_kind c) kind in
    rw (process_22 fl full d same) refl

-- The DHT22 path does not look at the checksum: whatever the fifth byte is, the packet is the same.
pub process_22_unchecked :
    (fl : F32) (c : Config) (d : DataPacket fl) (b : ℕ)
    → c.kind ≡ dht_22
    → let c' = record c { raw_data = λ i. if i == 4 then b else c.raw_data i } in
      (process_data fl c' d).1 ≡ (process_data fl c d).1
unfolding process_data
process_22_unchecked fl c d b kind = ground arith

-- A round of the task sends a packet exactly when the transfer was delivered: a refused checksum
-- does not keep the old packet from being sent again.
pub poll_sends :
    (fl : F32) (c : Config) (d : DataPacket fl) (delivered : Option Buffer)
    → ((delivered ≡ none) → (poll fl delivered c d).0 ≡ none)
      × ((bytes : Buffer)
          → delivered ≡ some bytes
          → (poll fl delivered c d).0 ≡ some (poll fl delivered c d).2)
unfolding poll
poll_sends fl c d none = (λ _. refl, λ bytes e. cc)
poll_sends fl c d (some bytes) = (λ e. cc, λ _ _. refl)
