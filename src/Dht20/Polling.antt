-- ===== src/Dht20/Polling.antt =====
-- What DHT20_Read accepts, what the decoded numbers are, and what the task sends.
use hk_rtos.Base.{ℕ, zero, suc, ◌+◌, ◌*◌, ◌/◌, ◌%◌, ◌^◌, ◌<◌, ◌≡◌, ◌≢◌, refl, arith}
use hk_rtos.Base.{◌∷◌, ◌⊎◌, inl, inr}
use hk_rtos.Base.{false, none, some}
use hk_rtos.Base.Bits.{bit_or_fields, bit_and_mask}
use hk_rtos.Crc.{Buffer, IsBytes}
use hk_rtos.Bus.{Device, Trace, enter, success, failure}
use hk_rtos.F32.{F32}
use hk_rtos.Dht.{DataPacket}
use hk_rtos.Dht20.{
  Config, crc_from, crc, verdict, init_read, poll, process_data, raw_humidity, raw_temperature,
}
use hk_rtos.Dht20.Checksum.{crc_detects}

crc_from_ext :
    (d d' : Buffer) (left i c : ℕ)
    → ((j : ℕ) → j < i + left → d j ≡ d' j)
    → crc_from d left i c ≡ crc_from d' left i c
unfolding crc_from
crc_from_ext d d' zero i c same = refl
crc_from_ext d d' (suc left) i c same =
    rw (same i (omega arith)) (crc_from_ext d d' left (i + 1) _ (λ j p. same j (omega arith)))

crc_ext : (d d' : Buffer) (n : ℕ) → ((j : ℕ) → j < n → d j ≡ d' j) → crc d n ≡ crc d' n
unfolding crc
crc_ext d d' n same = crc_from_ext d d' n 0 0xFF (λ j p. same j (omega arith))

-- A message that DHT20_Read accepts, with exactly one of its seven bytes changed to another byte,
-- is refused.
pub verdict_detects :
    (d d' : Buffer) (k : ℕ)
    → IsBytes d
    → IsBytes d'
    → k < 7
    → d k ≢ d' k
    → ((j : ℕ) → j ≢ k → d j ≡ d' j)
    → verdict d ≡ success
    → verdict d' ≡ failure
verdict_detects d d' k bytes bytes' lt bad same ok = elim (split k lt) [
  | inl inside ↦ ground (arith, same 6, crc_detects d d' 6 k bytes bytes' inside bad same)
  | inr last ↦ ground (arith, rw last at bad, crc_ext d d' 6 (λ j p. same j (omega arith)))
]
  where
    split : (k : ℕ) → k < 7 → (k < 6) ⊎ (k ≡ 6)
    split k lt = omega arith

-- The data bytes as the sensor packs two numbers of 20 bits, after the status byte.
abbrev pub packed : ℕ → ℕ → Buffer
packed h t zero = 0
packed h t (suc zero) = h / 2 ^ 12
packed h t (suc (suc zero)) = h / 2 ^ 4 % 2 ^ 8
packed h t (suc (suc (suc zero))) = h % 2 ^ 4 * 2 ^ 4 + t / 2 ^ 16
packed h t (suc (suc (suc (suc zero)))) = t / 2 ^ 8 % 2 ^ 8
packed h t _ = t % 2 ^ 8

humidity_sum :
    (raw : Buffer) → IsBytes raw → raw_humidity raw ≡ raw 1 * 2 ^ 12 + raw 2 * 2 ^ 4 + raw 3 / 2 ^ 4
unfolding raw_humidity
humidity_sum raw b =
    let b2 = b 2 in
    let b3 = b 3 in
    ground (
      arith,
      bit_or_fields 12 (raw 1) (raw 2 * 2 ^ 4),
      bit_or_fields 4 (raw 1 * 2 ^ 8 + raw 2) (raw 3 / 2 ^ 4),
    )

temperature_sum :
    (raw : Buffer)
    → IsBytes raw
    → raw_temperature raw ≡ raw 3 % 2 ^ 4 * 2 ^ 16 + raw 4 * 2 ^ 8 + raw 5
unfolding raw_temperature
temperature_sum raw b =
    let b4 = b 4 in
    let b5 = b 5 in
    ground (
      arith,
      bit_and_mask 4 (raw 3),
      bit_or_fields 16 (raw 3 % 2 ^ 4) (raw 4 * 2 ^ 8),
      bit_or_fields 8 (raw 3 % 2 ^ 4 * 2 ^ 8 + raw 4) (raw 5),
    )

packed-IsBytes : (h t : ℕ) → h < 2 ^ 20 → t < 2 ^ 20 → IsBytes (packed h t)
packed-IsBytes h t p q zero = omega arith
packed-IsBytes h t p q (suc zero) = omega arith
packed-IsBytes h t p q (suc (suc zero)) = omega arith
packed-IsBytes h t p q (suc (suc (suc zero))) = omega arith
packed-IsBytes h t p q (suc (suc (suc (suc zero)))) = omega arith
packed-IsBytes h t p q (suc (suc (suc (suc (suc i))))) = omega arith

-- Decoding gives back any two numbers of 20 bits that were packed into the data bytes.
pub raw-packed :
    (h t : ℕ)
    → h < 2 ^ 20
    → t < 2 ^ 20
    → (raw_humidity (packed h t) ≡ h) × (raw_temperature (packed h t) ≡ t)
raw-packed h t p q =
    let b = packed-IsBytes h t p q in
    (omega (arith, humidity_sum (packed h t) b), omega (arith, temperature_sum (packed h t) b))

-- A read that the bus fails is no reason to skip a round: the error code is not `false`, so the task
-- decodes the buffer as it was before and sends the packet.
pub poll_stale :
    (dev : Device) (fl : F32) (c : Config) (d : DataPacket fl) (t : Trace)
    → ((s : Trace) → dev.on_read s c.address c.length false ≡ none)
    → (poll dev fl c d t).0.0 ≡ some (process_data fl c d)
unfolding poll
poll_stale dev fl c d t down = ground (arith, down (enter ∷ (init_read dev c t).1))
