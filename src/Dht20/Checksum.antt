-- ===== src/Dht20/Checksum.antt =====
-- DHT20_CRC as a transition on one byte, and the errors that it finds.
use hk_rtos.Base.{ℕ, zero, suc, ◌+◌, ◌/◌, ◌%◌, ◌^◌, ◌<◌, ◌≡◌, ◌≢◌, refl, arith}
use hk_rtos.Base.{true, bit_xor, ◌==◌, ==_iff, if◌then◌else◌, ap, sym, ◌∙◌}
use hk_rtos.Base.Bits.{every_below, every_below_sound, bit_xor_comm, bit_xor_inj, bit_xor-lt}
use hk_rtos.Crc.{Buffer, IsBytes, absorb, ByteStep, absorb_detects}
use hk_rtos.Dht20.{crc_bits, crc_from, crc}

abbrev step : ℕ → ℕ → ℕ
step c b = crc_bits 8 (bit_xor c b)

-- The rounds run backwards.
unbits : ℕ → ℕ → ℕ
unbits zero c = c
unbits (suc n) c = let c' = unbits n c in if c' % 2 == 1 then bit_xor c' 0x31 / 2 + 0x80 else c' / 2

bits_table : every_below 256 (λ x. unbits 8 (crc_bits 8 x) == x) ≡ true
unfolding every_below unbits crc_bits
bits_table = refl

crc_bits_inj : (x y : ℕ) → x < 2 ^ 8 → y < 2 ^ 8 → crc_bits 8 x ≡ crc_bits 8 y → x ≡ y
crc_bits_inj x y p q e =
    let at = λ (z : ℕ) (h : z < 2 ^ 8). (==_iff _ z).0 (every_below_sound _ 256 z h bits_table) in
    sym (at x p) ∙ ap (unbits 8) e ∙ at y q

crc_bits-lt : (n x : ℕ) → x < 2 ^ 8 → crc_bits n x < 2 ^ 8
unfolding crc_bits
crc_bits-lt zero x h = h
crc_bits-lt (suc n) x h = crc_bits-lt n _ (ground arith)

step-ByteStep : ByteStep step
step-ByteStep = record {
  bounded = λ c b p q. crc_bits-lt 8 (bit_xor c b) (bit_xor-lt 8 c b p q);
  state_inj = λ c c' b p p' q e.
      bit_xor_inj c c' b (crc_bits_inj _ _ (bit_xor-lt 8 c b p q) (bit_xor-lt 8 c' b p' q) e);
  byte_inj = λ c b b' p q q' e. bit_xor_inj b b' c (
      bit_xor_comm b c
      ∙ crc_bits_inj _ _ (bit_xor-lt 8 c b p q) (bit_xor-lt 8 c b' p q') e
      ∙ bit_xor_comm c b');
}

crc_from-eq-absorb : (d : Buffer) (left i c : ℕ) → crc_from d left i c ≡ absorb step d left i c
unfolding crc_from
crc_from-eq-absorb d zero i c = refl
crc_from-eq-absorb d (suc left) i c = crc_from-eq-absorb d left (i + 1) (step c (d i))

-- Two messages of the same length that differ in exactly one byte have different checksums.
pub crc_detects :
    (d d' : Buffer) (len k : ℕ)
    → IsBytes d
    → IsBytes d'
    → k < len
    → d k ≢ d' k
    → ((j : ℕ) → j ≢ k → d j ≡ d' j)
    → crc d len ≢ crc d' len
unfolding crc
crc_detects d d' len k bytes bytes' lt bad same =
    rw (crc_from-eq-absorb d len 0 0xFF, crc_from-eq-absorb d' len 0 0xFF)
      (absorb_detects step step-ByteStep d d' len 0 0xFF k bytes bytes' (omega arith) (omega arith)
        (omega arith) bad same)
