-- ===== src/Sgp30/Checksum.antt =====
-- SGP30_CRC computes what DHT20_CRC does, so it finds the same errors.
use hk_rtos.Base.{ℕ, zero, suc, ◌+◌, ◌^◌, ◌<◌, ◌≡◌, ◌≢◌, refl, arith, bit_xor, u8}
use hk_rtos.Crc.{Buffer, IsBytes}
use hk_rtos.Dht20
use hk_rtos.Dht20.Checksum.{crc_detects}
use hk_rtos.Sgp30.{crc_bits, crc_from, crc}

bits-eq : (n c : ℕ) → crc_bits n c ≡ Dht20.crc_bits n c
unfolding crc_bits Dht20.crc_bits
bits-eq zero c = refl
bits-eq (suc n) c = bits-eq n _

-- The index is a `u8`, and wraps only from 255 on.
from-eq :
    (d : Buffer) (left i c : ℕ) → i + left < 2 ^ 8 → crc_from d left i c ≡ Dht20.crc_from d left i c
unfolding crc_from Dht20.crc_from
from-eq d zero i c h = refl
from-eq d (suc left) i c h =
    let next : u8 (i + 1) ≡ i + 1 = omega arith in
    rw (next, bits-eq 8 (bit_xor c (d i))) (from-eq d left (i + 1) _ (omega arith))

-- The checksum functions of the two drivers agree on every message of less than 256 bytes.
pub crc-eq-crc : (d : Buffer) (len : ℕ) → len < 2 ^ 8 → crc d len ≡ Dht20.crc d len
unfolding crc Dht20.crc
crc-eq-crc d len h = from-eq d len 0 0xFF (omega arith)

pub crc_detects_here :
    (d d' : Buffer) (len k : ℕ)
    → len < 2 ^ 8
    → IsBytes d
    → IsBytes d'
    → k < len
    → d k ≢ d' k
    → ((j : ℕ) → j ≢ k → d j ≡ d' j)
    → crc d len ≢ crc d' len
crc_detects_here d d' len k short bytes bytes' lt bad same =
    rw (crc-eq-crc d len short, crc-eq-crc d' len short)
      (crc_detects d d' len k bytes bytes' lt bad same)

pub crc_ext2 : (d d' : Buffer) → d 0 ≡ d' 0 → d 1 ≡ d' 1 → crc d 2 ≡ crc d' 2
unfolding crc
crc_ext2 d d' p q = rw (p, q)
