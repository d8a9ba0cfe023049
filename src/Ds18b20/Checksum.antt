-- ===== src/Ds18b20/Checksum.antt =====
-- DS18B20_CRC as a transition on one byte, and the errors that it finds.
use hk_rtos.Base.{ℕ, zero, suc, ◌+◌, ◌*◌, ◌/◌, ◌%◌, ◌^◌, ◌<◌, ◌≡◌, ◌≢◌, refl, sym, ap, arith, ◌∙◌}
use hk_rtos.Base.{true, false, ◌&&◌, bit_and, bit_xor, ◌==◌, if◌then◌else◌, ltb, inl, inr}
use hk_rtos.Base.Bits.{
  every_below, every_below_sound, bit_xor_comm, bit_xor_assoc, bit_xor_inj, bit_xor_step,
  bit_xor-lt, bit_and_mask, bit_xor_zero,
}
use native.Mathlib.Nat.{pow-suc}
use hk_rtos.Base.{◌⊎◌}
use hk_rtos.Crc.{Buffer, IsBytes, absorb, ByteStep, absorb_detects}
use hk_rtos.Ds18b20.{crc_bits, crc_from, crc}

-- The rounds on one number, the exclusive or of the two that the code keeps.
rounds : ℕ → ℕ → ℕ
rounds zero x = x
rounds (suc n) x = rounds n (if x % 2 == 1 then bit_xor (x / 2) 0x8C else x / 2)

-- And backwards: 0x8C has the highest bit set.
unrounds : ℕ → ℕ → ℕ
unrounds zero y = y
unrounds (suc n) y = let y' = unrounds n y in if ltb y' 128 then y' * 2 else bit_xor y' 0x8C * 2 + 1

rounds_table : every_below 256 (λ x. (unrounds 8 (rounds 8 x) == x) && ltb (rounds 8 x) 256) ≡ true
unfolding every_below rounds unrounds
rounds_table = refl

halves : (a b : ℕ) → bit_xor (a / 2) (b / 2) ≡ bit_xor a b / 2
halves a b = omega (arith, bit_xor_step a b)

swap_right : (a b k : ℕ) → bit_xor (bit_xor a k) b ≡ bit_xor (bit_xor a b) k
swap_right a b k =
    bit_xor_assoc a k b ∙ ap (bit_xor a) (bit_xor_comm k b) ∙ sym (bit_xor_assoc a b k)

-- What is left of `bit` after the rounds is shifted out.
crc_bits-eq : (n c bit : ℕ) → bit < 2 ^ n → crc_bits n c bit ≡ rounds n (bit_xor c bit)
unfolding crc_bits rounds
crc_bits-eq zero c bit h =
    let none_left : bit ≡ 0 = omega arith in rw (none_left, bit_xor_comm c 0, bit_xor_zero c) refl
crc_bits-eq (suc n) c bit h =
    let two : 2 ^ suc n ≡ 2 ^ n * 2 = omega (arith, pow-suc 2 n) in
    let low = bit_and_mask 1 (bit_xor c bit) in
    let plain = crc_bits-eq n (c / 2) (bit / 2) (omega arith) in
    let mixed = crc_bits-eq n (bit_xor (c / 2) 0x8C) (bit / 2) (omega arith) in
    let same = swap_right (c / 2) (bit / 2) 0x8C in
    elim (parity (bit_xor c bit)) [
      | inl even ↦
          let is_zero : bit_and (bit_xor c bit) 0x01 ≡ 0 = omega arith in
          rw (is_zero, even, ← halves c bit) plain
      | inr odd ↦
          let is_one : bit_and (bit_xor c bit) 0x01 ≡ 1 = omega arith in
          rw (is_one, odd, ← halves c bit, ← same) mixed
    ]
  where
    parity : (x : ℕ) → (x % 2 ≡ 0) ⊎ (x % 2 ≡ 1)
    parity x = omega arith

abbrev step : ℕ → ℕ → ℕ
step c b = crc_bits 8 c b

at : (x : ℕ) → x < 2 ^ 8 → (unrounds 8 (rounds 8 x) ≡ x) × (rounds 8 x < 2 ^ 8)
at x h =
    let row = every_below_sound _ 256 x h rounds_table in (ground (arith, row), ground (arith, row))

rounds_inj : (x y : ℕ) → x < 2 ^ 8 → y < 2 ^ 8 → rounds 8 x ≡ rounds 8 y → x ≡ y
rounds_inj x y p q e = sym (at x p).0 ∙ ap (unrounds 8) e ∙ (at y q).0

step_inj :
    (c c' b b' : ℕ)
    → c < 2 ^ 8
    → c' < 2 ^ 8
    → b < 2 ^ 8
    → b' < 2 ^ 8
    → step c b ≡ step c' b'
    → bit_xor c b ≡ bit_xor c' b'
step_inj c c' b b' p p' q q' e =
    rounds_inj _ _ (bit_xor-lt 8 c b p q) (bit_xor-lt 8 c' b' p' q')
      (sym (crc_bits-eq 8 c b q) ∙ e ∙ crc_bits-eq 8 c' b' q')

step-ByteStep : ByteStep step
step-ByteStep = record {
  bounded = λ c b p q. rw (crc_bits-eq 8 c b q) (at _ (bit_xor-lt 8 c b p q)).1;
  state_inj = λ c c' b p p' q e. bit_xor_inj c c' b (step_inj c c' b b p p' q q e);
  byte_inj = λ c b b' p q q' e.
      bit_xor_inj b b' c (bit_xor_comm b c ∙ step_inj c c b b' p p q q' e ∙ bit_xor_comm c b');
}

crc_from-eq-absorb : (d : Buffer) (left i c : ℕ) → crc_from d left i c ≡ absorb step d left i c
unfolding crc_from
crc_from-eq-absorb d zero i c = refl
crc_from-eq-absorb d (suc left) i c = crc_from-eq-absorb d left (i + 1) (step c (d i))

-- A buffer that passes the check, with exactly one byte changed to another byte, does not pass.
pub ds18b20_crc_detects :
    (d d' : Buffer) (len k : ℕ)
    → IsBytes d
    → IsBytes d'
    → k < len
    → d k ≢ d' k
    → ((j : ℕ) → j ≢ k → d j ≡ d' j)
    → crc d len ≡ true
    → crc d' len ≡ false
unfolding crc
ds18b20_crc_detects d d' len k bytes bytes' lt bad same ok =
    let differ =
      absorb_detects step step-ByteStep d d' len 0 0 k bytes bytes' (omega arith) (omega arith)
        (omega arith) bad same in
    ground (arith, differ, crc_from-eq-absorb d len 0 0, crc_from-eq-absorb d' len 0 0)
