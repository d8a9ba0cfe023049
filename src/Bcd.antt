-- ===== src/Bcd.antt =====
-- Binary-coded decimals (include/core/bcd.h): `int_to_bcd` is intToBCD, `bcd_to_int` BCDToInt.
use hk_rtos.Base.{ℕ, ◌+◌, ◌*◌, ◌/◌, ◌%◌, ◌^◌, ◌<◌, ◌≡◌, arith, u8, bit_and, bit_or}
use hk_rtos.Base.Bits.{bit_or_fields, bit_and_mask}

pub int_to_bcd : ℕ → ℕ
int_to_bcd num = u8 (bit_or (num / 10 * 2 ^ 4) (num % 10))

pub bcd_to_int : ℕ → ℕ
bcd_to_int num = u8 (num / 2 ^ 4 * 10 + bit_and num 0x0F)

int_to_bcd_lem : (n : ℕ) → n < 100 → int_to_bcd n ≡ n / 10 * 2 ^ 4 + n % 10
unfolding int_to_bcd
int_to_bcd_lem n h = omega (arith, bit_or_fields 4 (n / 10) (n % 10))

pub bcd_to_int_lem : (n : ℕ) → n < 2 ^ 8 → bcd_to_int n ≡ n / 2 ^ 4 * 10 + n % 2 ^ 4
unfolding bcd_to_int
bcd_to_int_lem n h = omega (arith, bit_and_mask 4 n)

-- A number below 100 is read back from its two decimal digits.
pub bcd_to_int-int_to_bcd : (n : ℕ) → n < 100 → bcd_to_int (int_to_bcd n) ≡ n
bcd_to_int-int_to_bcd n h =
    let e = int_to_bcd_lem n h in omega (arith, e, bcd_to_int_lem (int_to_bcd n) (omega arith))

-- And a byte of two decimal digits is written again as it was read.
pub int_to_bcd-bcd_to_int :
    (b : ℕ) → b / 2 ^ 4 < 10 → b % 2 ^ 4 < 10 → int_to_bcd (bcd_to_int b) ≡ b
int_to_bcd-bcd_to_int b hi lo =
    let e = bcd_to_int_lem b (omega arith) in
    omega (arith, e, int_to_bcd_lem (bcd_to_int b) (omega arith))
