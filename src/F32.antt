-- ===== src/F32.antt =====
-- `float` of C and the functions of math.h, which are not in this repository: any type with these
-- operations. Nothing is assumed of them.
use hk_rtos.Base.{ℕ}
use hk_rtos.Base.Int.{ℤ}

pub record F32 : Type 1 where
  pub F : Type 0
  pub of_int : ℤ → F
  -- The literal with `n` as its digits and `k` of them behind the point: `decimal 17625 3` is 17.625f.
  pub decimal : ℕ → ℕ → F
  pub add : F → F → F
  pub sub : F → F → F
  pub mul : F → F → F
  pub div : F → F → F
  pub neg : F → F
  pub exp : F → F
  pub log : F → F
