-- ===== src/Bus.antt =====
-- The I2C driver interface that the sensor drivers call (pico-sdk, not in this repository): the bus
-- mutex, `i2c_write_blocking` and `i2c_read_blocking`. A driver's run on one bus is the list of the
-- operations it made, newest first; the devices on the bus are a parameter that answers each
-- transfer from the operations before it.
pub mod Discipline
use hk_rtos.Base.{
  ℕ, zero, suc, ◌+◌, ◌≡◌, Bool, Option, none, some, List, [], ◌∷◌, ltb, if◌then◌else◌, u8,
}
use hk_rtos.Base.Int.{ℤ, pos, negsuc}
use hk_rtos.Crc.{Buffer}

pub data BusOp : Type 0 where
  enter leave : BusOp
  writes : ℕ → List ℕ → Bool → BusOp
  reads : ℕ → ℕ → Bool → BusOp

abbrev pub Trace : Type 0
Trace = List BusOp

-- The answers of the bus. `none` is `PICO_ERROR_GENERIC`; otherwise the number of bytes that were
-- transferred and, for a read, the bytes.
pub record Device : Type 0 where
  pub on_write : Trace → ℕ → List ℕ → Bool → Option ℕ
  pub on_read : Trace → ℕ → ℕ → Bool → Option (ℕ × Buffer)

abbrev pub M : Type 0 → Type 0
M A = Trace → A × Trace

abbrev pub pure : {A : Type 0} → A → M A
pure a t = (a, t)

infixl 5 ◌>>=◌ ◌>>◌
abbrev pub ◌>>=◌ : {A B : Type 0} → M A → (A → M B) → M B
◌>>=◌ m f t = let r = m t in f r.0 r.1

abbrev pub ◌>>◌ : {A B : Type 0} → M A → M B → M B
m >> k = m >>= λ _. k

-- mutex_enter_blocking and mutex_exit on the mutex of the bus.
abbrev pub mutex_enter : M (Unit {0})
mutex_enter t = (tt, enter ∷ t)

abbrev pub mutex_exit : M (Unit {0})
mutex_exit t = (tt, leave ∷ t)

abbrev pub i2c_write : Device → ℕ → List ℕ → Bool → M (Option ℕ)
i2c_write dev address bytes nostop t =
    (dev.on_write t address bytes nostop, writes address bytes nostop ∷ t)

abbrev pub i2c_read : Device → ℕ → ℕ → Bool → M (Option (ℕ × Buffer))
i2c_read dev address n nostop t = (dev.on_read t address n nostop, reads address n nostop ∷ t)

-- The buffer after a read of `n` bytes into it.
abbrev pub fill : ℕ → Buffer → Buffer → Buffer
fill n new old i = if ltb i n then u8 (new i) else old i

-- `n` bytes of a buffer from an index on, as a call that takes a pointer and a length sees them.
unfoldable pub bytes_from : ℕ → ℕ → Buffer → List ℕ
bytes_from zero i b = []
bytes_from (suc n) i b = b i ∷ bytes_from n (i + 1) b

-- `true`, `false` and `PICO_ERROR_GENERIC` as the `i32` that the drivers return.
abbrev pub success : ℤ
success = pos 1

abbrev pub failure : ℤ
failure = pos 0

abbrev pub generic_error : ℤ
generic_error = negsuc 0
