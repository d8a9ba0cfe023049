-- ===== src/Samples.antt =====
-- Data for the tests: an arithmetic in the place of the floats, two devices, and plain buffers.
use hk_rtos.Base.{ℕ, ◌%◌, ◌^◌, ◌<◌, arith, none, some, if◌then◌else◌, ◌==◌, length}
use hk_rtos.Base.Int.{ℤ, pos, ◌+ℤ◌, ◌-ℤ◌, ◌*ℤ◌}
use hk_rtos.Crc.{Buffer, IsBytes}
use hk_rtos.Bus.{Device}
use hk_rtos.F32.{F32}
use hk_rtos.Dht
use hk_rtos.Bme280.Packets.{DataPacket}
use hk_rtos.Ds18b20
use hk_rtos.Averages.{Snapshot}
use hk_rtos.Base.{Option, [], ◌∷◌, true, ◌+◌}
use hk_rtos.Bus.{Trace, writes}
use hk_rtos.Eeprom.Memory.{chip_size, Memory, memory}

-- Integers, with a division that keeps its first argument.
abbrev pub coarse : F32
coarse = record {
  F = ℤ;
  of_int = λ a. a;
  decimal = λ n k. pos n;
  add = λ a b. a +ℤ b;
  sub = λ a b. a -ℤ b;
  mul = λ a b. a *ℤ b;
  div = λ a b. a;
  neg = λ a. pos 0 -ℤ a;
  exp = λ a. a;
  log = λ a. a;
}

abbrev pub zeros : Buffer
zeros i = 0

abbrev pub with_byte : ℕ → ℕ → Buffer → Buffer
with_byte k b d i = if i == k then b else d i

-- Every transfer succeeds, and what is read is zero.
abbrev pub willing : Device
willing = record { on_write = λ t a bs n. some (length bs); on_read = λ t a n s. some (n, zeros) }

-- No transfer succeeds.
abbrev pub dead : Device
dead = record { on_write = λ t a bs n. none; on_read = λ t a n s. none }

pub zeros-IsBytes : IsBytes zeros
zeros-IsBytes i = omega arith

pub with_byte-IsBytes : (k b : ℕ) (d : Buffer) → b < 2 ^ 8 → IsBytes d → IsBytes (with_byte k b d)
with_byte-IsBytes k b d h bytes i = let bi = bytes i in ground arith

-- A bus with the memory chip of the EEPROM's data sheet on it.
abbrev pub answer : Memory → Trace → ℕ → Option (ℕ × Buffer)
answer m (writes dev (a ∷ []) true ∷ t) n = some (n, λ i. memory m t ((a + i) % chip_size))
answer m _ n = none

abbrev pub chip : Memory → Device
chip m = record { on_write = λ t a bs n. some (length bs); on_read = λ t a n s. answer m t n }

-- Measurements.
abbrev pub dht : Dht.DataPacket coarse
dht = record {
  temperature = pos 20;
  dew_point = pos 9;
  humidity = pos 50;
  absolute_humidity = pos 8;
}

abbrev pub bme : DataPacket coarse
bme = record {
  pressure = pos 1000;
  temperature = pos 21;
  dew_point = pos 9;
  humidity = pos 51;
  absolute_humidity = pos 8;
}

abbrev pub snapshot : Snapshot coarse
snapshot = record {
  dht_0 = dht;
  dht_1 = dht;
  dht_2 = dht;
  dht_3 = dht;
  bme280_0 = bme;
  bme280_1 = bme;
  ds18b20_0 = record { temperature = pos 22; address = 0; status = Ds18b20.unset };
}
