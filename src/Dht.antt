-- ===== src/Dht.antt =====
-- The DHT11 and DHT22 sensors and what the DHT20 shares with them
-- (include/sensors/dht11_22/dht11_22.h, src/sensors/dht11_22/dht11_22_dma.c and dht11_22_rtos.c).
-- `poll`, one round of the loop of vDHT_Task, is given what the DMA transfer delivered before the semaphore
-- timed out, if anything; Dht/Program models the state machine that it comes from.
pub mod Packets
pub mod Program
mod Tests
use hk_rtos.Base.{ℕ, zero, suc, ◌+◌, ◌*◌, ◌/◌, ◌%◌, ◌^◌, Bool, true, false, not, Option, none, some}
use hk_rtos.Base.{List, [], ◌∷◌, bit_and, bit_or, ◌==◌, ltb, if◌then◌else◌, u8, u16, ◌-◌}
use hk_rtos.Base.Int.{ℤ, pos}
use hk_rtos.Crc.{Buffer}
use hk_rtos.F32.{F32}

pub data DhtType : Type 0 where
  dht_11 dht_22 : DhtType

pub data Status : Type 0 where
  init read_init read_success read_in_progress read_bad_checksum : Status

pub record Config : Type 0 where
  pub raw_data : Buffer
  pub length : ℕ
  pub status : Status
  pub kind : DhtType

-- The sum of the first four bytes as the sensors send it in the fifth.
pub checksum : Buffer → ℕ
checksum raw = u8 (bit_and (raw 0 + raw 1 + raw 2 + raw 3) 0xFF)

-- DHT_Read of the DMA driver: the buffer is cleared and a transfer is started.
unfoldable pub read : Config → Bool × Config
read c = if ltb c.length 5 then (false, c) else (
  true,
  record c {
    raw_data = λ i. if ltb i c.length then 0 else c.raw_data i;
    status = read_in_progress;
  },
)

module _ (fl : F32) where
  open fl use {F, of_int, decimal, add, sub, mul, div, neg, exp, log}

  pub record DataPacket : Type 0 where
    pub temperature : F
    pub dew_point : F
    pub humidity : F
    pub absolute_humidity : F

  pub set_dew_point : DataPacket → DataPacket
  set_dew_point d =
      let gamma =
        add (log (div d.humidity (decimal 1000 1)))
          (div (mul (decimal 17625 3) d.temperature) (add (decimal 24304 2) d.temperature)) in
      record d { dew_point = div (mul (decimal 24304 2) gamma) (sub (decimal 17625 3) gamma) }

  pub set_absolute_humidity : DataPacket → DataPacket
  set_absolute_humidity d =
      let p_sat =
        mul (decimal 61121 2)
          (exp (div (mul (decimal 1767 2) d.temperature) (add d.temperature (decimal 2435 1)))) in
      let p_vapor = mul p_sat (div d.humidity (decimal 1000 1)) in
      let temp_kelvin = add d.temperature (decimal 27315 2) in
      record d { absolute_humidity = div (mul (decimal 2167 3) p_vapor) temp_kelvin }

  -- The last two calls of DHT_ProcessData and of DHT20_ProcessData.
  unfoldable pub derive : DataPacket → DataPacket
  unfolding set_dew_point set_absolute_humidity
  derive d = set_dew_point (set_absolute_humidity d)

  -- The case `DHT_11`: the temperature and the humidity, with the checksum passed.
  pub measure_11 : Buffer → DataPacket → DataPacket
  measure_11 raw d =
      let t = add (of_int (pos (raw 2))) (mul (of_int (pos (raw 3))) (decimal 1 1)) in
      record d {
        humidity = add (of_int (pos (raw 0))) (mul (of_int (pos (raw 1))) (decimal 1 1));
        temperature = if not (bit_and (raw 2) 0x80 == 0) then neg t else t;
      }

  -- The case `DHT_22`.
  unfoldable pub measure_22 : Buffer → DataPacket → DataPacket
  measure_22 raw d =
      let humidity = u16 (bit_or (raw 0 * 2 ^ 8) (raw 1)) in
      let temp = u16 (bit_or (raw 2 * 2 ^ 8) (raw 3)) in
      let c = div (of_int (pos (bit_and temp 0x7FFF))) (decimal 100 1) in
      record d {
        humidity = div (of_int (pos humidity)) (decimal 100 1);
        temperature = if not (bit_and temp 0x8000 == 0) then neg c else c;
      }

  process_as : DhtType → Config → DataPacket → Config × DataPacket
  unfolding checksum measure_11 measure_22 derive
  process_as dht_11 c d =
      if not (checksum c.raw_data == c.raw_data 4)
      then (record c { status = read_bad_checksum }, d)
      else (c, derive (measure_11 c.raw_data d))
  process_as dht_22 c d = (c, derive (measure_22 c.raw_data d))

  -- DHT_ProcessData, called with both pointers set.
  pub process_data : Config → DataPacket → Config × DataPacket
  unfolding process_as
  process_data c d = process_as c.kind c d

  -- One round of vDHT_Task: the packet that goes to the queue, if one does, and the state after.
  -- The DMA channel writes five bytes.
  pub poll : Option Buffer → Config → DataPacket → Option DataPacket × Config × DataPacket
  unfolding read process_data
  poll delivered c d =
      let started = (read c).1 in
      elim delivered [
        | none ↦ (none, started, d)
        | some bytes ↦
            (let full = record started {
              raw_data = λ i. if ltb i 5 then u8 (bytes i) else started.raw_data i;
            } in
              let done = process_data full d in (some done.1, done.0, done.1))
      ]

  -- The sums of the loop of DHT_AverageData over the packets still to add.
  pub sums : List DataPacket → F → F → F × F
  sums [] rh t = (rh, t)
  sums (p ∷ ps) rh t = sums ps (add rh p.humidity) (add t p.temperature)

  -- DHT_AverageData of a non-empty array, `first` and `rest`; `len` of them.
  pub average_data : DataPacket → List DataPacket → ℕ → DataPacket
  unfolding sums derive
  average_data first rest len =
      if ltb len 2
      then record {
        temperature = first.temperature;
        dew_point = first.dew_point;
        humidity = first.humidity;
        absolute_humidity = first.absolute_humidity;
      }
      else (let s = sums (first ∷ rest) (decimal 0 1) (decimal 0 1) in
          derive (record {
            temperature = div s.1 (of_int (pos len));
            dew_point = of_int (pos 0);
            humidity = div s.0 (of_int (pos len));
            absolute_humidity = of_int (pos 0);
          }))
