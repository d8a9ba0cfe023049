-- ===== src/Dht/Program/Measured.antt =====
-- From the sensor to the packet: what a DHT22 measures is what its task puts into the queue.
use hk_rtos.Base.{
  ℕ, ◌+◌, ◌*◌, ◌/◌, ◌%◌, ◌^◌, ◌<◌, ◌≡◌, refl, ap, arith, Bool, true, false, not, ◌==◌, List, [],
  ◌∷◌, get_or, if◌then◌else◌, Option, none, some, u16, bit_or, bit_and,
}
use hk_rtos.Base.Int.{pos}
use hk_rtos.Base.Bits.{bit_and_bit, bit_or_fields, bit_and_mask}
use hk_rtos.Crc.{Buffer}
use hk_rtos.F32.{F32}
use hk_rtos.Dht
use hk_rtos.Dht.Packets.{landed, poll_22}
use hk_rtos.Pio.{bit}
use hk_rtos.Pio.Leads.{Leads, Leads-then}
use hk_rtos.Dht.Program.{program, config, machine, refill, low_delay, high_delay}
use hk_rtos.Dht.Program.Start.{IsReleased, Drives, parked, begins, takes, asks}
use hk_rtos.Dht.Program.Signal.{Response, Sends}
use hk_rtos.Dht.Program.Bytes.{AreBytes, received, ended, five_read}

-- The channel of DHT_DMA_Init: five bytes as they have come, once there are five. The queue is newest first.
abbrev pub transferred : List ℕ → Option Buffer
transferred (e ∷ d ∷ c ∷ b ∷ a ∷ []) = some (λ i. get_or (a ∷ b ∷ c ∷ d ∷ e ∷ []) i 0)
transferred rx = none

-- What a DHT22 sends for a humidity and a temperature in tenths: each in two bytes, the highest bit of
-- the second one for its sign, and the sum.
abbrev pub tail_22 : ℕ → Bool → ℕ → List ℕ
tail_22 h below t =
    h % 2 ^ 8
    ∷ (bit below * 2 ^ 7 + t / 2 ^ 8)
    ∷ t % 2 ^ 8
    ∷ (h / 2 ^ 8 + h % 2 ^ 8 + (bit below * 2 ^ 7 + t / 2 ^ 8) + t % 2 ^ 8) % 2 ^ 8
    ∷ []

-- The test of the sign, for a number of 15 bits behind it.
sign_bit :
    (t : ℕ) (below : Bool) → t < 2 ^ 15 → not (bit_and (bit below * 2 ^ 15 + t) 0x8000 == 0) ≡ below
sign_bit t true small = let b = bit_and_bit 15 1 t small in ground (arith, b)
sign_bit t false small = let b = bit_and_bit 15 0 t small in ground (arith, b)

bit-lt : (b : Bool) → bit b < 2
bit-lt true = omega arith
bit-lt false = omega arith

module _ (fl : F32) where
  open fl use {of_int, decimal, div, neg}

  humidity_22 :
      (h : ℕ) (raw : Buffer) (d : Dht.DataPacket fl)
      → h < 2 ^ 16
      → raw 0 ≡ h / 2 ^ 8
      → raw 1 ≡ h % 2 ^ 8
      → (Dht.derive fl (Dht.measure_22 fl raw d)).humidity ≡ div (of_int (pos h)) (decimal 100 1)
  unfolding Dht.derive Dht.measure_22
  humidity_22 h raw d small e0 e1 =
      let whole : u16 (bit_or (raw 0 * 2 ^ 8) (raw 1)) ≡ h =
        omega (arith, bit_or_fields 8 (raw 0) (raw 1)) in
      ap (λ (n : ℕ). div (of_int (pos n)) (decimal 100 1)) whole

  temperature_22 :
      (t : ℕ) (below : Bool) (raw : Buffer) (d : Dht.DataPacket fl)
      → t < 2 ^ 15
      → raw 2 ≡ bit below * 2 ^ 7 + t / 2 ^ 8
      → raw 3 ≡ t % 2 ^ 8
      → (Dht.derive fl (Dht.measure_22 fl raw d)).temperature
        ≡ (let v = div (of_int (pos t)) (decimal 100 1) in if below then neg v else v)
  unfolding Dht.derive Dht.measure_22
  temperature_22 t below raw d small e2 e3 =
      let few = bit-lt below in
      let whole : u16 (bit_or (raw 2 * 2 ^ 8) (raw 3)) ≡ bit below * 2 ^ 15 + t =
        omega (arith, bit_or_fields 8 (raw 2) (raw 3)) in
      let size : bit_and (bit below * 2 ^ 15 + t) 0x7FFF ≡ t =
        omega (arith, bit_and_mask 15 (bit below * 2 ^ 15 + t)) in
      rw (whole, size, sign_bit t below small) refl

  -- With a humidity below 2 ^ 16 and a temperature below 2 ^ 15.
  decoded :
      (h t : ℕ) (below : Bool) (c : Dht.Config) (d : Dht.DataPacket fl)
      → h < 2 ^ 16
      → t < 2 ^ 15
      → c.kind ≡ Dht.dht_22
      → (p : Dht.DataPacket fl) × ((Dht.poll fl
            (transferred (received (h / 2 ^ 8 ∷ tail_22 h below t) []))
            c
            d).0
          ≡ some p)
        × (p.humidity ≡ div (of_int (pos h)) (decimal 100 1))
        × (p.temperature
            ≡ (let v = div (of_int (pos t)) (decimal 100 1) in if below then neg v else v))
  decoded h t below c d small_h small_t kind =
      let few = bit-lt below in
      let bytes : Buffer = λ i. get_or (h / 2 ^ 8 ∷ tail_22 h below t) i 0 in
      (
        Dht.derive fl (Dht.measure_22 fl (landed c bytes) d),
        poll_22 fl c d bytes kind,
        humidity_22 h (landed c bytes) d small_h (omega arith) (omega arith),
        temperature_22 t below (landed c bytes) d small_t (omega arith) (omega arith),
      )

  -- Let DHT_Read be called while the program waits for the delays of a read, from where a DHT22 answers
  -- the start signal and sends the five bytes of a humidity and a temperature in tenths, of 16 and of 15 bits and
  -- with its sign. The program drives the line high for 2 us, low for 20003 us and high for 31 us, reads the
  -- bytes while it does not drive the line, and then drives the line high and waits for the delays of the next
  -- read. With what has come into its queue a round of the task puts a packet with just this humidity and
  -- temperature into the queue of the sensor.
  pub measured :
      (line : ℕ → Bool) (h t : ℕ) (below : Bool) (rx : List ℕ) (x y osr k from first_bit end_ : ℕ)
      → (c : Dht.Config) (d : Dht.DataPacket fl) → h < 2 ^ 16
      → t < 2 ^ 15
      → c.kind ≡ Dht.dht_22
      → Response line (from + 20037) first_bit
      → Sends line first_bit (h / 2 ^ 8 ∷ tail_22 h below t) end_
      → let bytes = received (h / 2 ^ 8 ∷ tail_22 h below t) [] in
        (t' : ℕ) × Leads config program line
          (Drives true)
          (refill (parked x y osr k rx from))
          (machine 3 low_delay y low_delay 0 0 (high_delay ∷ []) [] true true (from + 2))
        × Leads config program line
            (Drives false)
            (machine 3 low_delay y low_delay 0 0 (high_delay ∷ []) [] true true (from + 2))
            (machine 6 high_delay y high_delay 0 0 [] [] true false (from + 20005))
        × Leads config program line
            (Drives true)
            (machine 6 high_delay y high_delay 0 0 [] [] true false (from + 20005))
            (machine 7 ended y high_delay 0 0 [] [] true true (from + 20036))
        × Leads config program line IsReleased
            (machine 7 ended y high_delay 0 0 [] [] true true (from + 20036))
            (machine 0 ended ended high_delay 0 0 [] bytes false false t')
        × Leads config program line
            (Drives true)
            (machine 0 ended ended high_delay 0 0 [] bytes false false t')
            (parked ended ended high_delay 0 bytes (t' + 1))
        × (p : Dht.DataPacket fl) × ((Dht.poll fl (transferred bytes) c d).0 ≡ some p)
        × (p.humidity ≡ div (of_int (pos h)) (decimal 100 1))
        × (p.temperature
            ≡ (let v = div (of_int (pos t)) (decimal 100 1) in if below then neg v else v))
  unfolding refill
  measured line h t below rx x y osr k from first_bit end_ c d small_h small_t kind a sends =
      let few = bit-lt below in
      let are_bytes : AreBytes (h / 2 ^ 8 ∷ tail_22 h below t) =
        (omega arith, (omega arith, (omega arith, (omega arith, (omega arith, tt))))) in
      let bytes = received (h / 2 ^ 8 ∷ tail_22 h below t) [] in
      let e1 : from + 2 + (low_delay + 3) ≡ from + 20005 = omega arith in
      let e2 : from + 20005 + (high_delay + 1) ≡ from + 20036 = omega arith in
      let e3 : from + 20036 + 1 ≡ from + 20037 = omega arith in
      let start = takes line low_delay high_delay x y osr k from [] in
      let asked = asks line low_delay high_delay y 0 0 (from + 2) [] (omega arith) (omega arith) in
      let r =
        five_read line [] high_delay (h / 2 ^ 8) (tail_22 h below t) (from + 20037) first_bit end_
          ended y [] refl are_bytes a sends in
      let p = decoded h t below c d small_h small_t kind in
      (
        r.0,
        start,
        rw e1 at asked.0,
        rw (e1, e2) at asked.1,
        Leads-then _ (machine 8 ended y high_delay 0 0 [] [] false false (from + 20037)) _
            (rw (e1, e2, e3) at asked.2) r.1,
        begins line ended ended high_delay 0 r.0 bytes false false,
        p.0,
        p.1,
        p.2,
        p.3,
      )
