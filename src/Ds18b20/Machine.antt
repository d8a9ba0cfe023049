-- ===== src/Ds18b20/Machine.antt =====
-- The state machine of DS18B20_Tick, and what one round of the task does.
use hk_rtos.Base.{ℕ, zero, suc, ◌+◌, ◌≤◌, ◌<◌, ◌≡◌, refl, arith, ◌∙◌, ◌⊎◌, ◌^◌}
use hk_rtos.Base.{true, false, leb, if◌then◌else◌}
use hk_rtos.F32.{F32}
use hk_rtos.OneWire.{Line, OneWire}
use hk_rtos.Ds18b20.{
  Config, DataPacket, State, init, idle, start_conversion, waiting_for_conversion, start_read,
  reading_scratchpad, process, tick, tick_in, crc, process_data,
}

-- What the machine keeps: while it reads, the count is below the length of the buffer, which fits
-- the u8 of the count.
abbrev pub Counted : Config → Type 0
Counted c =
    (c.length < 2 ^ 8) × (0 < c.length) × (c.state ≡ reading_scratchpad → c.data_count < c.length)

module _ (line : Line) (fl : F32) (now : ℕ) where
  tick_in-Counted :
      (s : State) (c : Config) (d : DataPacket fl) (ow : OneWire)
      → c.length < 2 ^ 8
      → 0 < c.length
      → (s ≡ reading_scratchpad → c.data_count < c.length)
      → c.state ≡ s
      → Counted (tick_in line fl s now c d ow).0
  unfolding tick_in
  tick_in-Counted init c d ow short some h e = (short, some, ground arith)
  tick_in-Counted idle c d ow short some h e = (short, some, ground arith)
  tick_in-Counted start_conversion c d ow short some h e =
      (ground arith, ground arith, ground arith)
  tick_in-Counted waiting_for_conversion c d ow short some h e =
      (ground arith, ground arith, ground arith)
  tick_in-Counted start_read c d ow short some h e = (ground arith, ground arith, ground arith)
  tick_in-Counted reading_scratchpad c d ow short some h e =
      let lt = h refl in (ground arith, ground arith, ground arith)
  tick_in-Counted process c d ow short some h e = (short, some, ground arith)

  tick_in-bounds :
      (s : State) (c : Config) (d : DataPacket fl) (ow : OneWire) (j : ℕ)
      → c.length ≤ j
      → (tick_in line fl s now c d ow).0.data_buffer j ≡ c.data_buffer j
  unfolding tick_in
  tick_in-bounds init c d ow j h = refl
  tick_in-bounds idle c d ow j h = refl
  tick_in-bounds start_conversion c d ow j h = ground arith
  tick_in-bounds waiting_for_conversion c d ow j h = ground arith
  tick_in-bounds start_read c d ow j h = ground arith
  tick_in-bounds reading_scratchpad c d ow j h = ground arith
  tick_in-bounds process c d ow j h = refl

-- For a buffer of 1 to 255 bytes, a tick keeps the count below the length while the machine
-- reads, and writes to no byte behind the buffer.
pub tick-Counted :
    (line : Line) (fl : F32) (now : ℕ) (c : Config) (d : DataPacket fl) (ow : OneWire)
    → Counted c
    → let c' = (tick line fl now c d ow).0 in
      Counted c' × ((j : ℕ) → c.length ≤ j → c'.data_buffer j ≡ c.data_buffer j)
unfolding tick
tick-Counted line fl now c d ow (short, some, h) = (
  tick_in-Counted line fl now c.state c d ow short some h refl,
  tick_in-bounds line fl now c.state c d ow,
)

-- The ticks that read the scratchpad, one after the other.
abbrev pub ticks : Line → (fl : F32) → ℕ → (ℕ → ℕ) → Config → DataPacket fl → OneWire → Config
ticks line fl zero now c d ow = c
ticks line fl (suc n) now c d ow =
    let r = tick line fl (now n) c d ow in ticks line fl n now r.0 r.1 r.2

read_tick :
    (line : Line) (fl : F32) (now : ℕ) (c : Config) (d : DataPacket fl) (ow : OneWire)
    → c.length < 2 ^ 8
    → c.state ≡ reading_scratchpad
    → c.data_count < c.length
    → let c' = (tick line fl now c d ow).0 in
      (c'.length ≡ c.length)
      × (c'.data_count ≡ c.data_count + 1)
      × (c'.state ≡ (if leb c.length (c.data_count + 1) then process else reading_scratchpad))
unfolding tick tick_in
read_tick line fl now c d ow short e lt = rw e (ground arith, ground arith, ground arith)

-- With a buffer of at most 255 bytes, a machine that reads, and has fewer bytes than the buffer takes, is
-- through with it after as many ticks as there are bytes left, whatever comes from the line, and goes on to
-- the processing.
pub ticks_finish :
    (line : Line) (fl : F32) (left : ℕ) (now : ℕ → ℕ) (c : Config) (d : DataPacket fl)
    (ow : OneWire)
    → c.length < 2 ^ 8
    → c.state ≡ reading_scratchpad
    → c.data_count + suc left ≡ c.length
    → (ticks line fl (suc left) now c d ow).state ≡ process
ticks_finish line fl zero now c d ow short e whole =
    let r = read_tick line fl (now 0) c d ow short e (omega arith) in
    let done : leb c.length (c.data_count + 1) ≡ true = ground arith in r.2 ∙ rw done refl
ticks_finish line fl (suc left) now c d ow short e whole =
    let t = tick line fl (now (suc left)) c d ow in
    let r = read_tick line fl (now (suc left)) c d ow short e (omega arith) in
    let more : leb c.length (c.data_count + 1) ≡ false = ground arith in
    ticks_finish line fl left now t.0 t.1 t.2 (rw r.0 short) (r.2 ∙ rw more refl)
      (rw (r.0, r.1) (omega arith))

-- The packet that the task sends is untouched, and so is the address in it, unless the buffer that
-- was read passes its check; and a packet that is updated has the address 0, whatever the sensor's.
process_data_checks :
    (line : Line) (fl : F32) (c : Config) (d : DataPacket fl) (ow : OneWire)
    → let r = process_data line fl c d ow in
      ((r.0 ≡ false) × (r.2 ≡ d))
      ⊎ ((r.0 ≡ true) × (crc r.1.data_buffer r.1.length ≡ true) × (r.2.address ≡ 0))
unfolding process_data
process_data_checks line fl c d ow = ground arith
