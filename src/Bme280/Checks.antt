-- ===== src/Bme280/Checks.antt =====
-- What a round of the BME280 task sends, and the bounds of the compensated humidity.
use hk_rtos.Base.{
  ℕ, ◌*◌, ◌≤◌, ◌≡◌, refl, arith, Option, true, false, none, some, [], ◌∷◌, u8, inl, inr,
}
use hk_rtos.Base.{Option-cases}
use hk_rtos.Base.Int.{ℤ, pos, negsuc}
use hk_rtos.Crc.{Buffer}
use hk_rtos.Bus.{Device, Trace, fill, enter, writes}
use hk_rtos.F32.{F32}
use hk_rtos.Bme280.Compensation.{
  Params, humidity_before_bounds, bound_humidity, compensate_humidity,
}
use hk_rtos.Bme280.Packets.{DataPacket, process_data}
use hk_rtos.Bme280.{Config, read_in_progress, init_read, read, poll}

bound_humidity-le : (v : ℤ) → bound_humidity v ≤ 100 * 1024
unfolding bound_humidity
bound_humidity-le (pos n) = ground arith
bound_humidity-le (negsuc n) = ground arith

-- The humidity is at most 100 %: in 1024ths of a percent it does not exceed 102400, whatever the
-- measurement, the parameters and `t_fine` are.
pub compensate_humidity-le :
    (adc : ℤ) (p : Params) (t_fine : ℤ) → compensate_humidity adc p t_fine ≤ 100 * 1024
unfolding compensate_humidity
compensate_humidity-le adc p t_fine = bound_humidity-le (humidity_before_bounds adc p t_fine)

-- What a round sends, by the bus's answers to the write of the register's number and to the read.
abbrev pub fresh :
    (fl : F32) → Params → DataPacket fl → Option ℕ → Option (ℕ × Buffer) → Option (DataPacket fl)
fresh fl p d none r = none
fresh fl p d (some n) none = none
fresh fl p d (some n) (some r) = some (process_data fl (λ i. u8 (r.1 i)) p d)

-- The packet depends on the eight bytes only, and on no packet before.
process_data_fresh :
    (fl : F32) (b old : Buffer) (p : Params) (d d' : DataPacket fl)
    → process_data fl (fill 8 b old) p d ≡ process_data fl (λ i. u8 (b i)) p d'
unfolding process_data
process_data_fresh fl b old p d d' = refl

init_read_keeps :
    (dev : Device) (c : Config) (t : Trace)
    → let c' = (init_read dev c t).0.1 in
      (c'.address ≡ c.address)
      × (c'.raw_data ≡ c.raw_data)
      × (c'.params ≡ c.params)
      × (c'.status ≡ read_in_progress)
unfolding init_read
init_read_keeps dev c t = ground arith

module _ (dev : Device) (fl : F32) (c : Config) (d d' : DataPacket fl) (t : Trace) where
  -- A round sends a packet if and only if its own read succeeds, and then the packet is computed from
  -- the bytes of this read: neither the buffer nor the packet of an earlier round matters.
  pub poll-fresh :
      let s = (init_read dev c t).1 in
      let w = writes c.address (0xF7 ∷ []) true in
      (poll dev fl c d t).0.0
      ≡ fresh fl c.params d'
          (dev.on_write (enter ∷ s) c.address (0xF7 ∷ []) true)
          (dev.on_read (w ∷ enter ∷ s) c.address 8 false)
  unfolding poll
  poll-fresh =
      let k = init_read_keeps dev c t in
      let s = (init_read dev c t).1 in
      elim (Option-cases
        (dev.on_read (writes c.address (0xF7 ∷ []) true ∷ enter ∷ s) c.address 8 false)) [
          | inl down ↦ ground arith
          | inr (r, up) ↦ ground (arith, process_data_fresh fl r.1 c.raw_data c.params d d')
        ]

poll_in_progress :
    (dev : Device) (fl : F32) (c : Config) (d : DataPacket fl) (t : Trace)
    → c.status ≡ read_in_progress
    → (poll dev fl c d t).1 ≡ (read dev c t).1
unfolding poll init_read
poll_in_progress dev fl c d t busy = ground arith

poll-none :
    (dev : Device) (fl : F32) (c : Config) (d : DataPacket fl) (t : Trace)
    → (poll dev fl c d t).0.0 ≡ none
    → (poll dev fl c d t).0.1.status ≡ read_in_progress
unfolding poll
poll-none dev fl c d t missed = let k = init_read_keeps dev c t in ground arith

-- After a round that sent nothing, the next round starts no measurement: on the bus it does what
-- `read` does, and no more.
pub poll_skips :
    (dev : Device) (fl : F32) (c : Config) (d : DataPacket fl) (t : Trace)
    → (poll dev fl c d t).0.0 ≡ none
    → let c' = (poll dev fl c d t).0.1 in
      (d' : DataPacket fl) (t' : Trace) → (poll dev fl c' d' t').1 ≡ (read dev c' t').1
poll_skips dev fl c d t missed d' t' =
    poll_in_progress dev fl _ d' t' (poll-none dev fl c d t missed)
