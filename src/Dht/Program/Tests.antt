-- ===== src/Dht/Program/Tests.antt =====
-- The program at concrete lines, and its instructions as pioasm encodes them.
use hk_rtos.Base.{ℕ, ◌≡◌, refl, arith, true, false, ◌+◌, List, [], ◌∷◌, map, some}
use hk_rtos.Samples.{coarse, zeros}
use hk_rtos.Dht
use hk_rtos.Base.Int.{pos, ◌-ℤ◌}
use hk_rtos.Pio.Encoding.{encode}
use hk_rtos.Pio.Leads.{Leads}
use hk_rtos.Dht.Program.{
  program, program_instructions, config, machine, low_delay, high_delay, refill,
}
use hk_rtos.Dht.Program.Start.{parked, IsReleased, Drives}
use hk_rtos.Dht.Program.Bytes.{ended}
use hk_rtos.Dht.Program.Unanswered.{for_bit, waiting, reads, never_asks_again}
use hk_rtos.Dht.Program.Measured.{measured, transferred}
use hk_rtos.Dht.Program.Waveform.{line, all_bits, sent}

program-encode : map encode program ≡ program_instructions
program-encode = refl

-- It waits for a bit, while the line stays high.
never_asks_again_example :
    let s = reads (λ u. true) (7 ∷ 2000000 ∷ []) (waiting 12 1 2 3 4 5 [] (6 ∷ []) false 0) in
    (s.pc ≡ 12) × (s.output ≡ false)
never_asks_again_example =
    never_asks_again (λ u. true) 12 true 1 2 3 4 5 for_bit (7 ∷ 2000000 ∷ []) 0 [] (6 ∷ []) false
      (λ u le. refl)

-- 65.2 % and -10.1 degrees, as in the data sheet of the DHT22.
abbrev cold_bytes : List ℕ
cold_bytes = 2 ∷ 0x8C ∷ 0x80 ∷ 0x65 ∷ 0x73 ∷ []

abbrev dht : Dht.Config
dht = record { raw_data = zeros; length = 5; status = Dht.read_success; kind = Dht.dht_22 }

abbrev packet : Dht.DataPacket coarse
packet = record {
  temperature = pos 0;
  dew_point = pos 0;
  humidity = pos 0;
  absolute_humidity = pos 0;
}

measured_example :
    let bytes : List ℕ = 0x73 ∷ 0x65 ∷ 0x80 ∷ 0x8C ∷ 2 ∷ [] in
    let l = line (all_bits cold_bytes) in
    (t' : ℕ) × Leads config program l
      (Drives true)
      (refill (parked 1 2 3 32 (4 ∷ []) 0))
      (machine 3 low_delay 2 low_delay 0 0 (high_delay ∷ []) [] true true 2)
    × Leads config program l
        (Drives false)
        (machine 3 low_delay 2 low_delay 0 0 (high_delay ∷ []) [] true true 2)
        (machine 6 high_delay 2 high_delay 0 0 [] [] true false 20005)
    × Leads config program l
        (Drives true)
        (machine 6 high_delay 2 high_delay 0 0 [] [] true false 20005)
        (machine 7 ended 2 high_delay 0 0 [] [] true true 20036)
    × Leads config program l IsReleased
        (machine 7 ended 2 high_delay 0 0 [] [] true true 20036)
        (machine 0 ended ended high_delay 0 0 [] bytes false false t')
    × Leads config program l
        (Drives true)
        (machine 0 ended ended high_delay 0 0 [] bytes false false t')
        (parked ended ended high_delay 0 bytes (t' + 1))
    × (p : Dht.DataPacket coarse) × ((Dht.poll coarse (transferred bytes) dht packet).0 ≡ some p)
    × (p.humidity ≡ pos 652)
    × (p.temperature ≡ pos 0 -ℤ pos 101)
measured_example =
    measured coarse (line (all_bits cold_bytes)) 652 101 true (4 ∷ []) 1 2 3 32 0 20217
      (sent cold_bytes).1 dht packet (omega arith) (omega arith) refl (sent cold_bytes).0
      (sent cold_bytes).2
