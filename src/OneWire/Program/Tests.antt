-- ===== src/OneWire/Program/Tests.antt =====
-- The program at a concrete line, and its instructions as pioasm encodes them.
use hk_rtos.Base.{◌≤◌, ℕ, ◌≡◌, refl, arith, Bool, true, false, not, ◌&&◌, [], ◌∷◌, map, ltb}
use hk_rtos.Pio.Encoding.{encode}
use hk_rtos.OneWire.{OneWire, init_success, reset, resets, puts, read}
use hk_rtos.OneWire.Program.{program, program_instructions, bus}
use hk_rtos.OneWire.Program.Slots.{Slots, Phase, LetsGo, Pulls, ended}
use hk_rtos.OneWire.Program.Bytes.{read_samples, ones}
use hk_rtos.OneWire.Program.Runs.{Runs, physical-Runs}
use hk_rtos.OneWire.Program.Reset.{reset_finds}

program-encode : map encode program ≡ program_instructions
program-encode = refl

-- The other pins are low.
abbrev others : ℕ → ℕ
others u = 0

-- A device pulls the line low until 200 us, and another one between 500 us and 700 us.
abbrev line : ℕ → Bool
line u = not (ltb u 200) && not (ltb 499 u && ltb u 700)

abbrev idle : OneWire
idle = record { status = init_success; ops = [] }

read_samples_example :
    Phase others line LetsGo 1
      (bus 1 8 2 3 8 0 0 (0xFF ∷ []) [] false 0)
      (bus 1 8 2 0xFF 0 0 0 [] [] false 1)
    × Slots others line ones
        (bus 1 8 2 0xFF 0 0 0 [] [] false 1)
        (bus 1 8 ended 0 8 0 0 [] (0x78000000 ∷ []) false 561)
    × ((read (λ ops. 0x78000000) idle).0 ≡ 0x78)
read_samples_example =
    read_samples others line 1 2 3 8 0 [] (λ ops. 0x78000000) idle (omega arith) refl refl

reset_finds_example :
    Phase others line Pulls 480
      (bus 1 0 2 3 8 4 5 [] [] false 0)
      (bus 1 2 ended 3 8 4 5 [] [] true 480)
    × Phase others line LetsGo 70
        (bus 1 2 ended 3 8 4 5 [] [] true 480)
        (bus 1 4 ended 3 8 4 5 [] [] false 550)
    × Phase others line LetsGo 410
        (bus 1 4 ended 3 8 4 5 [] [] false 550)
        (bus 1 8 ended 3 8 0 0 [] (0 ∷ []) false 960)
    × ((reset (λ ops. 0) idle).0 ≡ true)
reset_finds_example = reset_finds others line 1 3 8 [] 2 4 5 0 (λ ops. 0) idle refl

-- A reset, and 5 us later the byte 0x44, which is sent after the device has let go: it comes back as it
-- was sent.
physical-Runs_example :
    (x' osr' k' : ℕ) × (8 ≤ k')
    × Runs others line
        (λ n. 5)
        (puts 0x44 ∷ resets ∷ [])
        (bus 1 8 2 3 32 0 0 [] [] false 0)
        (bus 1 8 x' osr' k' 0 0 [] (0x44000000 ∷ 0 ∷ []) false 1531)
physical-Runs_example =
    physical-Runs others line (λ n. 5) 1 2 3 32 (puts 0x44 ∷ resets ∷ []) (omega arith)
      (omega arith, tt)
