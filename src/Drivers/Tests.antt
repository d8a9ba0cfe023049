-- ===== src/Drivers/Tests.antt =====
-- Two calls on a bus whose transfers succeed.
use hk_rtos.Base.{◌≡◌, [], true}
use hk_rtos.Base.{refl, ◌∷◌, false}
use hk_rtos.Bus.{Trace, BusOp, enter, leave, writes, reads}
use hk_rtos.Bus.Discipline.{free, lock_state}
use hk_rtos.Samples.{coarse, zeros, willing}
use hk_rtos.Sgp30
use hk_rtos.Display
use hk_rtos.Drivers.{sgp30_read, display_init, start, next, Reach, Reach-free}
use hk_rtos.Drivers.Interleaving.{History, IsExclusive, interleaved-IsExclusive}

abbrev config : Sgp30.Config
config = record { address = 0x58; status = Sgp30.init; raw_data = zeros; length = 6 }

abbrev after_read : Trace
after_read = (Sgp30.read_blocking willing config []).1

Reach-free_example : lock_state (Display.init willing true after_read).1 ≡ free
Reach-free_example =
    Reach-free {dev = willing} {fl = coarse}
      (next (next start (sgp30_read config [])) (display_init true after_read))

-- Two tasks that read the SGP30; the first waits for the second before its second transfer.
abbrev command : BusOp
command = writes 0x58 (0x20 ∷ 0x08 ∷ []) false

abbrev result : BusOp
result = reads 0x58 6 false

abbrev whole : Trace
whole = leave ∷ result ∷ enter ∷ leave ∷ command ∷ enter ∷ []

abbrev history : History
history =
    (0, result)
    ∷ (0, enter)
    ∷ (1, leave)
    ∷ (1, command)
    ∷ (1, enter)
    ∷ (0, leave)
    ∷ (0, command)
    ∷ (0, enter)
    ∷ []

whole-Reach : Reach willing coarse whole
unfolding Sgp30.read_blocking Sgp30.init_read Sgp30.read Sgp30.write_command Sgp30.is_in_progress
whole-Reach = next start (sgp30_read config [])

interleaved-IsExclusive_example : IsExclusive history
interleaved-IsExclusive_example =
    interleaved-IsExclusive coarse history (tt, (refl, (tt, (tt, (refl, (tt, (tt, (refl, tt))))))))
      (
        (willing, leave ∷ [], whole-Reach),
        (
          (willing, leave ∷ result ∷ [], whole-Reach),
          (
            (willing, leave ∷ result ∷ enter ∷ [], whole-Reach),
            (
              (willing, leave ∷ result ∷ enter ∷ leave ∷ [], whole-Reach),
              (
                (willing, leave ∷ result ∷ enter ∷ leave ∷ command ∷ [], whole-Reach),
                (
                  (willing, leave ∷ result ∷ enter ∷ [], whole-Reach),
                  (
                    (willing, leave ∷ result ∷ enter ∷ leave ∷ [], whole-Reach),
                    ((willing, leave ∷ result ∷ enter ∷ leave ∷ command ∷ [], whole-Reach), tt),
                  ),
                ),
              ),
            ),
          ),
        ),
      )
