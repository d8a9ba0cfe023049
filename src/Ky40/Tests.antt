-- ===== src/Ky40/Tests.antt =====
-- An encoder at concrete positions.
use hk_rtos.Base.{◌-◌, ◌≡◌, refl, [], ◌∷◌}
use hk_rtos.Base.Int.{pos, negsuc, ◌+ℤ◌}
use hk_rtos.Ky40.{Encoder, isr}

abbrev encoder : Encoder
encoder = record { clk = 3; dt = 4; btn = 5; position = pos 127; last_clk = 0 }

-- One step up from the largest i8.
turned :
    isr (λ pin. 4 - pin) 3 (encoder ∷ [])
    ≡ record encoder { position = negsuc 127; last_clk = 1 } ∷ []
unfolding isr ◌+ℤ◌
turned = refl
