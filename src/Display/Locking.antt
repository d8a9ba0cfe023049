-- ===== src/Display/Locking.antt =====
-- The I2C discipline of the display's transfers.
use hk_rtos.Base.{ℕ, [], ◌∷◌, arith, Bool, List}
use hk_rtos.Bus.{bytes_from, Device, ◌>>=◌}
use hk_rtos.Bus.Discipline.{Releases, >>=-Releases}
use hk_rtos.Gfx.{State}
use hk_rtos.Display.{frame_size, init_commands, send, init, refresh}

module _ (dev : Device) (linked : Bool) where
  send-Releases : (control : ℕ) (bytes : List ℕ) → Releases (send dev linked control bytes)
  unfolding send
  send-Releases control bytes t idle = ground arith

  pub init-Releases : Releases (init dev linked)
  unfolding init
  init-Releases =
      >>=-Releases (send dev linked 0x00 init_commands) (λ _. send dev linked 0x00 (0xAF ∷ []))
        (send-Releases 0x00 init_commands) (λ _. send-Releases 0x00 (0xAF ∷ []))

  pub refresh-Releases : (g : State) → Releases (refresh dev linked g)
  unfolding refresh
  refresh-Releases g =
      let frame = bytes_from frame_size 0 g.frame_buffer in
      let columns : List ℕ = 0x15 ∷ 0x00 ∷ 0x3F ∷ [] in
      let rows : List ℕ = 0x75 ∷ 0x00 ∷ 0x7F ∷ [] in
      >>=-Releases (send dev linked 0x00 columns)
        (λ _. (send dev linked 0x00 rows >>= λ _. send dev linked 0x40 frame))
        (send-Releases 0x00 columns)
        (λ _.
          >>=-Releases (send dev linked 0x00 rows) (λ _. send dev linked 0x40 frame)
            (send-Releases 0x00 rows) (λ _. send-Releases 0x40 frame))
