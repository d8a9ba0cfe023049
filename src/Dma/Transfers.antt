-- ===== src/Dma/Transfers.antt =====
-- What the end of a transfer does for the driver that has registered the channel.
use hk_rtos.Base.{
  ℕ, ◌<◌, ◌≡◌, ◌∙◌, refl, arith, Bool, true, false, not, ◌&&◌, some, [], ◌∷◌, ◌==◌, inl, inr, ◌⊎◌,
  Bool-cases, if◌then◌else◌, ltb,
}
use hk_rtos.Dma.{
  State, Status, rx_success, max_channels, no_channel, uart_register, dht_register, irq0, irq1,
  uart_isr, one_wire_isr, is_signalled, acknowledge_signalled,
}
use hk_rtos.Dma.Channels.{Irq}
use hk_rtos.Dma.Serving.{is_given, irq0-Serves}

one_wire_isr_if-uart : (b : Bool) (s : State) → (if b then one_wire_isr s else s).uart ≡ s.uart
unfolding one_wire_isr
one_wire_isr_if-uart true s = refl
one_wire_isr_if-uart false s = refl

uart_isr-uart_register :
    (s : State) (before : Status) (t channel : ℕ)
    → uart_isr (uart_register (record { status = before; semaphore = some t }) channel s)
      ≡ (t ∷ [], uart_register (record { status = rx_success; semaphore = some t }) channel s)
unfolding uart_isr uart_register
uart_isr-uart_register s before t channel = refl

and_false : (b : Bool) → (b && false) ≡ false
and_false true = refl
and_false false = refl

module _ (irq : Irq) where
  open irq use {P, status, acknowledge, status-acknowledge, status-acknowledge_other}

  acknowledge_signalled-quiet :
      (c d : ℕ) (p : P)
      → is_signalled irq d p ≡ false
      → is_signalled irq d (acknowledge_signalled irq c p) ≡ false
  unfolding acknowledge_signalled is_signalled
  acknowledge_signalled-quiet c d p h = elim (Bool-cases (is_signalled irq c p)) [
    | inl e ↦ elim (Bool-cases (d == c)) [
      | inl same ↦
          let eq : d ≡ c = ground arith in
          rw (e, eq, status-acknowledge c p, and_false (not (c == no_channel))) refl
      | inr differ ↦ rw (e, status-acknowledge_other c d p differ) h
    ]
    | inr e ↦ rw e h
  ]

  acknowledge_signalled_self :
      (c : ℕ) (p : P) → is_signalled irq c (acknowledge_signalled irq c p) ≡ false
  unfolding acknowledge_signalled
  acknowledge_signalled_self c p = elim (Bool-cases (is_signalled irq c p)) [
    | inl e ↦ rw (e, is_signalled, status-acknowledge c p, and_false (not (c == no_channel))) refl
    | inr e ↦ rw (e, e) refl
  ]

  -- After the second handler no registered channel waits, so it is not entered again for any of them.
  pub irq1_quiet :
      (s : State) (p : P) (c : ℕ)
      → (c ≡ s.uart_channel) ⊎ ((c ≡ s.rx_channel) ⊎ (c ≡ s.tx_channel))
      → is_signalled irq c (irq1 irq s p).0 ≡ false
  unfolding irq1
  irq1_quiet s p c h =
      let p1 = acknowledge_signalled irq s.uart_channel p in
      let p2 = acknowledge_signalled irq s.rx_channel p1 in
      elim h [
        | inl e ↦ acknowledge_signalled-quiet s.tx_channel c p2 (
            acknowledge_signalled-quiet s.rx_channel c p1
              (rw e (acknowledge_signalled_self s.uart_channel p)))
        | inr (inl e) ↦
            acknowledge_signalled-quiet s.tx_channel c p2
              (rw e (acknowledge_signalled_self s.rx_channel p1))
        | inr (inr e) ↦ rw e (acknowledge_signalled_self s.tx_channel p2)
      ]

  -- The end of a transfer on the channel that a UART has registered: its status is a success, and its
  -- semaphore is given once.
  uart_register-irq1 :
      (s : State) (p : P) (before : Status) (t channel : ℕ)
      → channel < no_channel
      → status channel p ≡ true
      → let result =
          (irq1 irq
            (uart_register (record { status = before; semaphore = some t }) channel s)
            p).1 in
        (result.0 ≡ t ∷ [])
        × (result.1.uart ≡ some (record { status = rx_success; semaphore = some t }))
  unfolding irq1 uart_register is_signalled
  uart_register-irq1 s p before t channel lt h =
      let on : is_signalled irq channel p ≡ true =
        (let some_channel : (channel == no_channel) ≡ false = ground arith in
          rw (some_channel, h) refl) in
      let first = uart_isr-uart_register s before t channel in
      let p1 = acknowledge_signalled irq channel p in
      let p2 = acknowledge_signalled irq s.rx_channel p1 in
      (
        rw (on, first) refl,
        one_wire_isr_if-uart (is_signalled irq s.tx_channel p2) _
            ∙ one_wire_isr_if-uart (is_signalled irq s.rx_channel p1) _
            ∙ rw (on, first) refl,
      )

  -- The end of a transfer on the channel that a DHT has registered gives its semaphore.
  pub dht_register-irq0 :
      (s : State) (p : P) (t channel : ℕ)
      → channel < max_channels
      → status channel p ≡ true
      → is_given t (irq0 irq (dht_register (some t) channel s) p).1 ≡ true
  unfolding dht_register
  dht_register-irq0 s p t channel lt h =
      (irq0-Serves irq (dht_register (some t) channel s) p).gives t (record {
        at = channel;
        from = omega arith;
        upto = omega arith;
        pending = h;
        semaphore =
            (let below : ltb channel max_channels ≡ true = ground arith in
              let same : (channel == channel) ≡ true = ground arith in rw (below, same) refl);
      })
