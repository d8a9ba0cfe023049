-- ===== src/Dma.antt =====
-- The handlers of the DMA interrupts and the channels that the drivers register
-- (src/comm/dma_irq_handler.c). The status of the channels is a function of the pico-sdk and so an
-- interface; a semaphore is a number, and a run of a handler lists the semaphores that it gives.
-- Waking the scheduler is left out.
pub mod Channels
pub mod Serving
pub mod Transfers
mod Tests
use hk_rtos.Base.{
  ℕ, zero, suc, ◌+◌, Bool, not, ◌&&◌, Option, none, some, List, [], ◌∷◌, ltb, ◌==◌, if◌then◌else◌,
}
use hk_rtos.Dma.Channels.{Irq}

abbrev pub max_channels : ℕ
max_channels = 12

-- -1 as u32: no channel is registered.
abbrev pub no_channel : ℕ
no_channel = 4294967295

-- UART_DATA_RX_SUCCESS and ONEW_DMA_SUCCESS; the other values of `status` are not used here.
pub data Status : Type 0 where
  rx_success dma_success other : Status

-- The fields of UART_Config_t that the handler uses.
pub record Uart : Type 0 where
  pub status : Status
  pub semaphore : Option ℕ

-- The static variables; `dht` holds the semaphores of dhtConfigsByChannel.
pub record State : Type 0 where
  pub uart_channel : ℕ
  pub uart : Option Uart
  pub rx_channel : ℕ
  pub tx_channel : ℕ
  pub one_wire : Option Status
  pub dht : ℕ → Option (Option ℕ)

pub initial : State
initial = record {
  uart_channel = no_channel;
  uart = none;
  rx_channel = no_channel;
  tx_channel = no_channel;
  one_wire = none;
  dht = λ c. none;
}

pub uart_register : Uart → ℕ → State → State
uart_register config channel s = record s { uart = some config; uart_channel = channel }

pub one_wire_rx_register : Status → ℕ → State → State
one_wire_rx_register config channel s = record s { one_wire = some config; rx_channel = channel }

pub one_wire_tx_register : Status → ℕ → State → State
one_wire_tx_register config channel s = record s { one_wire = some config; tx_channel = channel }

-- The configuration of a DHT by its semaphore.
pub dht_register : Option ℕ → ℕ → State → State
dht_register semaphore channel s = record s {
  dht = λ c. if ltb channel max_channels && (c == channel) then some semaphore else s.dht c;
}

-- The semaphore of a DHT, before those of the rest.
pub wake : Option (Option ℕ) → List ℕ → List ℕ
wake none rest = rest
wake (some none) rest = rest
wake (some (some s)) rest = s ∷ rest

-- DMA_UART_ISR.
pub uart_isr : State → List ℕ × State
uart_isr s = elim s.uart [
  | none ↦ ([], s)
  | some config ↦ elim config.semaphore [
    | none ↦ ([], s)
    | some semaphore ↦
        (semaphore ∷ [], record s { uart = some (record config { status = rx_success }) })
  ]
]

-- DMA_OneWire_ISR.
pub one_wire_isr : State → State
one_wire_isr s = record s {
  one_wire = elim s.one_wire [ none ↦ none | some config ↦ some dma_success ];
}

module _ (irq : Irq) where
  open irq use {P, status, acknowledge}

  -- The loop of DMA_IRQ0_ISR from `channel` on, with `left` rounds left.
  pub irq0_from : ℕ → ℕ → (ℕ → Option (Option ℕ)) → P → P × List ℕ
  unfolding wake
  irq0_from zero channel dht p = (p, [])
  irq0_from (suc left) channel dht p =
      let p' = if status channel p then acknowledge channel p else p in
      let rest = irq0_from left (channel + 1) dht p' in
      (rest.0, if status channel p then wake (dht channel) rest.1 else rest.1)

  pub irq0 : State → P → P × List ℕ
  irq0 s p = irq0_from max_channels 0 s.dht p

  -- The test of one channel in DMA_IRQ1_ISR.
  pub is_signalled : ℕ → P → Bool
  is_signalled channel p = not (channel == no_channel) && status channel p

  pub acknowledge_signalled : ℕ → P → P
  unfolding is_signalled
  acknowledge_signalled channel p = if is_signalled channel p then acknowledge channel p else p

  -- DMA_IRQ1_ISR.
  pub irq1 : State → P → P × (List ℕ × State)
  unfolding is_signalled acknowledge_signalled
  irq1 s p =
      let from_uart = if is_signalled s.uart_channel p then uart_isr s else ([], s) in
      let p1 = acknowledge_signalled s.uart_channel p in
      let s1 = from_uart.1 in
      let s2 = if is_signalled s.rx_channel p1 then one_wire_isr s1 else s1 in
      let p2 = acknowledge_signalled s.rx_channel p1 in
      let s3 = if is_signalled s.tx_channel p2 then one_wire_isr s2 else s2 in
      (acknowledge_signalled s.tx_channel p2, (from_uart.0, s3))
