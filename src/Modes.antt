-- ===== src/Modes.antt =====
-- The modes of the system, as bits of xSystemStateEventGroup (vSystemManagerTask in src/manager.c,
-- vWifiManagerTask and configHandler in src/comm/network/wifi.c, include/defines.h). The event groups
-- of FreeRTOS are an interface; whether the radio has a connection is an argument.
pub mod Events
use hk_rtos.Base.{ℕ, Bool, true, false, if◌then◌else◌}
use hk_rtos.Modes.Events.{EventGroup}

-- WIFI_CONNECTED_BIT, BIT_MODE_NORMAL_OPERATION and BIT_MODE_CONFIG.
abbrev pub wifi_connected_bit : ℕ
wifi_connected_bit = 1

abbrev pub bit_mode_normal_operation : ℕ
bit_mode_normal_operation = 1

abbrev pub bit_mode_config : ℕ
bit_mode_config = 2

-- What a round does besides: nothing, the reboot at the end of the mode of configuration (the clear
-- of its bit is the handler's, for which the round waits), or the call of initHeartbeat after a
-- reconnection.
pub data Next : Type 0 where
  goes_on : Next
  reboots : Next
  starts_heartbeat : Next

module _ (e : EventGroup) where
  open e use {G, set, clear, has}

  -- The end of vSystemManagerTask, with the bits that its wait gave.
  pub choose_mode : G → G
  choose_mode g =
      if has wifi_connected_bit g then set bit_mode_normal_operation g else set bit_mode_config g

  -- The first attempt of vWifiManagerTask.
  pub first_connection : Bool → G → G
  first_connection connected g =
      if connected then set wifi_connected_bit g else clear wifi_connected_bit g

  -- A round of its loop, given whether the link is up and, when it is not, whether the reconnection
  -- succeeds. The bit of the connection is cleared before that, and is not set again after it.
  pub wifi_round : Bool → Bool → G → G × Next
  wifi_round link_up reconnects g =
      if has bit_mode_config g
      then (clear bit_mode_config g, reboots)
      else if link_up
      then (set wifi_connected_bit g, goes_on)
      else (clear wifi_connected_bit g, if reconnects then starts_heartbeat else goes_on)
