-- ===== src/Wifi/Tests.antt =====
-- A request at a concrete bus.
use hk_rtos.Base.{ℕ, ◌≡◌, refl, arith, List, [], ◌∷◌, take}
use hk_rtos.Samples.{zeros, chip}
use hk_rtos.Wifi.{config_handler, start, ssid_name, pass_name}
use hk_rtos.CString.{c_string}
use hk_rtos.Wifi.Strings.{last_value}
use hk_rtos.Wifi.Saved.{start-config_handler}

abbrev home : List ℕ
home = b'h' ∷ b'o' ∷ b'm' ∷ b'e' ∷ []

abbrev secret : List ℕ
secret = b'1' ∷ b'2' ∷ b'3' ∷ []

abbrev params : List (List ℕ × List ℕ)
params = (ssid_name, home) ∷ (pass_name, secret) ∷ []

start-config_handler_example :
    let c = (start (chip zeros) 100 secret secret (config_handler (chip zeros) params []).1).0 in
    (c_string 64 0 c.ssid ≡ take 63 (last_value ssid_name params []))
    × (c_string 64 0 c.pass ≡ take 63 (last_value pass_name params []))
start-config_handler_example =
    start-config_handler (chip zeros) zeros params 100 secret secret [] (λ t a bs n. refl)
      (λ t a n. refl) (omega arith)
