-- ===== src/Wifi.antt =====
-- The credentials of the Wi-Fi (src/comm/network/wifi.c): the handler of the form that sets them, and
-- the start of vWifiManagerTask, which reads them back once the radio is set up. A C string is the list of its characters
-- before the zero.
pub mod Strings
pub mod Saved
mod Tests
use hk_rtos.Base.{
  ℕ, zero, suc, ◌+◌, ◌-◌, Bool, true, false, List, [], ◌∷◌, ◌++◌, ◌==◌, ◌&&◌, ltb, if◌then◌else◌,
  get_or,
}
use hk_rtos.Crc.{Buffer}
use hk_rtos.CString.{strncpy}
use hk_rtos.Bus.{Device, M, pure, ◌>>=◌, bytes_from}
use hk_rtos.Eeprom.{write_blob, read_blob}

-- SSID_MAXLEN and PASS_MAXLEN.
abbrev pub ssid_maxlen : ℕ
ssid_maxlen = 64

abbrev pub pass_maxlen : ℕ
pass_maxlen = 64

-- WiFiCredentials_t.
pub record Credentials : Type 0 where
  pub ssid : Buffer
  pub pass : Buffer

-- `WiFiCredentials_t creds = {0}`.
abbrev pub empty : Credentials
empty = record { ssid = λ i. 0; pass = λ i. 0 }

-- strcmp, of which only the test for 0 is used.
pub same : List ℕ → List ℕ → Bool
same [] [] = true
same (c ∷ cs) (d ∷ ds) = c == d && same cs ds
same _ _ = false

-- The names of the fields of the form.
abbrev pub ssid_name : List ℕ
ssid_name = b's' ∷ b's' ∷ b'i' ∷ b'd' ∷ []

abbrev pub pass_name : List ℕ
pass_name = b'p' ∷ b'a' ∷ b's' ∷ b's' ∷ []

-- One parameter of the request, a name and a value; a date is received and not used.
pub take_param : List ℕ → List ℕ → Credentials → Credentials
unfolding strncpy same
take_param name value c =
    if same name ssid_name
    then record c { ssid = strncpy c.ssid value (ssid_maxlen - 1) }
    else if same name pass_name
    then record c { pass = strncpy c.pass value (pass_maxlen - 1) }
    else c

pub take_params : List (List ℕ × List ℕ) → Credentials → Credentials
unfolding take_param
take_params [] c = c
take_params ((name, value) ∷ params) c = take_params params (take_param name value c)

-- `(u8*) &creds` and back.
pub bytes_of : Credentials → List ℕ
bytes_of c = bytes_from ssid_maxlen 0 c.ssid ++ bytes_from pass_maxlen 0 c.pass

abbrev pub size : ℕ
size = ssid_maxlen + pass_maxlen

abbrev pub image : Credentials → Buffer
image c i = if ltb i ssid_maxlen then c.ssid i else c.pass (i - ssid_maxlen)

abbrev pub from_image : Buffer → Credentials
from_image b = record { ssid = b; pass = λ i. b (ssid_maxlen + i) }

module _ (dev : Device) where
  -- configHandler: what EEPROM_WriteBlob returned, and whether the mode of configuration is still on.
  pub config_handler : List (List ℕ × List ℕ) → M (ℕ × Bool)
  config_handler params = do
    next_chunk ← write_blob dev 0x00 (bytes_of (take_params params empty))
    pure (next_chunk, false)

  -- The start of vWifiManagerTask: the credentials that it connects with, from those of the
  -- configuration and the memory. `speed` is that of the bus.
  pub start : ℕ → List ℕ → List ℕ → M Credentials
  unfolding strncpy
  start speed ssid password = do
    let c : Credentials = record {
      ssid = strncpy empty.ssid ssid (ssid_maxlen - 1);
      pass = strncpy empty.pass password (pass_maxlen - 1);
    }
    r ← read_blob dev speed 0x00 size (image c)
    pure (from_image r.1)
