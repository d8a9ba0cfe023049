-- ===== src/Wifi/Saved.antt =====
-- The credentials that a request sets are those that the next start connects with.
use hk_rtos.Base.{
  ℕ, zero, suc, ◌+◌, ◌-◌, ◌<◌, ◌^◌, ◌≡◌, arith, ap, ◌∙◌, List, [], ◌∷◌, ◌++◌, length, get_or, take,
  u8, if◌then◌else◌, ltb,
}
use mathlib.Core.List.{append-nil}
use hk_rtos.Crc.{Buffer}
use hk_rtos.Bus.{Device, Trace, bytes_from}
use hk_rtos.Eeprom.Memory.{Memory, memory}
use hk_rtos.Eeprom.Blobs.{Acks, write_blob_stores}
use hk_rtos.Eeprom.Reads.{Answers, read_blob-at, in_blob}
use hk_rtos.Wifi.{
  Credentials, empty, take_params, bytes_of, size, config_handler, start, ssid_name, pass_name,
}
use hk_rtos.CString.{c_string, Holds, IsString, c_string-Holds}
use hk_rtos.Wifi.Strings.{AreStrings, last_value, last_value-IsString, take_params-Holds}

length-bytes_from :
    (n k : ℕ) (b : Buffer) (ys : List ℕ) → length (bytes_from n k b ++ ys) ≡ n + length ys
unfolding bytes_from
length-bytes_from zero k b ys = omega arith
length-bytes_from (suc n) k b ys = omega (arith, length-bytes_from n (k + 1) b ys)

get_or-bytes_from :
    (n k i : ℕ) (b : Buffer) (ys : List ℕ)
    → get_or (bytes_from n k b ++ ys) i 0 ≡ (if ltb i n then b (k + i) else get_or ys (i - n) 0)
unfolding bytes_from
get_or-bytes_from zero k i b ys = let e : i - 0 ≡ i = omega arith in rw e (ground arith)
get_or-bytes_from (suc n) k zero b ys = let e : k + 0 ≡ k = omega arith in rw e (ground arith)
get_or-bytes_from (suc n) k (suc i) b ys =
    let e : k + suc i ≡ k + 1 + i = omega arith in
    let e' : suc i - suc n ≡ i - n = omega arith in
    rw (e, e') (ground (arith, get_or-bytes_from n (k + 1) i b ys))

-- The bytes of the two fields.
bytes_of-at :
    (c : Credentials) (i : ℕ)
    → i < 64
    → (get_or (bytes_of c) i 0 ≡ c.ssid i) × (get_or (bytes_of c) (64 + i) 0 ≡ c.pass i)
unfolding bytes_of
bytes_of-at c i lt =
    let pass = bytes_from 64 0 c.pass in
    let e : 64 + i - 64 ≡ i = omega arith in
    let e' : 0 + i ≡ i = omega arith in
    let last = rw (append-nil pass) at (get_or-bytes_from 64 0 i c.pass []) in
    (
      get_or-bytes_from 64 0 i c.ssid pass ∙ rw e' (ground arith),
      get_or-bytes_from 64 0 (64 + i) c.ssid pass ∙ rw e (ground (arith, last, rw e' at last)),
    )

length-bytes_of : (c : Credentials) → length (bytes_of c) ≡ size
unfolding bytes_of
length-bytes_of c =
    let pass = bytes_from 64 0 c.pass in
    let last = rw (append-nil pass) at (length-bytes_from 64 0 c.pass []) in
    omega (arith, length-bytes_from 64 0 c.ssid pass, last)

-- A start takes the credentials from the chip, whatever it holds, and not from the configuration.
pub start_ignores :
    (dev : Device) (m : Memory) (speed : ℕ) (ssid password : List ℕ) (t : Trace) (i : ℕ)
    → Acks dev
    → Answers dev m
    → i < 64
    → let c = (start dev speed ssid password t).0 in
      (c.ssid i ≡ u8 (memory m t i)) × (c.pass i ≡ u8 (memory m t (64 + i)))
unfolding start
start_ignores dev m speed ssid password t i acks answers lt =
    let e : 0 + i ≡ i = omega arith in
    let e' : 0 + (64 + i) ≡ 64 + i = omega arith in
    (
      read_blob-at dev m speed 0x00 size _ t i acks answers (omega arith) (omega arith)
          ∙ ap (λ x. u8 (memory m t x)) e,
      read_blob-at dev m speed 0x00 size _ t (64 + i) acks answers (omega arith) (omega arith)
          ∙ ap (λ x. u8 (memory m t x)) e',
    )

zero_plus : (x : ℕ) → 0 + x ≡ x
zero_plus x = omega arith

IsString-byte : (v : List ℕ) (i : ℕ) → IsString v → get_or v i 0 < 2 ^ 8
IsString-byte [] i h = omega arith
IsString-byte (c ∷ cs) zero h = h.1
IsString-byte (c ∷ cs) (suc i) h = IsString-byte cs i h.2

-- The two fields after a request and a start.
module _ (dev : Device) (m : Memory) (params : List (List ℕ × List ℕ)) (speed : ℕ)
    (ssid password : List ℕ) (t : Trace) (acks : Acks dev) (answers : Answers dev m)
    (strings : AreStrings params) where
  abbrev sent : Credentials
  sent = take_params params empty

  abbrev after : Trace
  after = (config_handler dev params t).1

  in_memory : (x : ℕ) → x < size → memory m after x ≡ get_or (bytes_of sent) x 0
  unfolding config_handler
  in_memory x lt =
      let n = length-bytes_of sent in
      (write_blob_stores dev m 0 (bytes_of sent) t acks (omega arith)).1 x
      ∙ rw (zero_plus x) at (in_blob 0 (bytes_of sent) (memory m t) x (omega arith))

  -- What a start reads of a field that the request left.
  field-Holds :
      (b saved : Buffer) (v : List ℕ)
      → Holds 63 saved v
      → IsString v
      → ((i : ℕ) → i < 64 → b i ≡ u8 (saved i))
      → Holds 63 b v
  field-Holds b saved v h str same_byte i lt =
      let char = IsString-byte v i str in
      let here = h i lt in let e = same_byte i lt in ground arith

  both-Holds :
      Holds 63 (start dev speed ssid password after).0.ssid (last_value ssid_name params [])
      × Holds 63 (start dev speed ssid password after).0.pass (last_value pass_name params [])
  both-Holds =
      let left =
        take_params-Holds params empty [] [] (λ i lt. ground arith) (λ i lt. ground arith) in
      let started = start_ignores dev m speed ssid password after in
      (
        field-Holds _ sent.ssid (last_value ssid_name params []) left.0
            (last_value-IsString ssid_name params [] strings tt)
            (λ i lt.
              (started i acks answers lt).0
              ∙ ap u8 (in_memory i (omega arith) ∙ (bytes_of-at sent i lt).0)),
        field-Holds _ sent.pass (last_value pass_name params []) left.1
            (last_value-IsString pass_name params [] strings tt)
            (λ i lt.
              (started i acks answers lt).1
              ∙ ap u8 (in_memory (64 + i) (omega arith) ∙ (bytes_of-at sent i lt).1)),
      )

-- The credentials of a request come back at the next start: on a bus that acknowledges every write and
-- a chip that answers, if the values are strings, the start connects with the last values of the
-- request for the name and for the password, each cut to 63 characters, and with empty ones where the
-- request has none; those of the configuration play no part.
pub start-config_handler :
    (dev : Device) (m : Memory) (params : List (List ℕ × List ℕ)) (speed : ℕ)
    (ssid password : List ℕ) (t : Trace)
    → Acks dev
    → Answers dev m
    → AreStrings params
    → let c = (start dev speed ssid password (config_handler dev params t).1).0 in
      (c_string 64 0 c.ssid ≡ take 63 (last_value ssid_name params []))
      × (c_string 64 0 c.pass ≡ take 63 (last_value pass_name params []))
start-config_handler dev m params speed ssid password t acks answers strings =
    let fields = both-Holds dev m params speed ssid password t acks answers strings in
    (
      c_string-Holds 63 _ (last_value ssid_name params []) fields.0
          (last_value-IsString ssid_name params [] strings tt),
      c_string-Holds 63 _ (last_value pass_name params []) fields.1
          (last_value-IsString pass_name params [] strings tt),
    )
