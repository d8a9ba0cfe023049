-- ===== src/Wifi/Strings.antt =====
-- What a request leaves in the credentials.
use hk_rtos.Base.{
  ℕ, ◌≡◌, refl, arith, true, false, List, [], ◌∷◌, if◌then◌else◌, inl, inr, Bool-cases,
}
use hk_rtos.CString.{IsString, Holds, strncpy, strncpy-Holds}
use hk_rtos.Wifi.{Credentials, same, ssid_name, pass_name, take_params}

-- The value of the last parameter with a name, or the one given.
pub last_value : List ℕ → List (List ℕ × List ℕ) → List ℕ → List ℕ
last_value key [] v = v
last_value key ((name, value) ∷ params) v =
    last_value key params (if same name key then value else v)

abbrev pub AreStrings : List (List ℕ × List ℕ) → Type 0
AreStrings [] = Unit
AreStrings ((name, value) ∷ params) = IsString value × AreStrings params

pub last_value-IsString :
    (key : List ℕ) (params : List (List ℕ × List ℕ)) (v : List ℕ)
    → AreStrings params
    → IsString v
    → IsString (last_value key params v)
unfolding last_value
last_value-IsString key [] v hs h = h
last_value-IsString key ((name, value) ∷ params) v hs h = elim (Bool-cases (same name key)) [
  | inl yes_key ↦ rw yes_key (last_value-IsString key params value hs.1 hs.0)
  | inr other ↦ rw other (last_value-IsString key params v hs.1 h)
]

same-eq : (a b : List ℕ) → same a b ≡ true → a ≡ b
unfolding same
same-eq [] [] h = refl
same-eq [] (d ∷ ds) h = cc
same-eq (c ∷ cs) [] h = cc
same-eq (c ∷ cs) (d ∷ ds) h = ground (arith, same-eq cs ds)

not_both : (name : List ℕ) → same name ssid_name ≡ true → same name pass_name ≡ false
unfolding same
not_both name h = let e = same-eq name ssid_name h in rw e refl

pub take_params-Holds :
    (params : List (List ℕ × List ℕ)) (c : Credentials) (s p : List ℕ)
    → Holds 63 c.ssid s
    → Holds 63 c.pass p
    → Holds 63 (take_params params c).ssid (last_value ssid_name params s)
      × Holds 63 (take_params params c).pass (last_value pass_name params p)
unfolding take_params last_value
take_params-Holds [] c s p hs hp = (hs, hp)
take_params-Holds ((name, value) ∷ params) c s p hs hp = elim (Bool-cases (same name ssid_name)) [
  | inl is_ssid ↦
      rw (is_ssid, not_both name is_ssid, take_params)
        (take_params-Holds params (record c { ssid = strncpy c.ssid value 63 }) value p
          (strncpy-Holds 63 c.ssid s value hs) hp)
  | inr other ↦ elim (Bool-cases (same name pass_name)) [
    | inl is_pass ↦
        rw (other, is_pass, take_params)
          (take_params-Holds params (record c { pass = strncpy c.pass value 63 }) s value hs
            (strncpy-Holds 63 c.pass p value hp))
    | inr neither ↦ rw (other, neither, take_params) (take_params-Holds params c s p hs hp)
  ]
]
