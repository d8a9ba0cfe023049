-- ===== src/Ds18b20/Resolution.antt =====
-- What DS18B20_SetResolution does on the line.
use hk_rtos.Base.{
  ℕ, ◌+◌, ◌-◌, ◌*◌, ◌%◌, ◌^◌, ◌≤◌, ◌≡◌, refl, ap, arith, ◌∙◌, List, [], ◌∷◌, true, false,
}
use hk_rtos.OneWire.{Line, LineOp, resets, puts, OneWire, write_success, is_busy}
use hk_rtos.OneWire.Calls.{reset_lem, write_byte_lem}
use hk_rtos.Ds18b20.{config_byte, write_all, set_resolution, skip_rom}

config_byte_lem : (n : ℕ) → 9 ≤ n → n ≤ 12 → config_byte n ≡ (n - 9) * 2 ^ 5 + 0x1F
unfolding config_byte
config_byte_lem n lo hi = ground arith

-- Bytes in the order in which they end up in the list of what was done.
abbrev put_all : List ℕ → List LineOp → List LineOp
put_all [] ops = ops
put_all (b ∷ bs) ops = put_all bs (puts b ∷ ops)

write_all_lem :
    (line : Line) (bs : List ℕ) (ow : OneWire)
    → is_busy ow.status ≡ false
    → ((write_all line bs ow).ops ≡ put_all bs ow.ops)
      × (is_busy (write_all line bs ow).status ≡ false)
unfolding write_all
write_all_lem line [] ow idle = (refl, idle)
write_all_lem line (b ∷ bs) ow idle =
    rw (write_all, write_byte_lem line b ow idle)
      (write_all_lem line bs (record { status = write_success; ops = puts b ∷ ow.ops }) refl)

-- On an interface that is not busy, with a device that answers every reset, the setting of a
-- resolution of 9 to 12 bits succeeds. What goes over the line is the scratchpad with the
-- resolution in bits 5 and 6 of its last byte, and then the command that stores it.
set_resolution_writes :
    (line : Line) (resolution : ℕ) (ow : OneWire)
    → 9 ≤ resolution
    → resolution ≤ 12
    → is_busy ow.status ≡ false
    → ((ops : List LineOp) → line (resets ∷ ops) % 2 ≡ 0)
    → let r = set_resolution line resolution ow in
      (r.0 ≡ true)
      × (r.1.ops
          ≡ puts 0x48
            ∷ puts 0xCC
            ∷ resets
            ∷ puts ((resolution - 9) * 2 ^ 5 + 0x1F)
            ∷ puts 0
            ∷ puts 0
            ∷ puts 0x4E
            ∷ puts 0xCC
            ∷ resets
            ∷ ow.ops)
unfolding set_resolution
set_resolution_writes line resolution ow lo hi idle present =
    let r = reset_lem line ow (present ow.ops) in
    let ow1 : OneWire = record ow { ops = resets ∷ ow.ops } in
    let bytes : List ℕ = skip_rom ∷ 0x4E ∷ 0 ∷ 0 ∷ config_byte resolution ∷ [] in
    let ow2 = write_all line bytes ow1 in
    let first = write_all_lem line bytes ow1 idle in
    let s = reset_lem line ow2 (present ow2.ops) in
    let ow3 : OneWire = record ow2 { ops = resets ∷ ow2.ops } in
    let second = write_all_lem line (skip_rom ∷ 0x48 ∷ []) ow3 first.1 in
    rw (r, s)
      (
        refl,
        second.0
            ∙ ap (λ ops. puts 0x48 ∷ puts skip_rom ∷ resets ∷ ops) first.0
            ∙ ap
                (λ b.
                  puts 0x48
                  ∷ puts skip_rom
                  ∷ resets
                  ∷ puts b
                  ∷ puts 0
                  ∷ puts 0
                  ∷ puts 0x4E
                  ∷ puts skip_rom
                  ∷ resets
                  ∷ ow.ops)
                (config_byte_lem resolution lo hi),
      )
