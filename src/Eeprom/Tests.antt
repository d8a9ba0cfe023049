-- ===== src/Eeprom/Tests.antt =====
-- The driver at concrete inputs.
use hk_rtos.Base.{ℕ, ◌≡◌, ◌<◌, true, u8, get_or, refl, arith, List, [], ◌∷◌}
use hk_rtos.Samples.{zeros, willing, chip}
use hk_rtos.Eeprom.{write_blob, read_blob}
use hk_rtos.Eeprom.Memory.{memory, laid_out}
use hk_rtos.Eeprom.Reads.{read_blob-write_blob}
use hk_rtos.Eeprom.Blobs.{write_blob_stores}

-- Eleven bytes from the sixth one on, over two ends of a page.
abbrev blob : List ℕ
blob = 1 ∷ 2 ∷ 3 ∷ 4 ∷ 5 ∷ 6 ∷ 7 ∷ 8 ∷ 9 ∷ 10 ∷ 11 ∷ []

write_blob_stores_example :
    let r = write_blob willing 6 blob [] in
    (r.0 ≡ 17) × ((x : ℕ) → memory zeros r.1 x ≡ laid_out 6 blob (memory zeros []) x)
write_blob_stores_example =
    write_blob_stores willing zeros 6 blob [] (λ t a bs n. refl) (omega arith)

read_blob-write_blob_example :
    let t' = (write_blob (chip zeros) 6 blob []).1 in
    let r = (read_blob (chip zeros) 100 6 11 zeros t').0 in
    (r.0 ≡ true) × ((i : ℕ) → i < 11 → r.1 i ≡ u8 (get_or blob i 0))
read_blob-write_blob_example =
    read_blob-write_blob (chip zeros) zeros 100 6 blob zeros [] (λ t a bs n. refl) (λ t a n. refl)
      (omega arith)
