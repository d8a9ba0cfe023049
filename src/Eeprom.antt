-- ===== src/Eeprom.antt =====
-- The driver of the 24LC01B memory (src/storage/24lc01b.c): `write` is EEPROM_Write, `read`
-- EEPROM_Read, `write_blob` EEPROM_WriteBlob and `read_blob` EEPROM_ReadBlob. The waits are left out.
pub mod Memory
pub mod Blobs
pub mod Reads
pub mod Locking
mod Tests
use hk_rtos.Base.{ℕ, zero, suc, ◌+◌, ◌-◌, ◌%◌, ◌^◌, Bool, true, false, not, Option, none, some}
use hk_rtos.Base.{
  List, [], ◌∷◌, ◌==◌, ◌||◌, ◌&&◌, ltb, leb, if◌then◌else◌, u8, u16, u32, length, take, drop,
}
use hk_rtos.Crc.{Buffer}
use hk_rtos.Bus.{Device, M, pure, ◌>>=◌, ◌>>◌, mutex_enter, mutex_exit, i2c_write, i2c_read, fill}

-- EEPROM_PAGE_SIZE, and EEPROM_ADDR and hkEEPROM_24FC01 of include/config/arm.h.
abbrev pub page_size : ℕ
page_size = 8

abbrev pub eeprom_addr : ℕ
eeprom_addr = 0x50

abbrev eeprom_24fc01 : Bool
eeprom_24fc01 = true

-- DataPacket_t of a write: the bytes are those that `data` and `size` give.
pub record Packet : Type 0 where
  pub address : ℕ
  pub bytes : List ℕ

-- The test of a transfer's result against the number of bytes that were meant.
abbrev pub is_count : ℕ → Option ℕ → Bool
is_count n none = false
is_count n (some k) = k == n

abbrev pub count_of : Option (ℕ × Buffer) → Option ℕ
count_of none = none
count_of (some r) = some r.0

abbrev pub bytes_of : Option (ℕ × Buffer) → Buffer → Buffer
bytes_of none old = old
bytes_of (some r) old = fill r.0 r.1 old

-- The bytes up to the end of the page, or all that are left.
abbrev pub chunk_of : ℕ → ℕ → ℕ
chunk_of abs_addr left =
    let chunk = page_size - abs_addr % page_size in if ltb left chunk then left else chunk

module _ (dev : Device) where
  abort : M Bool
  abort = do mutex_exit; pure false

  pub write : Packet → M Bool
  unfolding abort
  write p =
      let address = u8 p.address in
      let size = length p.bytes in
      if size == 0 || ltb page_size size then pure false else do
        mutex_enter
        r ← i2c_write dev eeprom_addr (address ∷ []) true
        if not (is_count 1 r) then abort else do
          r' ← i2c_write dev eeprom_addr (address ∷ p.bytes) false
          if not (is_count (1 + size) r') then abort else do mutex_exit; pure true

  -- `speed` is that of the bus, and the bytes read go into the buffer.
  pub read : ℕ → ℕ → ℕ → Buffer → M (Bool × Buffer)
  read speed address size buffer =
      if not eeprom_24fc01 && ltb 400 speed then pure (false, buffer) else do
        mutex_enter
        r ← i2c_write dev eeprom_addr (u8 address ∷ []) true
        if not (is_count 1 r) then (do mutex_exit; pure (false, buffer)) else do
          r' ← i2c_read dev eeprom_addr size false
          mutex_exit
          pure (is_count size (count_of r'), bytes_of r' buffer)

  -- The loop of EEPROM_WriteBlob at `offset`, over the bytes that are left. Each round takes one byte
  -- at least, so fuel for one more round than there are bytes is enough.
  pub write_blob_from : ℕ → ℕ → ℕ → List ℕ → M ℕ
  write_blob_from zero addr offset rest = pure 0
  write_blob_from (suc fuel) addr offset rest =
      if length rest == 0
      then pure (u16 (addr + offset))
      else (let abs_addr = u16 (addr + offset) in
          let chunk = chunk_of abs_addr (length rest) in
          do
            ok ← write (record { address = abs_addr; bytes = take chunk rest })
            if not ok then pure 0 else write_blob_from fuel addr (offset + chunk) (drop chunk rest))

  pub write_blob : ℕ → List ℕ → M ℕ
  unfolding write_blob_from
  write_blob addr bytes = write_blob_from (suc (length bytes)) addr 0 bytes

  pub read_blob : ℕ → ℕ → ℕ → Buffer → M (Bool × Buffer)
  unfolding read
  read_blob speed addr len buffer = read speed addr len buffer
