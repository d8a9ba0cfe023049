-- ===== src/Eeprom/Locking.antt =====
-- The I2C discipline of the memory driver, on every path, and what the two sizes that it refuses do.
use hk_rtos.Base.{ℕ, zero, suc, ◌+◌, ◌<◌, ◌≡◌, arith, ◌⊎◌, List, length, false, take, drop, u16}
use hk_rtos.Bus.{Device, Trace}
use hk_rtos.Bus.Discipline.{free, lock_state}
use hk_rtos.Crc.{Buffer}
use hk_rtos.Eeprom.{Packet, page_size, write, read, write_blob_from, write_blob, chunk_of}

-- A packet of no bytes or of more than a page is refused, without any use of the bus.
pub write_refuses :
    (dev : Device) (p : Packet) (t : Trace)
    → (length p.bytes ≡ 0) ⊎ (page_size < length p.bytes)
    → write dev p t ≡ (false, t)
unfolding write
write_refuses dev p t h = ground arith

pub write-free :
    (dev : Device) (p : Packet) (t : Trace)
    → lock_state t ≡ free
    → lock_state (write dev p t).1 ≡ free
unfolding write
write-free dev p t idle = ground arith

-- A read makes each transfer under the mutex and leaves it free, whatever the bus answers.
pub eeprom_read-free :
    (dev : Device) (speed address size : ℕ) (buffer : Buffer) (t : Trace)
    → lock_state t ≡ free
    → lock_state (read dev speed address size buffer t).1 ≡ free
unfolding read
eeprom_read-free dev speed address size buffer t idle = ground arith

write_blob_from-free :
    (dev : Device) (fuel addr offset : ℕ) (bs : List ℕ) (t : Trace)
    → lock_state t ≡ free
    → lock_state (write_blob_from dev fuel addr offset bs t).1 ≡ free
unfolding write_blob_from
write_blob_from-free dev zero addr offset bs t idle = idle
write_blob_from-free dev (suc fuel) addr offset bs t idle =
    let a = u16 (addr + offset) in
    let chunk = chunk_of a (length bs) in
    let p : Packet = record { address = a; bytes = take chunk bs } in
    ground (
      arith,
      write-free dev p t idle,
      write_blob_from-free dev fuel addr (offset + chunk) (drop chunk bs) (write dev p t).1,
    )

-- A blob is written with each transfer under the mutex, and the mutex is free again at the end,
-- wherever the bus fails.
pub write_blob-free :
    (dev : Device) (addr : ℕ) (bs : List ℕ) (t : Trace)
    → lock_state t ≡ free
    → lock_state (write_blob dev addr bs t).1 ≡ free
unfolding write_blob
write_blob-free dev addr bs t idle = write_blob_from-free dev (suc (length bs)) addr 0 bs t idle
