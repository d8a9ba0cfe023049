-- ===== src/Eeprom/Memory.antt =====
-- The memory chip, as its data sheet has it, with the 128 bytes of hkEEPROM_24LC01B in
-- include/config/arm.h: the highest bit of an address does not count, and a page write of bytes at an
-- address fills the page of that address, and goes on at the start of the same page when it reaches the
-- end.
use hk_rtos.Base.{ℕ, suc, ◌+◌, ◌-◌, ◌*◌, ◌/◌, ◌%◌, ◌^◌, ◌≤◌, ◌<◌, ◌≡◌, refl, arith, ap, ◌∙◌}
use hk_rtos.Base.{List, [], ◌∷◌, true, false, ◌==◌, ◌&&◌, ltb, leb, if◌then◌else◌, length, get_or}
use hk_rtos.Base.{take, drop, u8, length-take_le, length-drop, get_or-take, get_or-drop}
use hk_rtos.Bus.{enter, leave, writes, Trace}
use hk_rtos.Eeprom.{Packet, page_size, eeprom_addr}

abbrev pub chip_size : ℕ
chip_size = 2 ^ 7

abbrev pub Memory : Type 0
Memory = ℕ → ℕ

-- The bytes from the `i`-th one on of a page write at `a`.
pub store_page : ℕ → ℕ → List ℕ → Memory → Memory
store_page a i [] m = m
store_page a i (b ∷ bs) m =
    store_page a (i + 1) bs
      (λ x. if x == a / page_size * page_size + (a + i) % page_size then b else m x)

on_transfer : List ℕ → Memory → Memory
unfolding store_page
on_transfer [] m = m
on_transfer (a ∷ bs) m = store_page (a % chip_size) 0 bs m

-- The memory after a run, from a memory `m` before it.
pub memory : Memory → Trace → Memory
unfolding on_transfer
memory m [] = m
memory m (writes dev bs n ∷ t) =
    if dev == eeprom_addr then on_transfer bs (memory m t) else memory m t
memory m (_ ∷ t) = memory m t

pub memory-enter : (m : Memory) (t : Trace) (x : ℕ) → memory m (enter ∷ t) x ≡ memory m t x
unfolding memory
memory-enter m t x = refl

-- A list laid out from an address on, over a memory.
abbrev pub laid_out : ℕ → List ℕ → Memory → Memory
laid_out a bs m x = if leb a x && ltb x (a + length bs) then get_or bs (x - a) 0 else m x

-- A write that stays within its page is laid out as it stands.
pub store_page-laid_out :
    (a i : ℕ) (bs : List ℕ) (m : Memory) (x : ℕ)
    → a % page_size + i + length bs ≤ page_size
    → store_page a i bs m x ≡ laid_out (a + i) bs m x
unfolding store_page
store_page-laid_out a i [] m x h = ground arith
store_page-laid_out a i (b ∷ bs) m x h = ground (
  arith,
  store_page-laid_out a (i + 1) bs
      (λ y. if y == a / page_size * page_size + (a + i) % page_size then b else m y) x,
  shift,
)
  where
    shift : a + i < x → get_or (b ∷ bs) (x - (a + i)) 0 ≡ get_or bs (x - (a + (i + 1))) 0
    shift lt = let e : x - (a + i) ≡ suc (x - (a + (i + 1))) = omega arith in rw e

-- Two pieces laid out one after the other are the whole.
pub laid_out_split :
    (a n : ℕ) (bs : List ℕ) (m m' : Memory) (x : ℕ)
    → n ≤ length bs
    → m' x ≡ laid_out a (take n bs) m x
    → laid_out (a + n) (drop n bs) m' x ≡ laid_out a bs m x
laid_out_split a n bs m m' x h e = ground (
  arith,
  length-take_le n bs h,
  length-drop n bs,
  get_or-take n bs (x - a) 0,
  get_or-drop n bs (x - (a + n)) 0,
  shift,
)
  where
    shift : a + n ≤ x → get_or bs (n + (x - (a + n))) 0 ≡ get_or bs (x - a) 0
    shift lt = let p : n + (x - (a + n)) ≡ x - a = omega arith in rw p

-- The run of one page write that is acknowledged.
abbrev pub written : Packet → Trace → Trace
written p t =
    leave
    ∷ writes eeprom_addr (u8 p.address ∷ p.bytes) false
    ∷ writes eeprom_addr (u8 p.address ∷ []) true
    ∷ enter
    ∷ t

pub memory-written :
    (m : Memory) (p : Packet) (t : Trace) (x : ℕ)
    → u8 p.address < chip_size
    → u8 p.address % page_size + length p.bytes ≤ page_size
    → memory m (written p t) x ≡ laid_out (u8 p.address) p.bytes (memory m t) x
unfolding memory store_page
memory-written m p t x inside h =
    let same : u8 p.address % chip_size ≡ u8 p.address = omega arith in
    let start : u8 p.address + 0 ≡ u8 p.address = omega arith in
    rw same (
      store_page-laid_out (u8 p.address) 0 p.bytes (memory m t) x (omega arith)
      ∙ ap (λ a. laid_out a p.bytes (memory m t) x) start)
