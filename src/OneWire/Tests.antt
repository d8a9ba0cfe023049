-- ===== src/OneWire/Tests.antt =====
-- The interface at a concrete input.
use mathlib.Core.List.{Perm}
use hk_rtos.Base.{ℕ, ◌≤◌, ◌≡◌, ap, arith, List, [], ◌∷◌, false, some, get_or, ◌==◌}
use hk_rtos.OneWire.{OneWire, Line, init_success}
use hk_rtos.OneWire.Devices.{Bits}
use hk_rtos.OneWire.Devices.Walk.{IsSized}
use hk_rtos.OneWire.Devices.Listing.{IsDistinct}
use hk_rtos.OneWire.Search.{Address, search_rom}
use hk_rtos.OneWire.Search.Reads.{bits_of}
use hk_rtos.OneWire.Search.Rounds.{entries, length-bits_of}
use hk_rtos.OneWire.Search.Ideal.{ideal, ideal-Answers}
use hk_rtos.OneWire.Search.Finds.{search_rom-Perm}

abbrev quiet : Line
quiet ops = 0

abbrev ready : OneWire
ready = record { status = init_success; ops = [] }

-- Two devices, whose addresses have one bit each.
abbrev one_hot : ℕ → Bits
one_hot k = bits_of 64 0 (λ i. i == k)

abbrev two : List Bits
two = one_hot 3 ∷ one_hot 5 ∷ []

two-IsSized : IsSized 64 two
unfolding IsSized
two-IsSized = (length-bits_of 64 0 (λ i. i == 3), (length-bits_of 64 0 (λ i. i == 5), tt))

two-IsDistinct : IsDistinct two
unfolding bits_of
two-IsDistinct = (((λ e. cc (ap (λ l. get_or l 3 false) e)), tt), (tt, tt))

abbrev unset : ℕ → Address
unset n i = false

search_rom-Perm_example :
    (devices' : ℕ → Address) × (ow' : OneWire) × (search_rom (ideal two) 3 1 0xF0 unset ready
      ≡ some (devices', ow'))
    × Perm (entries devices' 2) two
    × ((i : ℕ) → 2 ≤ i → devices' i ≡ unset i)
search_rom-Perm_example =
    search_rom-Perm (ideal two) 0xF0 two (ideal-Answers 0xF0 two) 3 1 unset ready (omega arith)
      two-IsSized two-IsDistinct (omega arith) (omega arith) (omega arith)
