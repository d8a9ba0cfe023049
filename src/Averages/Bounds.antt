-- ===== src/Averages/Bounds.antt =====
-- What the averages read of memory.
use hk_rtos.Base.{ℕ, zero, suc, ◌+◌, ◌<◌, ◌≡◌, refl, arith, [], ◌∷◌, ◌++◌}
use hk_rtos.F32.{F32}
use hk_rtos.Averages.{
  Weighted, Snapshot, sums_from, weighted_average, averages, followed_by, dew_point_array,
}

-- Of the memory behind the arrays, four averages depend on nothing. The one of the dew points takes
-- the first element behind its array as a seventh measurement.
averages_bounds :
    (fl : F32) (behind behind' : ℕ → ℕ → Weighted fl) (s : Snapshot fl)
    → let a = averages fl behind s in
      let b = averages fl behind' s in
      (a.temperature ≡ b.temperature)
      × (a.relative_humidity ≡ b.relative_humidity)
      × (a.absolute_humidity ≡ b.absolute_humidity)
      × (a.pressure ≡ b.pressure)
      × (a.dew_point
          ≡ weighted_average fl
              (followed_by fl (dew_point_array fl s ++ (behind 1 0 ∷ [])) (behind' 1))
              7)
unfolding averages
averages_bounds fl behind behind' s = (refl, refl, refl, refl, refl)

sums_from_ext :
    (fl : F32) (d d' : ℕ → Weighted fl) (left i : ℕ) (sum : fl.F) (divider : ℕ)
    → ((j : ℕ) → j < i + left → d j ≡ d' j)
    → sums_from fl d left i sum divider ≡ sums_from fl d' left i sum divider
unfolding sums_from
sums_from_ext fl d d' zero i sum divider same = refl
sums_from_ext fl d d' (suc left) i sum divider same =
    rw (same i (omega arith)) (sums_from_ext fl d d' left (i + 1) _ _ (λ j h. same j (omega arith)))

-- A weighted average of one element or more reads no element beyond its length.
pub weighted_average_reads :
    (fl : F32) (d d' : ℕ → Weighted fl) (len : ℕ)
    → 0 < len
    → ((j : ℕ) → j < len → d j ≡ d' j)
    → weighted_average fl d len ≡ weighted_average fl d' len
unfolding weighted_average
weighted_average_reads fl d d' len some same =
    rw (same 0 some, sums_from_ext fl d d' len 0 (fl.decimal 0 1) 0 (λ j h. same j (omega arith)))
      refl
