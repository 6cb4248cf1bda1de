-- ===== src/Stats/Moments.antt =====
-- internal/stats/stats.go, ZScore and meanAndStd, and baseline.go, padWithQuietHours.
use brand_pulse.Prelude.{ℕ, zero, suc, ◌-◌, List, [], ◌∷◌, ◌++◌, length, leb, Float, if◌then◌else◌}

module _ {R : Type 0} ⦃f : Float R⦄ where
  unfoldable pub z_score : R → R → R → R
  z_score value mean std = if f.eq std (f.of_ℕ 0) then f.of_ℕ 0 else f.div (f.sub value mean) std

  unfoldable pub sum_from : R → List R → R
  sum_from acc [] = acc
  sum_from acc (x ∷ xs) = sum_from (f.add acc x) xs

  unfoldable squares_from : R → R → List R → R
  squares_from mean acc [] = acc
  squares_from mean acc (x ∷ xs) =
      squares_from mean (f.add acc (f.mul (f.sub x mean) (f.sub x mean))) xs

  -- `sqrt` is math.Sqrt
  unfoldable mean_and_std : (R → R) → List R → R × R
  unfolding sum_from squares_from
  mean_and_std sqrt [] = (f.of_ℕ 0, f.of_ℕ 0)
  mean_and_std sqrt (x ∷ xs) =
      let n = f.of_ℕ (length (x ∷ xs)) in
      let mean = f.div (sum_from (f.of_ℕ 0) (x ∷ xs)) n in
      (mean, sqrt (f.div (squares_from mean (f.of_ℕ 0) (x ∷ xs)) n))

  unfoldable zeros : ℕ → List R
  zeros zero = []
  zeros (suc n) = f.of_ℕ 0 ∷ zeros n

  unfoldable pad_with_quiet_hours : List R → ℕ → List R
  unfolding zeros
  pad_with_quiet_hours busy hours =
      if leb hours (length busy) then busy else busy ++ zeros (hours - length busy)
