-- ===== src/Cluster/Agglomerative/Stops.antt =====
-- The merging ends because no two clusters are left that are close enough.
use mathlib.Core.Path.{subst}
use brand_pulse.Prelude.{
  ℕ, zero, suc, ◌+◌, ◌≤◌, ◌<◌, ◌≡◌, inl, inr, ◌⊎◌, true, none, some, Option-cases, Float, arith,
  Bool-cases,
}
use brand_pulse.Cluster.Agglomerative.{Slots, Pair, closest_pair, merge_into, merge_all}
use brand_pulse.Cluster.Agglomerative.Pairs.{
  sum_from, sum_from-change, one_if, IsPair, AllPair, closest_pair-IsPair,
}

module _ {R : Type 0} ⦃f : Float R⦄ where
  -- the number of clusters
  abbrev count_active : ℕ → Slots R → ℕ
  count_active n s = sum_from (λ k. one_if (s.active k)) n 0

  -- A merge leaves one cluster less.
  count_active-merge_into :
      (n : ℕ) (s : Slots R) (p : Pair R)
      → IsPair n s p
      → count_active n (merge_into p.low p.high s) + 1 ≡ count_active n s
  unfolding merge_into
  count_active-merge_into n s p q =
      let e =
        sum_from-change (λ k. one_if ((merge_into p.low p.high s).active k))
          (λ k. one_if (s.active k)) p.high n 0 (λ m h. ground arith) (omega arith)
          (omega (arith, q.below)) in
      ground (arith, e, q.high_active)

  count_active-pos : (n : ℕ) (s : Slots R) (p : Pair R) → IsPair n s p → 0 < count_active n s
  count_active-pos n s p q = omega (arith, count_active-merge_into n s p q)

  -- No two clusters are left, or the closest two are further apart than the cutoff.
  abbrev pub IsSettled : ℕ → R → Slots R → Type 0
  IsSettled n cutoff s =
      (closest_pair n s ≡ none)
      ⊎ ((p : Pair R) × (closest_pair n s ≡ some p) × (f.lt cutoff p.apart ≡ true))

  merge_all-IsSettled :
      (fuel n : ℕ) (cutoff : R) (s : Slots R)
      → count_active n s ≤ fuel
      → IsSettled n cutoff (merge_all fuel n cutoff s)
  unfolding merge_all
  merge_all-IsSettled zero n cutoff s h = elim (Option-cases (closest_pair n s)) [
    | inl e ↦ inl e
    | inr (p, e) ↦ absurd (omega (arith, h, count_active-pos n s p (found p e)))
  ]
    where
      found : (p : Pair R) → closest_pair n s ≡ some p → IsPair n s p
      found p e = subst (AllPair n s) e (closest_pair-IsPair n s)
  merge_all-IsSettled (suc fuel) n cutoff s h = elim (Option-cases (closest_pair n s)) [
    | inl e ↦ rw (e, merge_all) (inl e)
    | inr (p, e) ↦ elim (Bool-cases (f.lt cutoff p.apart)) [
      | inl far ↦ rw (e, merge_all) (rw (far) (inr (p, e, far)))
      | inr near ↦
          rw (e, merge_all)
            (rw (near) (
              merge_all-IsSettled fuel n cutoff (merge_into p.low p.high s)
                (omega (arith, h, count_active-merge_into n s p (found p e)))))
    ]
  ]
    where
      found : (p : Pair R) → closest_pair n s ≡ some p → IsPair n s p
      found p e = subst (AllPair n s) e (closest_pair-IsPair n s)

  count_active-le : (n k : ℕ) (s : Slots R) → sum_from (λ m. one_if (s.active m)) n k ≤ n
  unfolding sum_from
  count_active-le zero k s = omega arith
  count_active-le (suc n) k s = ground (arith, count_active-le n (suc k) s)

  -- As much fuel as there are slots is enough: the loop ends at its own break, with no two
  -- clusters left or with the closest two further apart than the cutoff.
  pub merge_all_settles :
      (n : ℕ) (cutoff : R) (s : Slots R) → IsSettled n cutoff (merge_all n n cutoff s)
  merge_all_settles n cutoff s = merge_all-IsSettled n n cutoff s (count_active-le n 0 s)
