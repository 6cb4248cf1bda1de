-- ===== src/Cluster/Agglomerative/Rows.antt =====
-- Each row is in one cluster, once.
use mathlib.Core.Path.{subst}
use mathlib.Core.List.Permᴰ
use brand_pulse.Prelude.{
  All, All-of_perm, ℕ, zero, suc, ◌+◌, ◌≤◌, ◌<◌, ◌≡◌, ◌≢◌, refl, ◌∙◌, inl, inr, false, ◌&&◌, List,
  [], ◌∷◌, ◌++◌, length, Option-cases, Float, ltb, leb, ◌==◌, sum_map, sum_map-perm, sort_stable,
  sort_stable-permᴰ, arith, Bool-cases, if◌then◌else◌,
}
use brand_pulse.Cluster.Agglomerative.{
  Slots, Pair, closest_pair, merge_into, merge_all, singletons, large_from, larger, agglomerative,
}
use brand_pulse.Cluster.Agglomerative.Pairs.{
  sum_from, sum_from-change, one_if, IsPair, AllPair, closest_pair-IsPair,
}

-- how often `r` stands in a list, and in the clusters of a list
unfoldable pub occurrences : ℕ → List ℕ → ℕ
unfolding sum_map
occurrences r xs = sum_map (λ x. one_if (x == r)) xs

abbrev pub occurrences_in : ℕ → List (List ℕ) → ℕ
occurrences_in r clusters = sum_map (occurrences r) clusters

occurrences-append :
    (r : ℕ) (xs ys : List ℕ) → occurrences r (xs ++ ys) ≡ occurrences r xs + occurrences r ys
unfolding occurrences sum_map
occurrences-append r [] ys = omega arith
occurrences-append r (x ∷ xs) ys = omega (arith, occurrences-append r xs ys)

occurrences-sort : (r : ℕ) (xs : List ℕ) → occurrences r (sort_stable ltb xs) ≡ occurrences r xs
unfolding occurrences
occurrences-sort r xs = sum_map-perm (λ x. one_if (x == r)) (sort_stable-permᴰ ltb xs)

-- At the start each row below `n` stands in its own slot.
singles :
    (r n k : ℕ) → sum_from (λ m. occurrences r (m ∷ [])) n k ≡ one_if (leb k r && ltb r (k + n))
unfolding sum_from occurrences sum_map
singles r zero k = ground arith
singles r (suc n) k = ground (arith, singles r n (suc k))

empty_none : (r : ℕ) (xs : List ℕ) → length xs ≡ 0 → occurrences r xs ≡ 0
unfolding occurrences sum_map
empty_none r [] h = refl
empty_none r (x ∷ xs) h = absurd (omega arith)

module _ {R : Type 0} ⦃f : Float R⦄ where
  abbrev at_slot : ℕ → Slots R → ℕ → ℕ
  at_slot r s k = occurrences r (s.members k)

  abbrev total : ℕ → ℕ → Slots R → ℕ
  total r n s = sum_from (at_slot r s) n 0

  -- A slot that is not active has no members.
  abbrev IsTidy : Slots R → Type 0
  IsTidy s = (k : ℕ) → s.active k ≡ false → s.members k ≡ []

  merge_into-IsTidy :
      (n : ℕ) (s : Slots R) (p : Pair R)
      → IsPair n s p
      → IsTidy s
      → IsTidy (merge_into p.low p.high s)
  unfolding merge_into
  merge_into-IsTidy n s p q t k h = ground (arith, q.ordered, q.low_active, t k)

  -- the count at each slot once the higher one is empty
  abbrev without_high : ℕ → Slots R → ℕ → ℕ → ℕ
  without_high r s high k = if k == high then 0 else at_slot r s k

  merged_low :
      (r : ℕ) (s : Slots R) (p : Pair R)
      → p.low < p.high
      → at_slot r (merge_into p.low p.high s) p.low ≡ at_slot r s p.low + at_slot r s p.high
  unfolding merge_into
  merged_low r s p h = ground (
    arith,
    occurrences-sort r (s.members p.low ++ s.members p.high),
    occurrences-append r (s.members p.low) (s.members p.high),
  )

  merged_other :
      (r : ℕ) (s : Slots R) (p : Pair R) (m : ℕ)
      → m ≢ p.low
      → at_slot r (merge_into p.low p.high s) m ≡ without_high r s p.high m
  unfolding merge_into occurrences sum_map
  merged_other r s p m h = ground arith

  total-merge_into :
      (r n : ℕ) (s : Slots R) (p : Pair R)
      → IsPair n s p
      → total r n (merge_into p.low p.high s) ≡ total r n s
  total-merge_into r n s p q =
      let emptied =
        sum_from-change (without_high r s p.high) (at_slot r s) p.high n 0 (λ m h. ground arith)
          (omega arith) (omega (arith, q.below)) in
      let moved =
        sum_from-change (at_slot r (merge_into p.low p.high s)) (without_high r s p.high) p.low n 0
          (merged_other r s p) (omega arith) (omega (arith, q.below, q.ordered)) in
      ground (arith, emptied, moved, merged_low r s p q.ordered, q.ordered)

  -- What holds of the slots while they are merged.
  record IsKept (r n total₀ : ℕ) (s : Slots R) : Type 0 where
    tidy : IsTidy s
    counted : total r n s ≡ total₀

  merge_all-IsKept :
      (fuel r n total₀ : ℕ) (cutoff : R) (s : Slots R)
      → IsKept r n total₀ s
      → IsKept r n total₀ (merge_all fuel n cutoff s)
  unfolding merge_all
  merge_all-IsKept zero r n total₀ cutoff s h = h
  merge_all-IsKept (suc fuel) r n total₀ cutoff s h = elim (Option-cases (closest_pair n s)) [
    | inl e ↦ rw (e, merge_all) h
    | inr (p, e) ↦ elim (Bool-cases (f.lt cutoff p.apart)) [
      | inl far ↦ rw (e, merge_all) (rw far h)
      | inr near ↦
          rw (e, merge_all)
            (rw near (
              let q = subst (AllPair n s) e (closest_pair-IsPair n s) in
              merge_all-IsKept fuel r n total₀ cutoff (merge_into p.low p.high s) (record {
                tidy = merge_into-IsTidy n s p q h.tidy;
                counted = total-merge_into r n s p q ∙ h.counted;
              })))
    ]
  ]

  -- The clusters that are large enough hold no more than all slots do, and with a least size of
  -- at most one they hold the same.
  large_from-le :
      (r min_size : ℕ) (s : Slots R) (n k : ℕ)
      → occurrences_in r (large_from s min_size n k) ≤ sum_from (at_slot r s) n k
  unfolding large_from sum_map sum_from
  large_from-le r min_size s zero k = omega arith
  large_from-le r min_size s (suc n) k = ground (arith, large_from-le r min_size s n (suc k))

  large_from-all :
      (r min_size : ℕ) (s : Slots R) (n k : ℕ)
      → IsTidy s
      → min_size ≤ 1
      → occurrences_in r (large_from s min_size n k) ≡ sum_from (at_slot r s) n k
  unfolding large_from sum_map sum_from
  large_from-all r min_size s zero k t h = refl
  large_from-all r min_size s (suc n) k t h = elim (Bool-cases (s.active k)) [
    | inl e ↦ ground (arith, large_from-all r min_size s n (suc k) t h, empty_none r (s.members k))
    | inr e ↦
        ground (arith, large_from-all r min_size s n (suc k) t h, t k e, empty_none r (s.members k))
  ]

  singletons-IsKept :
      (rows : List (List R)) (r : ℕ)
      → IsKept r (length rows) (one_if (ltb r (length rows))) (singletons rows)
  unfolding singletons
  singletons-IsKept rows r = record {
    tidy = λ k h. absurd (cc (h));
    counted = ground (arith, singles r (length rows) 0);
  }

  -- the slots when the merging has ended
  abbrev settled : (rows : List (List R)) → R → Slots R
  settled rows cutoff = merge_all (length rows) (length rows) cutoff (singletons rows)

  settled-IsKept :
      (rows : List (List R)) (cutoff : R) (r : ℕ)
      → IsKept r (length rows) (one_if (ltb r (length rows))) (settled rows cutoff)
  settled-IsKept rows cutoff r =
      merge_all-IsKept (length rows) r (length rows) (one_if (ltb r (length rows))) cutoff
        (singletons rows) (singletons-IsKept rows r)

  -- Over all clusters that are returned, a row of the matrix stands at most once, and nothing else
  -- stands at all.
  pub agglomerative_disjoint :
      (rows : List (List R)) (cutoff : R) (min_size r : ℕ)
      → occurrences_in r (agglomerative rows cutoff min_size) ≤ one_if (ltb r (length rows))
  unfolding agglomerative
  agglomerative_disjoint rows cutoff min_size r =
      let n = length rows in
      let large = large_from (settled rows cutoff) min_size n 0 in
      omega (
        arith,
        sum_map-perm (occurrences r) (sort_stable-permᴰ larger large),
        large_from-le r min_size (settled rows cutoff) n 0,
        (settled-IsKept rows cutoff r).counted,
      )

  -- With a least size of at most one, each row of the matrix stands in the clusters that are
  -- returned exactly once, and nothing else does.
  pub agglomerative_covers :
      (rows : List (List R)) (cutoff : R) (min_size r : ℕ)
      → min_size ≤ 1
      → occurrences_in r (agglomerative rows cutoff min_size) ≡ one_if (ltb r (length rows))
  unfolding agglomerative
  agglomerative_covers rows cutoff min_size r h =
      let n = length rows in
      let large = large_from (settled rows cutoff) min_size n 0 in
      let kept = settled-IsKept rows cutoff r in
      sum_map-perm (occurrences r) (sort_stable-permᴰ larger large)
      ∙ large_from-all r min_size (settled rows cutoff) n 0 kept.tidy h
      ∙ kept.counted

  large_from-size :
      (min_size : ℕ) (s : Slots R) (n k : ℕ)
      → All (λ c. min_size ≤ length c) (large_from s min_size n k)
  unfolding large_from
  large_from-size min_size s zero k = tt
  large_from-size min_size s (suc n) k =
      elim (Bool-cases (s.active k && leb min_size (length (s.members k)))) [
        | inl e ↦ rw (e, large_from) (ground arith, large_from-size min_size s n (suc k))
        | inr e ↦ rw (e, large_from) (large_from-size min_size s n (suc k))
      ]

  -- No cluster that is returned is smaller than the least size.
  pub agglomerative_sizes :
      (rows : List (List R)) (cutoff : R) (min_size : ℕ)
      → All (λ c. min_size ≤ length c) (agglomerative rows cutoff min_size)
  unfolding agglomerative
  agglomerative_sizes rows cutoff min_size =
      let large = large_from (settled rows cutoff) min_size (length rows) 0 in
      All-of_perm (λ c. min_size ≤ length c) (Permᴰ.symm (sort_stable-permᴰ larger large))
        (large_from-size min_size (settled rows cutoff) (length rows) 0)
