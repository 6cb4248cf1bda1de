-- ===== src/Cluster/Agglomerative.antt =====
-- internal/cluster/agglomerative.go. The slices over the slots are functions of the slot, read and
-- written only below the number of rows.
pub mod Pairs
pub mod Stops
pub mod Rows
use brand_pulse.Prelude.{
  ℕ, zero, suc, ◌+◌, ◌-◌, Bool, true, false, not, ◌&&◌, ◌||◌, List, [], ◌∷◌, ◌++◌, length, Option,
  none, some, Float, ltb, leb, ◌==◌, sort_stable, if◌then◌else◌,
}
use brand_pulse.Cluster.Sparse.{sparse_dot, sparsify}

pub record Slots (R : Type 0) : Type 0 where
  pub members : ℕ → List ℕ
  pub active : ℕ → Bool
  pub distance : ℕ → ℕ → R

pub record Pair (R : Type 0) : Type 0 where
  pub low : ℕ
  pub high : ℕ
  pub apart : R

unfoldable first_or_zero : List ℕ → ℕ
first_or_zero [] = 0
first_or_zero (x ∷ xs) = x

-- the sort of collect; a cluster of no member, which the code would panic on, is never there
unfoldable pub larger : List ℕ → List ℕ → Bool
unfolding first_or_zero
larger a b =
    if not (length a == length b)
    then ltb (length b) (length a)
    else ltb (first_or_zero a) (first_or_zero b)

module _ {R : Type 0} ⦃f : Float R⦄ where
  unfoldable pub is_closer : R → Option (Pair R) → Bool
  is_closer d none = true
  is_closer d (some best) = f.lt d best.apart

  -- the inner loop of closestPair, with `left` columns to go from `j`
  unfoldable pub scan_row : Slots R → ℕ → (left j : ℕ) → Option (Pair R) → Option (Pair R)
  unfolding is_closer
  scan_row s i zero j best = best
  scan_row s i (suc left) j best = scan_row s i left (suc j) (
      if s.active j && is_closer (s.distance i j) best
      then some (record { low = i; high = j; apart = s.distance i j })
      else best)

  -- the outer loop, with `left` rows to go from `i`
  unfoldable pub scan_rows : Slots R → (left i : ℕ) → Option (Pair R) → Option (Pair R)
  unfolding scan_row
  scan_rows s zero i best = best
  scan_rows s (suc left) i best =
      scan_rows s left (suc i) (if s.active i then scan_row s i left (suc i) best else best)

  -- closestPair of `n` slots
  unfoldable pub closest_pair : ℕ → Slots R → Option (Pair R)
  unfolding scan_rows
  closest_pair n s = scan_rows s n 0 none

  -- the Lance-Williams average
  unfoldable merged_distance : Slots R → (i j other : ℕ) → R
  merged_distance s i j other =
      let size_i = f.of_ℕ (length (s.members i)) in
      let size_j = f.of_ℕ (length (s.members j)) in
      f.div (f.add (f.mul size_i (s.distance i other)) (f.mul size_j (s.distance j other)))
        (f.add size_i size_j)

  unfoldable is_other : Slots R → (i j other : ℕ) → Bool
  is_other s i j other = s.active other && not (other == i) && not (other == j)

  -- mergeInto
  unfoldable pub merge_into : (i j : ℕ) → Slots R → Slots R
  unfolding merged_distance is_other
  merge_into i j s = record {
    members = λ k.
        if k == j
        then []
        else if k == i
        then sort_stable ltb (s.members i ++ s.members j)
        else s.members k;
    active = λ k. if k == j then false else s.active k;
    distance = λ a b.
        if a == i && is_other s i j b
        then merged_distance s i j b
        else if b == i && is_other s i j a
        then merged_distance s i j a
        else s.distance a b;
  }

  -- the loop that merges, with fuel
  unfoldable pub merge_all : (fuel n : ℕ) → R → Slots R → Slots R
  unfolding closest_pair merge_into
  merge_all zero n cutoff s = s
  merge_all (suc fuel) n cutoff s =
      let next = λ (p : Pair R). merge_all fuel n cutoff (merge_into p.low p.high s) in
      elim (closest_pair n s) [ none ↦ s | some p ↦ if f.lt cutoff p.apart then s else next p ]

  -- a row of the matrix; a slot past its end is never read
  unfoldable row_at : List (List (ℕ × R)) → ℕ → List (ℕ × R)
  row_at [] k = []
  row_at (row ∷ rows) zero = row
  row_at (row ∷ rows) (suc k) = row_at rows k

  -- each row a cluster of its own
  unfoldable pub singletons : List (List R) → Slots R
  unfolding row_at sparsify sparse_dot
  singletons rows =
      let sparse = sparsify rows in
      record {
        members = λ k. k ∷ [];
        active = λ k. true;
        distance = λ i j.
            if ltb i j
            then f.sub (f.of_ℕ 1) (sparse_dot (row_at sparse i) (row_at sparse j))
            else if ltb j i
            then f.sub (f.of_ℕ 1) (sparse_dot (row_at sparse j) (row_at sparse i))
            else f.of_ℕ 0;
      }

  -- the filter of collect, with `left` slots to go from `k`
  unfoldable pub large_from : Slots R → ℕ → (left k : ℕ) → List (List ℕ)
  large_from s min_size zero k = []
  large_from s min_size (suc left) k =
      let rest = large_from s min_size left (suc k) in
      if s.active k && leb min_size (length (s.members k)) then s.members k ∷ rest else rest

  -- Agglomerative
  unfoldable pub agglomerative : List (List R) → R → ℕ → List (List ℕ)
  unfolding merge_all singletons large_from larger
  agglomerative rows cutoff min_size =
      let n = length rows in
      sort_stable larger (large_from (merge_all n n cutoff (singletons rows)) min_size n 0)
