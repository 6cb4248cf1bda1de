-- ===== src/Cluster/Sparse.antt =====
-- internal/cluster/sparse.go, and CosineDistance of agglomerative.go. A matrix has rows of one
-- length: the code panics on any other.
pub mod Dense
use brand_pulse.Prelude.{ℕ, zero, suc, ◌+◌, List, [], ◌∷◌, map, length, Float, ltb, if◌then◌else◌}

module _ {R : Type 0} ⦃f : Float R⦄ where
  -- the loop of CosineDistance
  unfoldable pub dense_dot : R → List R → List R → R
  dense_dot acc [] ys = acc
  dense_dot acc (a ∷ xs) [] = acc
  dense_dot acc (a ∷ xs) (b ∷ ys) = dense_dot (f.add acc (f.mul a b)) xs ys

  -- CosineDistance
  unfoldable cosine_distance : List R → List R → R
  unfolding dense_dot
  cosine_distance a b = f.sub (f.of_ℕ 1) (dense_dot (f.of_ℕ 0) a b)

  -- a sparseRow is its columns beside their values; `column` is the first one's
  unfoldable pub entries : ℕ → List R → List (ℕ × R)
  entries column [] = []
  entries column (v ∷ vs) =
      let rest = entries (suc column) vs in if f.eq v (f.of_ℕ 0) then rest else (column, v) ∷ rest

  -- sparsify
  unfoldable pub sparsify : List (List R) → List (List (ℕ × R))
  unfolding entries
  sparsify rows = map (entries 0) rows

  -- the walk of sparseRow.dot: one step leaves a column of one row at least
  unfoldable pub walk : ℕ → R → List (ℕ × R) → List (ℕ × R) → R
  walk zero acc xs ys = acc
  walk (suc fuel) acc [] ys = acc
  walk (suc fuel) acc (a ∷ xs) [] = acc
  walk (suc fuel) acc ((i, v) ∷ xs) ((j, w) ∷ ys) =
      let left = walk fuel acc xs ((j, w) ∷ ys) in
      let right = walk fuel acc ((i, v) ∷ xs) ys in
      let both = walk fuel (f.add acc (f.mul v w)) xs ys in
      if ltb i j then left else if ltb j i then right else both

  -- sparseRow.dot
  unfoldable pub sparse_dot : List (ℕ × R) → List (ℕ × R) → R
  unfolding walk
  sparse_dot a b = walk (length a + length b) (f.of_ℕ 0) a b
