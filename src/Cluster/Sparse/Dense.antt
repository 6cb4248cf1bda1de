-- ===== src/Cluster/Sparse/Dense.antt =====
-- The walk over two sparse rows gives the inner product of the rows.
use brand_pulse.Prelude.{
  sym, ap, ◌∙◌, ℕ, zero, suc, ◌+◌, ◌≤◌, ◌≡◌, refl, inl, inr, true, List, [], ◌∷◌, length, Float,
  arith, Bool-cases,
}
use brand_pulse.Cluster.Sparse.{dense_dot, entries, walk, sparse_dot}

-- A product with 0 adds nothing, as for finite values in IEEE 754.
pub record IsNeutral {R : Type 0} (f : Float R) : Type 0 where
  pub left : (acc v w : R) → f.eq v (f.of_ℕ 0) ≡ true → f.add acc (f.mul v w) ≡ acc
  pub right : (acc v w : R) → f.eq w (f.of_ℕ 0) ≡ true → f.add acc (f.mul v w) ≡ acc

one_less : (fuel n : ℕ) → suc n ≤ fuel → (m : ℕ) × (fuel ≡ suc m) × (n ≤ m)
one_less zero n h = absurd (omega arith)
one_less (suc m) n h = (m, refl, omega arith)

module _ {R : Type 0} ⦃f : Float R⦄ where
  -- the first column of a sparse row is at least `k`
  abbrev StartsAt : ℕ → List (ℕ × R) → Type 0
  StartsAt k [] = Unit
  StartsAt k ((j, v) ∷ xs) = k ≤ j

  StartsAt-entries : (k : ℕ) (vs : List R) → StartsAt k (entries k vs)
  unfolding entries
  StartsAt-entries k [] = tt
  StartsAt-entries k (v ∷ vs) = elim (Bool-cases (f.eq v (f.of_ℕ 0))) [
    | inl e ↦ rw (e, entries) (lower (entries (suc k) vs) (StartsAt-entries (suc k) vs))
    | inr e ↦ rw (e, entries) (omega arith)
  ]
    where
      lower : (xs : List (ℕ × R)) → StartsAt (suc k) xs → StartsAt k xs
      lower [] h = tt
      lower ((j, w) ∷ xs) h = omega arith

  walk_nil : (fuel : ℕ) (acc : R) (xs : List (ℕ × R)) → walk fuel acc xs [] ≡ acc
  unfolding walk
  walk_nil zero acc xs = refl
  walk_nil (suc fuel) acc [] = refl
  walk_nil (suc fuel) acc (x ∷ xs) = refl

  nil_walk : (fuel : ℕ) (acc : R) (ys : List (ℕ × R)) → walk fuel acc [] ys ≡ acc
  unfolding walk
  nil_walk zero acc ys = refl
  nil_walk (suc fuel) acc ys = refl

  -- a column that only the one row has is skipped
  skip_left :
      (fuel k : ℕ) (acc v : R) (xs ys : List (ℕ × R))
      → StartsAt (suc k) ys
      → walk (suc fuel) acc ((k, v) ∷ xs) ys ≡ walk fuel acc xs ys
  unfolding walk
  skip_left fuel k acc v xs [] h = sym (walk_nil fuel acc xs)
  skip_left fuel k acc v xs ((j, w) ∷ ys) h = ground arith

  skip_right :
      (fuel k : ℕ) (acc w : R) (xs ys : List (ℕ × R))
      → StartsAt (suc k) xs
      → walk (suc fuel) acc xs ((k, w) ∷ ys) ≡ walk fuel acc xs ys
  unfolding walk
  skip_right fuel k acc w [] ys h = sym (nil_walk fuel acc ys)
  skip_right fuel k acc w ((i, v) ∷ xs) ys h = ground arith

  take_both :
      (fuel k : ℕ) (acc v w : R) (xs ys : List (ℕ × R))
      → walk (suc fuel) acc ((k, v) ∷ xs) ((k, w) ∷ ys) ≡ walk fuel (f.add acc (f.mul v w)) xs ys
  unfolding walk
  take_both fuel k acc v w xs ys = ground arith

  walk-dense_dot :
      IsNeutral f
      → (vs ws : List R) (fuel k : ℕ) (acc : R) → length vs ≡ length ws
      → length (entries k vs) + length (entries k ws) ≤ fuel
      → walk fuel acc (entries k vs) (entries k ws) ≡ dense_dot acc vs ws
  unfolding entries dense_dot
  walk-dense_dot z [] ws fuel k acc h e = nil_walk fuel acc (entries k ws)
  walk-dense_dot z (v ∷ vs) [] fuel k acc h e = absurd (omega arith)
  walk-dense_dot z (v ∷ vs) (w ∷ ws) fuel k acc h e =
      let xs = entries (suc k) vs in
      let ys = entries (suc k) ws in
      elim (Bool-cases (f.eq v (f.of_ℕ 0))) [
        | inl p ↦ elim (Bool-cases (f.eq w (f.of_ℕ 0))) [
          | inl q ↦
              rw (p, entries)
                (rw (q, entries)
                  (walk-dense_dot z vs ws fuel (suc k) acc (omega arith) (ground arith)
                    ∙ ap (λ a. dense_dot a vs ws) (sym (z.left acc v w p))))
          | inr q ↦
              let (m, e', le) = one_less fuel (length xs + length ys) (ground arith) in
              rw (p, entries)
                (rw (q, entries)
                  (rw e' (
                    skip_right m k acc w xs ys (StartsAt-entries (suc k) vs)
                    ∙ walk-dense_dot z vs ws m (suc k) acc (omega arith) le
                    ∙ ap (λ a. dense_dot a vs ws) (sym (z.left acc v w p)))))
        ]
        | inr p ↦ elim (Bool-cases (f.eq w (f.of_ℕ 0))) [
          | inl q ↦
              let (m, e', le) = one_less fuel (length xs + length ys) (ground arith) in
              rw (p, entries)
                (rw (q, entries)
                  (rw e' (
                    skip_left m k acc v xs ys (StartsAt-entries (suc k) ws)
                    ∙ walk-dense_dot z vs ws m (suc k) acc (omega arith) le
                    ∙ ap (λ a. dense_dot a vs ws) (sym (z.right acc v w q)))))
          | inr q ↦
              let (m, e', le) = one_less fuel (length xs + suc (length ys)) (ground arith) in
              rw (p, entries)
                (rw (q, entries)
                  (rw e' (
                    take_both m k acc v w xs ys
                    ∙ walk-dense_dot z vs ws m (suc k) (f.add acc (f.mul v w)) (omega arith)
                        (omega arith))))
        ]
      ]

  -- Where a product with 0 adds nothing, the walk over the sparse view of two rows of one length
  -- ends within its fuel, and gives the sum that CosineDistance takes over the rows themselves.
  pub sparse_dot-eq-dense_dot :
      (vs ws : List R)
      → IsNeutral f
      → length vs ≡ length ws
      → sparse_dot (entries 0 vs) (entries 0 ws) ≡ dense_dot (f.of_ℕ 0) vs ws
  unfolding sparse_dot
  sparse_dot-eq-dense_dot vs ws z h = walk-dense_dot z vs ws _ 0 (f.of_ℕ 0) h (omega arith)
