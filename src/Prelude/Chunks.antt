-- ===== src/Prelude/Chunks.antt =====
-- slices.Chunk: a list cut into pieces of one length, the last of them maybe shorter.
use Prim.Native.Nat.{ℕ, zero, suc, ◌≤◌, ◌<◌}
use mathlib.Core.Path.{◌≡◌, refl}
use mathlib.Core.List.{List, [], ◌∷◌}
use native.Mathlib.Omega.{arith}
use brand_pulse.Prelude.Lists.{length, take, drop, All, take-append-drop, length-take, length-drop}
use brand_pulse.Prelude.Concat.{concat_map}

module _ {ℓ} {A : Type ℓ} where
  unfoldable pub chunk_fuel : ℕ → ℕ → List A → List (List A)
  chunk_fuel zero n xs = []
  chunk_fuel (suc fuel) n [] = []
  chunk_fuel (suc fuel) n (x ∷ xs) = take n (x ∷ xs) ∷ chunk_fuel fuel n (drop n (x ∷ xs))

  -- As much fuel as there are values is enough where `n` is positive (chunk-concat).
  unfoldable pub chunk : ℕ → List A → List (List A)
  unfolding chunk_fuel
  chunk n xs = chunk_fuel (length xs) n xs

  chunk_fuel-concat :
      (fuel n : ℕ) (xs : List A)
      → 0 < n
      → length xs ≤ fuel
      → concat_map (λ c. c) (chunk_fuel fuel n xs) ≡ xs
  unfolding chunk_fuel concat_map
  chunk_fuel-concat zero n [] p h = refl
  chunk_fuel-concat zero n (x ∷ xs) p h = absurd (omega arith)
  chunk_fuel-concat (suc fuel) n [] p h = refl
  chunk_fuel-concat (suc fuel) n (x ∷ xs) p h =
      rw (chunk_fuel-concat fuel n (drop n (x ∷ xs)) p (omega (arith, length-drop n (x ∷ xs))))
        (take-append-drop n (x ∷ xs))

  pub chunk-concat : (n : ℕ) (xs : List A) → 0 < n → concat_map (λ c. c) (chunk n xs) ≡ xs
  unfolding chunk
  chunk-concat n xs p = chunk_fuel-concat (length xs) n xs p (omega arith)

  chunk_fuel-length :
      (fuel n : ℕ) (xs : List A)
      → 0 < n
      → All (λ c. (0 < length c) × (length c ≤ n)) (chunk_fuel fuel n xs)
  unfolding chunk_fuel
  chunk_fuel-length zero n xs p = tt
  chunk_fuel-length (suc fuel) n [] p = tt
  chunk_fuel-length (suc fuel) n (x ∷ xs) p = (
    (omega (arith, length-take n (x ∷ xs)), omega (arith, length-take n (x ∷ xs))),
    chunk_fuel-length fuel n (drop n (x ∷ xs)) p,
  )

  pub chunk-length :
      (n : ℕ) (xs : List A) → 0 < n → All (λ c. (0 < length c) × (length c ≤ n)) (chunk n xs)
  unfolding chunk
  chunk-length n xs p = chunk_fuel-length (length xs) n xs p
