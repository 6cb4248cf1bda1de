-- ===== src/Prelude/Concat.antt =====
-- What a loop over a list adds up: lists end to end, and numbers.
use Prim.Native.Nat.{ℕ, ◌+◌}
use mathlib.Core.Path.{◌≡◌, refl, ap, subst, subst₂, ◌∙◌}
use mathlib.Core.Logic.{inl, inr}
use mathlib.Core.List.{List, [], ◌∷◌, ◌++◌, Permᴰ, Memᴰ}
use mathlib.Core.List.Permᴰ
use mathlib.Core.List.Memᴰ
use native.Mathlib.Omega.{arith}

append_swap {ℓ} : {A : Type ℓ} (xs ys zs : List A) → Permᴰ (xs ++ (ys ++ zs)) (ys ++ (xs ++ zs))
append_swap [] ys zs = Permᴰ.refl (ys ++ zs)
append_swap (x ∷ xs) ys zs =
    Permᴰ.trans (Permᴰ.cons refl (append_swap xs ys zs)) (Permᴰ.symm (Permᴰ.middle x ys (xs ++ zs)))

module _ {ℓ κ} {A : Type ℓ} {B : Type κ} where
  unfoldable pub concat_map : (A → List B) → List A → List B
  concat_map f [] = []
  concat_map f (x ∷ xs) = f x ++ concat_map f xs

  pub concat_map-perm :
      (f : A → List B) {xs ys : List A} → Permᴰ xs ys → Permᴰ (concat_map f xs) (concat_map f ys)
  unfolding concat_map
  concat_map-perm f Permᴰ.nil = Permᴰ.nil
  concat_map-perm f {xs = a ∷ xs} {ys = b ∷ ys} (Permᴰ.cons e d) =
      subst (λ c. Permᴰ (f a ++ concat_map f xs) (f c ++ concat_map f ys)) e
        (Permᴰ.append_left (f a) (concat_map-perm f d))
  concat_map-perm f {xs = a ∷ b ∷ xs} (Permᴰ.swap e₁ e₂) =
      subst₂ (λ c d. Permᴰ (f a ++ (f b ++ concat_map f xs)) (f d ++ (f c ++ concat_map f xs))) e₁
        e₂ (append_swap (f a) (f b) (concat_map f xs))
  concat_map-perm f (Permᴰ.trans d₁ d₂) = Permᴰ.trans (concat_map-perm f d₁) (concat_map-perm f d₂)

  pub concat_map-mem :
      (f : A → List B) (xs : List A) (b : B)
      → Memᴰ b (concat_map f xs)
      → (a : A) × Memᴰ a xs × Memᴰ b (f a)
  unfolding concat_map
  concat_map-mem f [] b m = elim m [ ]
  concat_map-mem f (x ∷ xs) b m = elim (Memᴰ.append_cases (f x) m) [
    | inl h ↦ (x, Memᴰ.head refl, h)
    | inr h ↦ let (a, i, j) = concat_map-mem f xs b h in (a, Memᴰ.tail i, j)
  ]

module _ {ℓ} {A : Type ℓ} where
  unfoldable pub sum_map : (A → ℕ) → List A → ℕ
  sum_map f [] = 0
  sum_map f (x ∷ xs) = f x + sum_map f xs

  pub sum_map-perm : (f : A → ℕ) {xs ys : List A} → Permᴰ xs ys → sum_map f xs ≡ sum_map f ys
  unfolding sum_map
  sum_map-perm f Permᴰ.nil = refl
  sum_map-perm f (Permᴰ.cons e d) = omega (arith, ap f e, sum_map-perm f d)
  sum_map-perm f (Permᴰ.swap e₁ e₂) = omega (arith, ap f e₁, ap f e₂)
  sum_map-perm f (Permᴰ.trans d₁ d₂) = sum_map-perm f d₁ ∙ sum_map-perm f d₂

  pub sum_map-append :
      (f : A → ℕ) (xs ys : List A) → sum_map f (xs ++ ys) ≡ sum_map f xs + sum_map f ys
  unfolding sum_map
  sum_map-append f [] ys = omega arith
  sum_map-append f (x ∷ xs) ys = omega (arith, sum_map-append f xs ys)
