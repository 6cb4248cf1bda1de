-- ===== src/Prelude/Sort.antt =====
-- Go's sort.SliceStable, as a stable insertion sort by a `less` test, and the laws of a sort whose
-- test is a strict order: the result is a permutation, it is sorted, and it is the same for every
-- order of the input.
use mathlib.Core.Path.{◌≡◌, refl, ap, ap₂, subst, ◌∙◌}
use mathlib.Core.Logic.{inl, inr}
use mathlib.Core.Bool.{Bool, true, false}
use mathlib.Core.List.{List, [], ◌∷◌, ◌++◌, Permᴰ}
use mathlib.Core.List.Permᴰ
use native.Mathlib.Omega.{arith}
use brand_pulse.Prelude.Tests.{if◌then◌else◌, Bool-cases}
use brand_pulse.Prelude.Lists.{All, length}
use Prim.Native.Nat.{suc}

pub record IsWeakOrder {ℓ} {A : Type ℓ} (less : A → A → Bool) : Type ℓ where
  pub asym : (a b : A) → less a b ≡ true → less b a ≡ false
  pub neg_trans : (a b c : A) → less a b ≡ false → less b c ≡ false → less a c ≡ false

pub All-of_perm {ℓ κ} :
    {A : Type ℓ} (P : A → Type κ) {xs ys : List A} → Permᴰ xs ys → All P xs → All P ys
All-of_perm P Permᴰ.nil h = tt
All-of_perm P (Permᴰ.cons e d) h = (subst P e h.0, All-of_perm P d h.1)
All-of_perm P (Permᴰ.swap e₁ e₂) h = (subst P e₂ h.1.0, (subst P e₁ h.0, h.1.1))
All-of_perm P (Permᴰ.trans d₁ d₂) h = All-of_perm P d₂ (All-of_perm P d₁ h)

module _ {ℓ} {A : Type ℓ} (less : A → A → Bool) where
  unfoldable pub insert : A → List A → List A
  insert x [] = x ∷ []
  insert x (y ∷ ys) = let rest = insert x ys in if less y x then y ∷ rest else x ∷ y ∷ ys

  unfoldable pub sort_stable : List A → List A
  unfolding insert
  sort_stable [] = []
  sort_stable (x ∷ xs) = insert x (sort_stable xs)

  -- Nothing later is less than `x`.
  abbrev pub IsSorted : List A → Type ℓ
  IsSorted [] = Unit
  IsSorted (x ∷ xs) = All (λ y. less y x ≡ false) xs × IsSorted xs

  pub insert-permᴰ : (x : A) (ys : List A) → Permᴰ (insert x ys) (x ∷ ys)
  unfolding insert
  insert-permᴰ x [] = Permᴰ.refl (x ∷ [])
  insert-permᴰ x (y ∷ ys) = elim (Bool-cases (less y x)) [
    | inl e ↦ rw e (Permᴰ.trans (Permᴰ.cons refl (insert-permᴰ x ys)) (Permᴰ.swap refl refl))
    | inr e ↦ rw e (Permᴰ.refl (x ∷ y ∷ ys))
  ]

  pub sort_stable-permᴰ : (xs : List A) → Permᴰ (sort_stable xs) xs
  unfolding sort_stable
  sort_stable-permᴰ [] = Permᴰ.refl []
  sort_stable-permᴰ (x ∷ xs) =
      Permᴰ.trans (insert-permᴰ x (sort_stable xs)) (Permᴰ.cons refl (sort_stable-permᴰ xs))

  module _ (w : IsWeakOrder less) where
    insert-IsSorted : (x : A) (ys : List A) → IsSorted ys → IsSorted (insert x ys)
    unfolding insert
    insert-IsSorted x [] s = (tt, tt)
    insert-IsSorted x (y ∷ ys) s = elim (Bool-cases (less y x)) [
      | inl e ↦ rw e (
        All-of_perm (λ z. less z y ≡ false) (Permᴰ.symm (insert-permᴰ x ys)) (w.asym y x e, s.0),
        insert-IsSorted x ys s.1,
      )
      | inr e ↦ rw e ((e, All_below x y ys e s.0), s)
    ]
      where
        All_below :
            (a b : A) (zs : List A)
            → less b a ≡ false
            → All (λ z. less z b ≡ false) zs
            → All (λ z. less z a ≡ false) zs
        All_below a b [] h p = tt
        All_below a b (z ∷ zs) h p = (w.neg_trans z b a p.0 h, All_below a b zs h p.1)

    pub sort_stable-IsSorted : (xs : List A) → IsSorted (sort_stable xs)
    unfolding sort_stable
    sort_stable-IsSorted [] = tt
    sort_stable-IsSorted (x ∷ xs) = insert-IsSorted x (sort_stable xs) (sort_stable-IsSorted xs)

    insert_comm :
        (x y : A) (zs : List A)
        → (less x y ≡ false → less y x ≡ false → x ≡ y)
        → insert x (insert y zs) ≡ insert y (insert x zs)
    unfolding insert
    insert_comm x y [] c = ground (arith, w.asym x y)
    insert_comm x y (z ∷ zs) c =
        ground (arith, insert_comm x y zs c, w.asym x y, w.neg_trans z x y, w.neg_trans z y x)

    -- Two orders of the same values sort to the same list, if values that the test does not
    -- tell apart are equal.
    pub sort_stable-eq_of_permᴰ {κ} :
        (P : A → Type κ)
        → ((a b : A) → P a → P b → less a b ≡ false → less b a ≡ false → a ≡ b)
        → {xs ys : List A} → All P xs
        → Permᴰ xs ys
        → sort_stable xs ≡ sort_stable ys
    unfolding sort_stable
    sort_stable-eq_of_permᴰ P c h Permᴰ.nil = refl
    sort_stable-eq_of_permᴰ P c h (Permᴰ.cons e d) =
        ap₂ insert e (sort_stable-eq_of_permᴰ P c h.1 d)
    sort_stable-eq_of_permᴰ P c {xs = a ∷ b ∷ l} h (Permᴰ.swap e₁ e₂) =
        insert_comm a b (sort_stable l) (c a b h.0 h.1.0)
        ∙ ap₂ (λ u v. insert u (insert v (sort_stable l))) e₂ e₁
    sort_stable-eq_of_permᴰ P c h (Permᴰ.trans d₁ d₂) =
        sort_stable-eq_of_permᴰ P c h d₁ ∙ sort_stable-eq_of_permᴰ P c (All-of_perm P d₁ h) d₂

-- A test that goes by one order first, and by another where the first does not tell apart.
pub record ByFirst {ℓ} {A : Type ℓ} (less first second : A → A → Bool) : Type ℓ where
  pub before : (a b : A) → first a b ≡ true → less a b ≡ true
  pub after : (a b : A) → first b a ≡ true → less a b ≡ false
  pub level : (a b : A) → first a b ≡ false → first b a ≡ false → less a b ≡ second a b

module _ {ℓ} {A : Type ℓ} {less first second : A → A → Bool} where
  pub ByFirst-IsWeakOrder :
      ByFirst less first second → IsWeakOrder first → IsWeakOrder second → IsWeakOrder less
  ByFirst-IsWeakOrder l u v = record {
    asym = λ a b h. ground (
      arith,
      l.before a b,
      l.before b a,
      l.after a b,
      l.after b a,
      l.level a b,
      l.level b a,
      u.asym a b,
      u.asym b a,
      v.asym a b,
    );
    neg_trans = λ a b c h k. ground (
      arith,
      l.before a b,
      l.before b c,
      l.after a c,
      l.level a b,
      l.level b c,
      l.level a c,
      u.asym a c,
      u.asym c a,
      u.neg_trans a b c,
      u.neg_trans c b a,
      u.neg_trans b c a,
      u.neg_trans c a b,
      u.neg_trans b a c,
      u.neg_trans a c b,
      v.neg_trans a b c,
    );
  }

module _ {ℓ} {A : Type ℓ} (less : A → A → Bool) where
  -- The parts of a sorted list: nothing in the second is less than anything in the first.
  pub IsSorted-append :
      (xs ys : List A) → IsSorted less (xs ++ ys) → All (λ x. All (λ y. less y x ≡ false) ys) xs
  IsSorted-append [] ys s = tt
  IsSorted-append (x ∷ xs) ys s = (All_right xs ys s.0, IsSorted-append xs ys s.1)
    where
      All_right :
          (us vs : List A) → All (λ y. less y x ≡ false) (us ++ vs) → All (λ y. less y x ≡ false) vs
      All_right [] vs h = h
      All_right (u ∷ us) vs h = All_right us vs h.1

pub length-perm {ℓ} : {A : Type ℓ} {xs ys : List A} → Permᴰ xs ys → length xs ≡ length ys
length-perm Permᴰ.nil = refl
length-perm (Permᴰ.cons e d) = ap suc (length-perm d)
length-perm (Permᴰ.swap e₁ e₂) = refl
length-perm (Permᴰ.trans d₁ d₂) = length-perm d₁ ∙ length-perm d₂
