-- ===== src/Prelude/Unique.antt =====
-- The loops that keep the first value of each key, with a map of the keys seen.
use Prim.Native.String.{String}
use mathlib.Core.Path.{◌≡◌, refl, sym, ap, subst, subst₂}
use mathlib.Core.Logic.{◌≢◌, inl, inr}
use mathlib.Core.Bool.{Bool, true, false, ◌||◌}
use mathlib.Core.List.{List, [], ◌∷◌, Memᴰ, Permᴰ}
use mathlib.Core.List.Memᴰ
use native.Mathlib.Omega.{arith}
use text.Mathlib.TextEquality.{eq_iff}
use brand_pulse.Prelude.Tests.{if◌then◌else◌, Bool-cases}
use brand_pulse.Prelude.Lists.{All, keep, All-of_keep}
use brand_pulse.Prelude.Text.{str_eq}
use brand_pulse.Prelude.Sort.{All-of_perm}

unfoldable pub contains : String → List String → Bool
contains s [] = false
contains s (t ∷ ts) = str_eq t s || contains s ts

module _ {ℓ} {A : Type ℓ} (key : A → String) where
  unfoldable pub unique_from : List String → List A → List A
  unfolding contains
  unique_from seen [] = []
  unique_from seen (x ∷ xs) =
      let skip = unique_from seen xs in
      let take = x ∷ unique_from (key x ∷ seen) xs in if contains (key x) seen then skip else take

  unfoldable pub unique_by : List A → List A
  unfolding unique_from
  unique_by xs = unique_from [] xs

  -- No two values have one key.
  abbrev pub HasUniqueKeys : List A → Type 0
  HasUniqueKeys [] = Unit
  HasUniqueKeys (x ∷ xs) = All (λ y. key x ≢ key y) xs × HasUniqueKeys xs

  unique_from-fresh :
      (k : String) (seen : List String) (xs : List A)
      → contains k seen ≡ true
      → All (λ y. k ≢ key y) (unique_from seen xs)
  unfolding unique_from contains
  unique_from-fresh k seen [] h = tt
  unique_from-fresh k seen (x ∷ xs) h = elim (Bool-cases (contains (key x) seen)) [
    | inl e ↦ rw e (unique_from-fresh k seen xs h)
    | inr e ↦ rw e (λ p. cc (p, e, h), unique_from-fresh k (key x ∷ seen) xs (ground arith))
  ]

  unique_from-HasUniqueKeys :
      (seen : List String) (xs : List A) → HasUniqueKeys (unique_from seen xs)
  unfolding unique_from contains
  unique_from-HasUniqueKeys seen [] = tt
  unique_from-HasUniqueKeys seen (x ∷ xs) = elim (Bool-cases (contains (key x) seen)) [
    | inl e ↦ rw e (unique_from-HasUniqueKeys seen xs)
    | inr e ↦ rw e (
      unique_from-fresh (key x) (key x ∷ seen) xs (ground (arith, eq_iff (key x) (key x))),
      unique_from-HasUniqueKeys (key x ∷ seen) xs,
    )
  ]

  pub unique_by-HasUniqueKeys : (xs : List A) → HasUniqueKeys (unique_by xs)
  unfolding unique_by
  unique_by-HasUniqueKeys xs = unique_from-HasUniqueKeys [] xs

  unique_from-mem :
      (seen : List String) (xs : List A) (a : A) → Memᴰ a (unique_from seen xs) → Memᴰ a xs
  unfolding unique_from
  unique_from-mem seen [] a m = elim m [ ]
  unique_from-mem seen (x ∷ xs) a m = elim (Bool-cases (contains (key x) seen)) [
    | inl e ↦ Memᴰ.tail (unique_from-mem seen xs a (rw e at m))
    | inr e ↦ elim (Memᴰ.cases_cons (rw e at m)) [
      | inl p ↦ Memᴰ.head p
      | inr m' ↦ Memᴰ.tail (unique_from-mem (key x ∷ seen) xs a m')
    ]
  ]

  pub unique_by-mem : (xs : List A) (a : A) → Memᴰ a (unique_by xs) → Memᴰ a xs
  unfolding unique_by
  unique_by-mem xs a m = unique_from-mem [] xs a m

  -- A value with this key.
  abbrev pub HasKey : String → List A → Type ℓ
  HasKey k xs = (a : A) × Memᴰ a xs × (key a ≡ k)

  HasKey-cons : (k : String) (x : A) (xs : List A) → HasKey k xs → HasKey k (x ∷ xs)
  HasKey-cons k x xs (a, m, e) = (a, Memᴰ.tail m, e)

  unique_from-covers :
      (seen : List String) (xs : List A) (a : A)
      → Memᴰ a xs
      → contains (key a) seen ≡ false
      → HasKey (key a) (unique_from seen xs)
  unfolding unique_from contains
  unique_from-covers seen [] a m h = elim m [ ]
  unique_from-covers seen (x ∷ xs) a m h = elim (Bool-cases (contains (key x) seen)) [
    | inl e ↦ rw e (elim (Memᴰ.cases_cons m) [
      | inl p ↦ absurd (cc (p, e, h))
      | inr m' ↦ unique_from-covers seen xs a m' h
    ])
    | inr e ↦ rw e (elim (Memᴰ.cases_cons m) [
      | inl p ↦ (x, Memᴰ.head refl, ap key (sym p))
      | inr m' ↦ elim (Bool-cases (str_eq (key x) (key a))) [
        | inl q ↦ (x, Memᴰ.head refl, (eq_iff (key x) (key a)).0 q)
        | inr q ↦
            HasKey-cons (key a) x (unique_from (key x ∷ seen) xs)
              (unique_from-covers (key x ∷ seen) xs a m' (rw q h))
      ]
    ])
  ]

  pub unique_by-covers : (xs : List A) (a : A) → Memᴰ a xs → HasKey (key a) (unique_by xs)
  unfolding unique_by contains
  unique_by-covers xs a m = unique_from-covers [] xs a m refl

  pub HasUniqueKeys-keep :
      (p : A → Bool) (xs : List A) → HasUniqueKeys xs → HasUniqueKeys (keep p xs)
  HasUniqueKeys-keep p [] h = tt
  HasUniqueKeys-keep p (x ∷ xs) h = elim (Bool-cases (p x)) [
    | inl e ↦ rw e (All-of_keep p (λ y. key x ≢ key y) xs h.0, HasUniqueKeys-keep p xs h.1)
    | inr e ↦ rw e (HasUniqueKeys-keep p xs h.1)
  ]

  pub HasUniqueKeys-perm : {xs ys : List A} → Permᴰ xs ys → HasUniqueKeys xs → HasUniqueKeys ys
  HasUniqueKeys-perm Permᴰ.nil h = tt
  HasUniqueKeys-perm {xs = a ∷ xs} {ys = b ∷ ys} (Permᴰ.cons e d) h = (
    subst (λ c. All (λ y. key c ≢ key y) ys) e (All-of_perm (λ y. key a ≢ key y) d h.0),
    HasUniqueKeys-perm d h.1,
  )
  HasUniqueKeys-perm {xs = a ∷ b ∷ xs} (Permᴰ.swap e₁ e₂) h =
      subst₂ (λ c d. HasUniqueKeys (d ∷ c ∷ xs)) e₁ e₂ ((λ q. h.0.0 (sym q), h.1.0), (h.0.1, h.1.1))
  HasUniqueKeys-perm (Permᴰ.trans d₁ d₂) h = HasUniqueKeys-perm d₂ (HasUniqueKeys-perm d₁ h)
