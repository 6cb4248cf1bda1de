-- ===== src/Prelude/Dicts.antt =====
-- Go's maps with string keys, as association lists: `lookup` is m[k] with the comma-ok, `insert`
-- is m[k] = v. Nothing that is modelled depends on the order of a map.
use Prim.Native.String.{String}
use mathlib.Core.Path.{◌≡◌, refl}
use mathlib.Core.List.{List, [], ◌∷◌}
use mathlib.Core.Option.{Option, none, some}
use native.Mathlib.Omega.{arith}
use text.Mathlib.TextEquality.{eq_iff}
use mathlib.Core.Path.{subst}
use mathlib.Core.Logic.{inl, inr}
use brand_pulse.Prelude.Tests.{if◌then◌else◌, Bool-cases}
use brand_pulse.Prelude.Lists.{All}
use brand_pulse.Prelude.Text.{str_eq}

abbrev pub Dict {ℓ} : Type ℓ → Type ℓ
Dict V = List (String × V)

module _ {ℓ} {V : Type ℓ} where
  unfoldable pub lookup : String → Dict V → Option V
  lookup k [] = none
  lookup k ((j, v) ∷ m) = if str_eq j k then some v else lookup k m

  unfoldable pub insert_key : String → V → Dict V → Dict V
  insert_key k v [] = (k, v) ∷ []
  insert_key k v ((j, w) ∷ m) = if str_eq j k then (k, v) ∷ m else (j, w) ∷ insert_key k v m

  -- m[k], with the zero value where the key is missing
  unfoldable pub lookup_or : V → String → Dict V → V
  unfolding lookup
  lookup_or d k m = elim (lookup k m) [ none ↦ d | some v ↦ v ]

  pub lookup_or-of_found :
      (d : V) (k : String) (m : Dict V) {v : V} → lookup k m ≡ some v → lookup_or d k m ≡ v
  unfolding lookup_or
  lookup_or-of_found d k m h = rw (h, lookup_or) refl

  pub lookup-insert_key :
      (k j : String) (v : V) (m : Dict V)
      → lookup j (insert_key k v m) ≡ (if str_eq k j then some v else lookup j m)
  unfolding lookup insert_key
  lookup-insert_key k j v [] = refl
  lookup-insert_key k j v ((i, w) ∷ m) =
      ground (arith, eq_iff k j, eq_iff i k, eq_iff i j, lookup-insert_key k j v m)

  pub All-insert_key {κ} :
      (P : String × V → Type κ) (k : String) (v : V) (m : Dict V)
      → All P m
      → P (k, v)
      → All P (insert_key k v m)
  unfolding insert_key
  All-insert_key P k v [] h p = (p, tt)
  All-insert_key P k v ((j, w) ∷ m) h p = elim (Bool-cases (str_eq j k)) [
    | inl e ↦ rw (e, insert_key) (p, h.1)
    | inr e ↦ rw (e, insert_key) (h.0, All-insert_key P k v m h.1 p)
  ]

  pub All-lookup {κ} :
      (P : String × V → Type κ) (k : String) (v : V) (m : Dict V)
      → All P m
      → lookup k m ≡ some v
      → P (k, v)
  unfolding lookup
  All-lookup P k v [] h e = absurd (cc (e))
  All-lookup P k v ((j, w) ∷ m) h e = elim (Bool-cases (str_eq j k)) [
    | inl q ↦ subst P (ground (arith, eq_iff j k)) h.0
    | inr q ↦ All-lookup P k v m h.1 (ground arith)
  ]

  -- delete(m, k)
  unfoldable pub remove_key : String → Dict V → Dict V
  remove_key k [] = []
  remove_key k ((j, v) ∷ m) =
      let rest = remove_key k m in if str_eq j k then rest else (j, v) ∷ rest

  pub lookup-remove_key :
      (k j : String) (m : Dict V)
      → lookup j (remove_key k m) ≡ (if str_eq k j then none else lookup j m)
  unfolding lookup remove_key
  lookup-remove_key k j [] = ground arith
  lookup-remove_key k j ((i, v) ∷ m) =
      ground (arith, eq_iff k j, eq_iff i k, eq_iff i j, lookup-remove_key k j m)
