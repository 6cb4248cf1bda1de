-- ===== src/Prelude/Replies.antt =====
-- What a call into another part gives: a value, or an error by its text.
use Prim.Native.String.{String}
use mathlib.Core.List.{List, [], ◌∷◌}
use mathlib.Core.Option.{Option, none, some}
use mathlib.Core.Path.{◌≡◌, refl}
use mathlib.Core.Logic.{◌⊎◌, inl, inr}
use brand_pulse.Prelude.Text.{join}

pub data Reply (A : Type 0) : Type 0 where
  ok : A → Reply A
  err : String → Reply A

-- errors.Join
unfoldable pub join_errors : List String → Option String
unfolding join
join_errors [] = none
join_errors (e ∷ es) = some (join "\n" (e ∷ es))

pub Reply-cases : {A : Type 0} (r : Reply A) → ((e : String) × (r ≡ err e)) ⊎ ((a : A) × (r ≡ ok a))
Reply-cases (err e) = inl (e, refl)
Reply-cases (ok a) = inr (a, refl)

pub join_errors-none : (es : List String) → join_errors es ≡ none → es ≡ []
unfolding join_errors
join_errors-none [] h = refl
join_errors-none (e ∷ es) h = absurd (cc h)
