-- ===== src/Prelude/Text.antt =====
-- Text: the native strings, compared as Go compares them, by their code points.
use Prim.Native.Char.{code}
use Prim.Native.Nat.{ℕ, zero, suc, ◌/◌, ◌%◌}
use Prim.Native.String.{String, ◌++◌}
use Prim.Native.String.append
use mathlib.Core.Logic.{◌≢◌, inl, inr}
use mathlib.Core.Path.{◌≡◌, refl, ap₂}
use mathlib.Core.Bool.{Bool, true, false}
use mathlib.Core.List.{List, [], ◌∷◌}
use native.Mathlib.Omega.{arith}
use text.Mathlib.Text.{◌==◌ as beq}
use text.Mathlib.TextEquality.{Char-path, eq_iff}
use brand_pulse.Prelude.Tests.{ltb, ◌==◌, if◌then◌else◌, Bool-cases}
use brand_pulse.Prelude.Sort.{IsWeakOrder}

abbrev pub str_eq : String → String → Bool
str_eq = beq

-- s == ""
abbrev pub is_empty : String → Bool
is_empty s = str_eq s ""

unfoldable pub codes : String → List ℕ
codes String.[] = []
codes (String.◌∷◌ c s) = code c ∷ codes s

-- Lexicographic `<` on code points, which on UTF-8 is Go's `<` on the bytes.
unfoldable pub lex_lt : List ℕ → List ℕ → Bool
lex_lt xs [] = false
lex_lt [] (y ∷ ys) = true
lex_lt (x ∷ xs) (y ∷ ys) = let rest = lex_lt xs ys in if x == y then rest else ltb x y

unfoldable pub str_lt : String → String → Bool
unfolding lex_lt codes
str_lt s t = lex_lt (codes s) (codes t)

codes-injective : (s t : String) → codes s ≡ codes t → s ≡ t
unfolding codes
codes-injective String.[] String.[] e = refl
codes-injective String.[] (String.◌∷◌ d t) e = cc
codes-injective (String.◌∷◌ c s) String.[] e = cc
codes-injective (String.◌∷◌ c s) (String.◌∷◌ d t) e =
    ap₂ String.◌∷◌ (Char-path c d (cc)) (codes-injective s t (cc))

lex_lt-asym : (xs ys : List ℕ) → lex_lt xs ys ≡ true → lex_lt ys xs ≡ false
unfolding lex_lt
lex_lt-asym xs [] h = cc
lex_lt-asym [] (y ∷ ys) h = refl
lex_lt-asym (x ∷ xs) (y ∷ ys) h = ground (arith, lex_lt-asym xs ys)

lex_lt-neg_trans :
    (xs ys zs : List ℕ) → lex_lt xs ys ≡ false → lex_lt ys zs ≡ false → lex_lt xs zs ≡ false
unfolding lex_lt
lex_lt-neg_trans xs ys [] h k = refl
lex_lt-neg_trans xs [] (z ∷ zs) h k = cc
lex_lt-neg_trans [] (y ∷ ys) (z ∷ zs) h k = cc
lex_lt-neg_trans (x ∷ xs) (y ∷ ys) (z ∷ zs) h k = ground (arith, lex_lt-neg_trans xs ys zs)

lex_lt-connex : (xs ys : List ℕ) → lex_lt xs ys ≡ false → lex_lt ys xs ≡ false → xs ≡ ys
unfolding lex_lt
lex_lt-connex [] [] h k = refl
lex_lt-connex [] (y ∷ ys) h k = cc
lex_lt-connex (x ∷ xs) [] h k = cc
lex_lt-connex (x ∷ xs) (y ∷ ys) h k = ground (arith, lex_lt-connex xs ys)

pub str_lt-IsWeakOrder : IsWeakOrder str_lt
unfolding str_lt
str_lt-IsWeakOrder = record {
  asym = λ a b. lex_lt-asym (codes a) (codes b);
  neg_trans = λ a b c. lex_lt-neg_trans (codes a) (codes b) (codes c);
}

pub str_lt-connex : (s t : String) → str_lt s t ≡ false → str_lt t s ≡ false → s ≡ t
unfolding str_lt
str_lt-connex s t h k = codes-injective s t (lex_lt-connex (codes s) (codes t) h k)

infixl 65 ◌^^◌
abbrev pub ◌^^◌ : String → String → String
s ^^ t = s ++ t

-- strings.Join(names, sep)
unfoldable pub join : String → List String → String
join sep [] = ""
join sep (s ∷ []) = s
join sep (s ∷ t ∷ rest) = s ^^ sep ^^ join sep (t ∷ rest)

digit : ℕ → String
digit n =
    if n == 0
    then "0"
    else if n == 1
    then "1"
    else if n == 2
    then "2"
    else if n == 3
    then "3"
    else if n == 4
    then "4"
    else if n == 5
    then "5"
    else if n == 6
    then "6"
    else if n == 7
    then "7"
    else if n == 8
    then "8"
    else "9"

itoa_fuel : ℕ → ℕ → String
unfolding digit
itoa_fuel zero n = ""
itoa_fuel (suc f) n =
    let rest = itoa_fuel f (n / 10) in if ltb n 10 then digit n else rest ^^ digit (n % 10)

-- `%d`: a number has fewer digits than its successor counts.
unfoldable pub itoa : ℕ → String
unfolding itoa_fuel
itoa n = itoa_fuel (suc n) n

itoa_test : itoa 1095 ≡ "1095"
unfolding itoa
itoa_test = refl

pub append-ne-empty : (s t : String) → s ≢ "" → s ^^ t ≢ ""
append-ne-empty String.[] t h = absurd (h refl)
append-ne-empty (String.◌∷◌ c s) t h = λ e. cc (append.cons c s t, e)

pub append-ne-empty_right : (s t : String) → t ≢ "" → s ^^ t ≢ ""
append-ne-empty_right String.[] t h = λ e. h (cc (append.nil t, e))
append-ne-empty_right (String.◌∷◌ c s) t h = λ e. cc (append.cons c s t, e)

pub is_empty_of_ne : (s : String) → s ≢ "" → is_empty s ≡ false
is_empty_of_ne s h = ground (arith, eq_iff s "")

digit-ne-empty : (n : ℕ) → digit n ≢ ""
unfolding digit
digit-ne-empty n = λ e. ground (
  arith,
  eq_iff "0" "",
  eq_iff "1" "",
  eq_iff "2" "",
  eq_iff "3" "",
  eq_iff "4" "",
  eq_iff "5" "",
  eq_iff "6" "",
  eq_iff "7" "",
  eq_iff "8" "",
  eq_iff "9" "",
)

pub itoa-ne-empty : (n : ℕ) → itoa n ≢ ""
unfolding itoa itoa_fuel
itoa-ne-empty n = elim (Bool-cases (ltb n 10)) [
  | inl e ↦ rw (e, itoa_fuel) (digit-ne-empty n)
  | inr e ↦
      rw (e, itoa_fuel)
        (append-ne-empty_right (itoa_fuel n (n / 10)) (digit (n % 10)) (digit-ne-empty (n % 10)))
]

pub codes-cons : (s : String) → s ≢ "" → (c : ℕ) × (cs : List ℕ) × (codes s ≡ c ∷ cs)
unfolding codes
codes-cons String.[] h = absurd (h refl)
codes-cons (String.◌∷◌ c s) h = (code c, codes s, refl)
