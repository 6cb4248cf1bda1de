-- ===== src/Briefer/Commas.antt =====
-- Where the commas of a number go.
use Prim.Native.String.append
use text.Mathlib.TextLemmas.{append_assoc}
use mathlib.Core.List.{append-nil}
use brand_pulse.Prelude.{
  ℕ, ◌-◌, ◌%◌, ◌≤◌, ◌≡◌, refl, sym, ap, ◌∙◌, inl, inr, true, ◌==◌, Bool-cases, List, [], ◌∷◌, ◌++◌,
  map, length, All, join, itoa, codes, ◌^^◌, arith, concat_map, itoa-ne-empty, codes-cons,
  if◌then◌else◌,
}
use brand_pulse.Briefer.Format.{commas_from, string_of, commas}

-- the groups, each behind a comma
unfoldable with_commas : List (List ℕ) → List ℕ
with_commas [] = []
with_commas (g ∷ gs) = 44 ∷ g ++ with_commas gs

-- the digits of the groups
abbrev pub digits_of : List (List ℕ) → List ℕ
digits_of groups = concat_map (λ g. g) groups

-- The digits after the first are a rest, shorter than three, and groups of three behind commas.
abbrev IsCut : List ℕ → List ℕ → Type 0
IsCut digits printed =
    (g : List ℕ) × (gs : List (List ℕ)) × (length g ≡ length digits % 3)
    × All (λ h. length h ≡ 3) gs
    × (g ++ digits_of gs ≡ digits)
    × (printed ≡ g ++ with_commas gs)

commas_from-IsCut : (digits : List ℕ) → IsCut digits (commas_from true digits)
unfolding commas_from with_commas concat_map
commas_from-IsCut [] = ([], [], refl, tt, refl, refl)
commas_from-IsCut (d ∷ ds) =
    let (g, gs, size, threes, whole, printed) = commas_from-IsCut ds in
    elim (Bool-cases (length (d ∷ ds) % 3 == 0)) [
      | inl e ↦ (
        [],
        (d ∷ g) ∷ gs,
        ground arith,
        (ground arith, threes),
        ap (λ l. d ∷ l) whole,
        rw (e, commas_from) (ap (λ l. 44 ∷ d ∷ l) printed),
      )
      | inr e ↦ (
        d ∷ g,
        gs,
        ground arith,
        threes,
        ap (λ l. d ∷ l) whole,
        rw (e, commas_from) (ap (λ l. d ∷ l) printed),
      )
    ]

string_of-append : (xs ys : List ℕ) → string_of (xs ++ ys) ≡ string_of xs ^^ string_of ys
unfolding string_of
string_of-append [] ys = sym (append.nil (string_of ys))
string_of-append (c ∷ xs) ys =
    ap (λ s. (if c == 44 then "," else itoa (c - 48)) ^^ s) (string_of-append xs ys)
    ∙ sym (append_assoc (if c == 44 then "," else itoa (c - 48)) (string_of xs) (string_of ys))

string_of-join :
    (g : List ℕ) (gs : List (List ℕ))
    → string_of (g ++ with_commas gs) ≡ join "," (map string_of (g ∷ gs))
unfolding with_commas join string_of
string_of-join g [] = ap string_of (append-nil g)
string_of-join g (h ∷ hs) =
    string_of-append g (with_commas (h ∷ hs))
    ∙ ap (λ s. string_of g ^^ ("," ^^ s)) (string_of-join h hs)
    ∙ sym (append_assoc (string_of g) "," (join "," (map string_of (h ∷ hs))))

-- The digits of the number in groups: one to three digits in the first, three in each other.
abbrev pub AreThousands : List ℕ → List ℕ → List (List ℕ) → Type 0
AreThousands digits g gs =
    (1 ≤ length g) × (length g ≤ 3) × All (λ h. length h ≡ 3) gs × (g ++ digits_of gs ≡ digits)

-- commas prints the digits of the number in groups, with a comma between two groups and nowhere
-- else: there are one to three digits in the first group, and three in each other.
pub commas_separate_thousands :
    (n : ℕ)
    → (g : List ℕ) × (gs : List (List ℕ)) × AreThousands (codes (itoa n)) g gs
      × (commas n ≡ join "," (map string_of (g ∷ gs)))
unfolding commas commas_from
commas_separate_thousands n =
    let (d, ds, e) = codes-cons (itoa n) (itoa-ne-empty n) in
    let (g, gs, size, threes, whole, printed) = commas_from-IsCut ds in
    (
      d ∷ g,
      gs,
      (omega arith, omega (arith, size), threes, rw e (ap (λ l. d ∷ l) whole)),
      rw (e, commas_from) (ap (λ l. string_of (d ∷ l)) printed) ∙ string_of-join (d ∷ g) gs,
    )
