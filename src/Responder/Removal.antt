-- ===== src/Responder/Removal.antt =====
-- The cutting of phrases from a text: that it ends, and what it leaves.
use brand_pulse.Prelude.{
  ℕ, zero, suc, ◌+◌, ◌-◌, ◌<◌, ◌≤◌, ◌≡◌, refl, ◌≢◌, inl, inr, true, String, List, [], ◌∷◌, ◌++◌,
  none, some, length, take, drop, leb, leb→le, length-append, length-take, length-drop,
  Option-cases, Bool-cases, arith,
}
use brand_pulse.Responder.Guardrails.{
  Bytes, index, Cut, kept, panicked, out_of_fuel, remove_from, remove_fold, strip_each, starts_with,
}

length-cut :
    (at n : ℕ) (text : Bytes)
    → at + n ≤ length text
    → length (take at text ++ drop (at + n) text) ≡ length text - n
length-cut at n text h = omega (
  arith,
  length-append (take at text) (drop (at + n) text),
  length-take at text,
  length-drop (at + n) text,
)

-- The loop does not run out of fuel, and what it keeps does not contain the phrase.
abbrev pub IsClear : (Bytes → Bytes) → Bytes → Cut → Type 0
IsClear lower phrase (kept text) = index (lower text) (lower phrase) ≡ none
IsClear lower phrase panicked = Unit
IsClear lower phrase out_of_fuel = ⊥

remove_from-IsClear :
    (lower : Bytes → Bytes) (fuel : ℕ) (text phrase : Bytes)
    → 0 < length phrase
    → length text < fuel
    → IsClear lower phrase (remove_from lower fuel text phrase)
unfolding remove_from
remove_from-IsClear lower zero text phrase p h = omega arith
remove_from-IsClear lower (suc fuel) text phrase p h =
    elim (Option-cases (index (lower text) (lower phrase))) [
      | inl e ↦ rw (e, remove_from) e
      | inr (at, e) ↦ elim (Bool-cases (leb (at + length phrase) (length text))) [
        | inl q ↦
            let fits : at + length phrase ≤ length text = leb→le _ _ q in
            let cut = length-cut at (length phrase) text fits in
            rw (e, remove_from)
              (rw q (
                remove_from-IsClear lower fuel (take at text ++ drop (at + length phrase) text)
                  phrase p (omega arith)))
        | inr q ↦ rw (e, remove_from) (rw q tt)
      ]
    ]

-- Whatever ToLower does, the loop of removeFold ends within its fuel, and a text that it returns
-- does not contain the phrase, in any case.
pub remove_fold_ends :
    (lower : Bytes → Bytes) (text phrase : Bytes)
    → phrase ≢ []
    → IsClear lower phrase (remove_fold lower text phrase)
unfolding remove_fold
remove_fold_ends lower text [] h = absurd (h refl)
remove_fold_ends lower text (c ∷ phrase) h =
    remove_from-IsClear lower (suc (length text)) text (c ∷ phrase) (omega arith) (omega arith)

starts_with-length :
    (needle text : Bytes) → starts_with needle text ≡ true → length needle ≤ length text
unfolding starts_with
starts_with-length [] text h = omega arith
starts_with-length (x ∷ xs) [] h = absurd (cc h)
starts_with-length (x ∷ xs) (y ∷ ys) h = ground (arith, starts_with-length xs ys)

index-in_range :
    (text needle : Bytes) {at : ℕ} → index text needle ≡ some at → at + length needle ≤ length text
unfolding index
index-in_range [] needle h = ground (arith, starts_with-length needle [])
index-in_range (c ∷ cs) needle {at} h = elim (Bool-cases (starts_with needle (c ∷ cs))) [
  | inl e ↦ ground (arith, starts_with-length needle (c ∷ cs))
  | inr e ↦ elim (Option-cases (index cs needle)) [
    | inl n ↦ absurd (ground arith)
    | inr (i, n) ↦ ground (arith, index-in_range cs needle n)
  ]
]

-- What ToLower does to ASCII texts: it keeps their length.
abbrev pub KeepsLength : (Bytes → Bytes) → Type 0
KeepsLength lower = (text : Bytes) → length (lower text) ≡ length text

remove_from-safe :
    (lower : Bytes → Bytes) (fuel : ℕ) (text phrase : Bytes)
    → KeepsLength lower
    → remove_from lower fuel text phrase ≢ panicked
unfolding remove_from
remove_from-safe lower zero text phrase k = λ q. cc q
remove_from-safe lower (suc fuel) text phrase k =
    elim (Option-cases (index (lower text) (lower phrase))) [
      | inl e ↦ rw (e, remove_from) (λ q. cc q)
      | inr (at, e) ↦ elim (Bool-cases (leb (at + length phrase) (length text))) [
        | inl q ↦
            rw (e, remove_from)
              (rw q (
                remove_from-safe lower fuel (take at text ++ drop (at + length phrase) text) phrase
                  k))
        | inr q ↦
            let found = index-in_range (lower text) (lower phrase) e in
            let size = k text in let phrase_size = k phrase in absurd (ground arith)
      ]
    ]

kept_of :
    (lower : Bytes → Bytes) (phrase : Bytes) (c : Cut)
    → IsClear lower phrase c
    → c ≢ panicked
    → (t : Bytes) × (c ≡ kept t)
kept_of lower phrase (kept t) h k = (t, refl)
kept_of lower phrase panicked h k = absurd (k refl)
kept_of lower phrase out_of_fuel h k = absurd h

remove_fold_keeps :
    (lower : Bytes → Bytes) (text phrase : Bytes)
    → KeepsLength lower
    → (t : Bytes) × (remove_fold lower text phrase ≡ kept t)
unfolding remove_fold
remove_fold_keeps lower text [] k = (text, refl)
remove_fold_keeps lower text (c ∷ phrase) k =
    kept_of lower (c ∷ phrase) _ (remove_fold_ends lower text (c ∷ phrase) (λ q. cc q))
      (remove_from-safe lower (suc (length text)) text (c ∷ phrase) k)

-- strip before its tidying: where ToLower keeps lengths it cuts every phrase without a panic, and
-- within its fuel.
pub strip_each_ends :
    (bytes : String → Bytes) (lower : Bytes → Bytes) (trim : String → String)
    (phrases : List String) (text : Bytes)
    → KeepsLength lower
    → (rest : Bytes) × (strip_each bytes lower trim text phrases ≡ kept rest)
unfolding strip_each
strip_each_ends bytes lower trim [] text k = (text, refl)
strip_each_ends bytes lower trim (p ∷ ps) text k =
    let (text', e) = remove_fold_keeps lower text (bytes (trim p)) k in
    let (rest, e') = strip_each_ends bytes lower trim ps text' k in (rest, rw (e, strip_each) e')
