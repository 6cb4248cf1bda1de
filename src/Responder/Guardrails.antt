-- ===== src/Responder/Guardrails.antt =====
-- agents/bp-responder/guardrails.go. A Go string is its bytes here, since the code cuts one string
-- at an index found in another: `bytes` gives them, `lower` is strings.ToLower on them, and `trim`
-- strings.TrimSpace.
use brand_pulse.Prelude.{
  ℕ, zero, suc, ◌+◌, Bool, true, false, ◌||◌, ◌&&◌, String, List, [], ◌∷◌, ◌++◌, Option, none, some,
  length, take, drop, leb, ◌==◌, if◌then◌else◌,
}

abbrev pub Bytes : Type 0
Bytes = List ℕ

unfoldable pub same_bytes : Bytes → Bytes → Bool
same_bytes [] [] = true
same_bytes [] (_ ∷ _) = false
same_bytes (_ ∷ _) [] = false
same_bytes (x ∷ xs) (y ∷ ys) = (x == y) && same_bytes xs ys

unfoldable pub starts_with : Bytes → Bytes → Bool
starts_with [] text = true
starts_with (x ∷ xs) [] = false
starts_with (x ∷ xs) (y ∷ ys) = (x == y) && starts_with xs ys

-- strings.Index, with `none` for -1
unfoldable pub index : Bytes → Bytes → Option ℕ
unfolding starts_with
index [] needle = if starts_with needle [] then some 0 else none
index (c ∷ cs) needle =
    let rest = index cs needle in
    if starts_with needle (c ∷ cs)
    then some 0
    else elim rest [ none ↦ none | some at ↦ some (suc at) ]

-- strings.Contains
unfoldable pub occurs : Bytes → Bytes → Bool
unfolding index
occurs needle text = elim (index text needle) [ none ↦ false | some _ ↦ true ]

unfoldable pub is_seen : Bytes → List Bytes → Bool
unfolding same_bytes
is_seen needle [] = false
is_seen needle (s ∷ seen) = same_bytes s needle || is_seen needle seen

-- A cut past the end of a text panics.
pub data Cut : Type 0 where
  kept : Bytes → Cut
  panicked out_of_fuel : Cut

module _ (bytes : String → Bytes) (lower : Bytes → Bytes) (trim : String → String) where
  unfoldable pub needle_of : String → Bytes
  needle_of phrase = lower (bytes (trim phrase))

  -- violationsIn's loop
  unfoldable pub violations_from : Bytes → List Bytes → List String → List String
  unfolding occurs is_seen needle_of
  violations_from haystack seen [] = []
  violations_from haystack seen (phrase ∷ rest) =
      let needle = needle_of phrase in
      let skipped = violations_from haystack seen rest in
      let found = phrase ∷ violations_from haystack (needle ∷ seen) rest in
      if same_bytes needle [] || is_seen needle seen
      then skipped
      else if occurs needle haystack
      then found
      else skipped

  unfoldable pub violations_in : String → List String → List String
  unfolding violations_from
  violations_in text banned = violations_from (lower (bytes text)) [] banned

-- removeFold's loop
unfoldable pub remove_from : (Bytes → Bytes) → ℕ → Bytes → Bytes → Cut
unfolding index
remove_from lower zero text phrase = out_of_fuel
remove_from lower (suc fuel) text phrase = elim (index (lower text) (lower phrase)) [
  | none ↦ kept text
  | some at ↦ elim (leb (at + length phrase) (length text)) [
    | false ↦ panicked
    | true ↦ remove_from lower fuel (take at text ++ drop (at + length phrase) text) phrase
  ]
]

-- A text of n bytes is cut at most n times (remove_fold_ends).
unfoldable pub remove_fold : (Bytes → Bytes) → Bytes → Bytes → Cut
unfolding remove_from
remove_fold lower text [] = kept text
remove_fold lower text (c ∷ phrase) = remove_from lower (suc (length text)) text (c ∷ phrase)

-- strip, before tidy
unfoldable pub strip_each :
    (String → Bytes) → (Bytes → Bytes) → (String → String) → Bytes → List String → Cut
unfolding remove_fold
strip_each bytes lower trim text [] = kept text
strip_each bytes lower trim text (phrase ∷ rest) =
    elim (remove_fold lower text (bytes (trim phrase))) [
      | kept text' ↦ strip_each bytes lower trim text' rest
      | panicked ↦ panicked
      | out_of_fuel ↦ out_of_fuel
    ]
