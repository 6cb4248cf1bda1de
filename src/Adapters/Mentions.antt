-- ===== src/Adapters/Mentions.antt =====
-- internal/anakin/sources/mentions/mentions.go: the close of every adapter. `compile` is
-- regexp.MustCompile with MatchString, `quote` regexp.QuoteMeta, `trim` strings.TrimSpace and `hash`
-- hashing.ContentHash.
use brand_pulse.Prelude.{
  ℕ, suc, ◌+◌, Bool, false, not, ◌&&◌, ◌||◌, String, List, [], ◌∷◌, Option, none, some, ltb, leb,
  ◌==◌, length, codes, is_empty, join, ◌^^◌, if◌then◌else◌,
}
use brand_pulse.Models.Labels.{Source, Time}
use brand_pulse.Models.Brand.{BrandProfile}
use brand_pulse.Models.Mention.{
  Mention, MentionError, no_id, no_source, no_hash, no_posted_at, no_lang, validate_mention,
}

pub record Dropped : Type 0 where
  pub outside_window : ℕ
  pub negative_keyword : ℕ
  pub invalid : List String

-- Dropped.Total
unfoldable pub total : Dropped → ℕ
total d = d.outside_window + d.negative_keyword + length d.invalid

-- Any byte of a rune past ASCII is no word byte, as its code is not.
unfoldable pub is_word_byte : ℕ → Bool
is_word_byte b =
    b == 95 || (leb 97 b && leb b 122) || (leb 65 b && leb b 90) || (leb 48 b && leb b 57)

unfoldable first_is_word : List ℕ → Bool
unfolding is_word_byte
first_is_word [] = false
first_is_word (b ∷ bs) = is_word_byte b

unfoldable last_is_word : List ℕ → Bool
unfolding is_word_byte
last_is_word [] = false
last_is_word (b ∷ []) = is_word_byte b
last_is_word (b ∷ c ∷ bs) = last_is_word (c ∷ bs)

-- The tools of the close. `new_id` is ids.New.
pub record Closing (W : Type 0) : Type 0 where
  pub compile : String → String → Bool
  pub quote : String → String
  pub trim : String → String
  pub hash : String → Source → String
  pub new_id : W → String × W

module _ {W : Type 0} (c : Closing W) where
  -- one alternative of the pattern
  unfoldable pub anchored : String → String
  unfolding first_is_word last_is_word codes
  anchored term =
      (if first_is_word (codes term) then "\\b" else "")
      ^^ c.quote term
      ^^ (if last_is_word (codes term) then "\\b" else "")

  unfoldable pub pattern_parts : List String → List String
  unfolding anchored
  pattern_parts [] = []
  pattern_parts (term ∷ terms) =
      let rest = pattern_parts terms in
      if is_empty (c.trim term) then rest else anchored (c.trim term) ∷ rest

  -- negativePattern, with `none` for nil
  unfoldable pub negative_pattern : List String → Option (String → Bool)
  unfolding pattern_parts join
  negative_pattern terms = elim (pattern_parts terms) [
    | [] ↦ none
    | p ∷ ps ↦ some (c.compile ("(?i)" ^^ join "|" (p ∷ ps)))
  ]

unfoldable pub is_matched : Option (String → Bool) → String → Bool
is_matched none text = false
is_matched (some matches) text = matches text

module _ {R : Type 0} where
  -- PostedAt is before the start, or not before the end
  unfoldable pub is_outside : Time → Time → Mention R → Bool
  is_outside start end d = ltb d.posted_at start || not (ltb d.posted_at end)

  -- the loop of Filter
  unfoldable pub filter_each :
      Option (String → Bool) → Time → Time → List (Mention R) → List (Mention R) × Dropped
  unfolding is_matched is_outside
  filter_each negative start end [] =
      ([], record { outside_window = 0; negative_keyword = 0; invalid = [] })
  filter_each negative start end (d ∷ ds) =
      let (kept, dropped) = filter_each negative start end ds in
      if is_outside start end d
      then (kept, record dropped { outside_window = suc dropped.outside_window })
      else if is_matched negative d.text
      then (kept, record dropped { negative_keyword = suc dropped.negative_keyword })
      else (d ∷ kept, dropped)

unfoldable error_text : {R : Type 0} → Mention R → MentionError → String
error_text m no_id = "models: Mention.id and brand_id are required"
error_text m no_source = "models: Mention.source \"" ^^ m.source ^^ "\" is not a known source"
error_text m no_hash = "models: Mention.content_hash is required, it is the dedupe key"
error_text m no_posted_at = "models: Mention.posted_at is required, baselines are built from it"
error_text m no_lang =
    "models: Mention \"" ^^ m.id ^^ "\" has no lang; set it explicitly, there is no default"

module _ {R W : Type 0} (c : Closing W) where
  -- Filter
  unfoldable pub filter : List (Mention R) → BrandProfile → Time → Time → List (Mention R) × Dropped
  unfolding negative_pattern filter_each
  filter drafts p start end = filter_each (negative_pattern c p.negative_keywords) start end drafts

  -- the identity that Stamp gives
  unfoldable pub stamped : String → String → Mention R → Mention R
  stamped brand_id id m = record m {
    brand_id = brand_id;
    id = id;
    content_hash = c.hash m.text m.source;
  }

  -- Stamp
  unfoldable pub stamp : List (Mention R) → String → W → (List (Mention R) × List String) × W
  unfolding stamped validate_mention error_text
  stamp [] brand_id w = (([], []), w)
  stamp (m ∷ ms) brand_id w =
      let (id, w') = c.new_id w in
      let m' = stamped brand_id id m in
      let ((out, invalid), w'') = stamp ms brand_id w' in
      elim (validate_mention m') [
        | none ↦ ((m' ∷ out, invalid), w'')
        | some e ↦
            ((out, (m.source ^^ " " ^^ m.external_id ^^ ": " ^^ error_text m' e) ∷ invalid), w'')
      ]

  -- Finalize
  unfoldable pub finalize :
      List (Mention R) → BrandProfile → Time → Time → W → (List (Mention R) × Dropped) × W
  unfolding filter stamp
  finalize drafts p start end w =
      let (kept, dropped) = filter drafts p start end in
      let ((out, invalid), w') = stamp kept p.brand_id w in
      ((out, record dropped { invalid = invalid }), w')
