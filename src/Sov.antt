-- ===== src/Sov.antt =====
-- agents/bp-sov/handler.go: the share of voice of a brand and its competitors. `lower` and `trim`
-- are strings.ToLower and strings.TrimSpace.
pub mod Shares
use brand_pulse.Prelude.{
  ℕ, suc, ◌+◌, Bool, true, false, not, String, List, [], ◌∷◌, map, Option, none, some, Dict, lookup,
  lookup_or, insert_key, remove_key, Float, is_empty, ◌==◌, if◌then◌else◌,
}
use brand_pulse.Models.Labels.{Source}
use brand_pulse.Models.Brand.{BrandProfile}
use brand_pulse.Models.Mention.{Enrichment, EnrichedMention}
use brand_pulse.Models.Topic.{ShareOfVoice}
use brand_pulse.Orchestrator.Env.{SovInput}
use brand_pulse.Orchestrator.Analysis.Enriched.{new_share_of_voice}

pub record Tally : Type 0 where
  pub counts : Dict ℕ
  pub total : ℕ

unfoldable pub new_tally : Tally
new_tally = record { counts = []; total = 0 }

-- tally.add
unfoldable pub add_name : String → Tally → Tally
unfolding lookup_or
add_name name t = record {
  counts = insert_key name (suc (lookup_or 0 name t.counts)) t.counts;
  total = suc t.total;
}

module _ {R : Type 0} ⦃f : Float R⦄ where
  -- one entry of tally.shares
  unfoldable pub share_of : ℕ → ℕ → R
  share_of count total = f.div (f.mul (f.of_ℕ 100) (f.of_ℕ count)) (f.of_ℕ total)

  -- the loop of tally.shares
  unfoldable pub share_each : ℕ → Dict ℕ → Dict R
  unfolding share_of
  share_each total [] = []
  share_each total ((name, count) ∷ rest) = (name, share_of count total) ∷ share_each total rest

  -- tally.shares
  unfoldable pub shares : Tally → Dict R
  unfolding share_each
  shares t = if t.total == 0 then [] else share_each t.total t.counts

module _ (lower trim : String → String) where
  unfoldable fold_name : String → String
  fold_name name = lower (trim name)

  -- canonicalCompetitors
  unfoldable canonical_from : List String → Dict String → Dict String
  unfolding fold_name
  canonical_from [] m = m
  canonical_from (name ∷ rest) m =
      canonical_from rest
        (if is_empty (trim name) then m else insert_key (fold_name (trim name)) (trim name) m)

  unfoldable pub canonical_competitors : List String → Dict String
  unfolding canonical_from
  canonical_competitors names = canonical_from names []

  -- attribute
  unfoldable pub attribute : {R : Type 0} → Enrichment R → String → Dict String → Option String
  unfolding fold_name
  attribute e brand_name competitors =
      if not (is_empty e.about_competitor)
      then lookup (fold_name e.about_competitor) competitors
      else if e.is_about_brand
      then some brand_name
      else none

  -- the turn of Handle's loop for a mention that counts for `name`
  unfoldable pub count_for : Source → String → Tally × Dict Tally → Tally × Dict Tally
  unfolding add_name new_tally lookup_or
  count_for source name (overall, per_source) = (
    add_name name overall,
    insert_key source (add_name name (lookup_or new_tally source per_source)) per_source,
  )

  -- Handle's loop
  unfoldable pub count_each :
      {R : Type 0}
      → String
      → Dict String
      → List (EnrichedMention R)
      → Tally × Dict Tally
      → Tally × Dict Tally
  unfolding count_for attribute
  count_each brand_name competitors [] t = t
  count_each brand_name competitors (em ∷ rest) t =
      let next = λ (t' : Tally × Dict Tally). count_each brand_name competitors rest t' in
      elim (attribute em.enrichment brand_name competitors) [
        | none ↦ next t
        | some name ↦ next (count_for em.mention.source name t)
      ]

  unfoldable shares_by_source : {R : Type 0} ⦃f : Float R⦄ → Dict Tally → Dict (Dict R)
  unfolding shares
  shares_by_source [] = []
  shares_by_source ((source, t) ∷ rest) = (source, shares t) ∷ shares_by_source rest

  -- Handle
  unfoldable pub handle : {R : Type 0} ⦃f : Float R⦄ → SovInput R → ShareOfVoice R
  unfolding canonical_competitors count_each shares shares_by_source new_share_of_voice
  handle ⦃f⦄ input =
      let name = input.profile.name in
      let counted =
        count_each name (canonical_competitors input.profile.competitors) input.enriched
          (new_tally, []) in
      let all = shares counted.0 in
      record (new_share_of_voice input.profile.brand_id input.window_start input.window_end) {
        total_mentions = counted.0.total;
        brand_share = lookup_or (f.of_ℕ 0) name all;
        competitor_shares = remove_key name all;
        by_source = shares_by_source counted.1;
      }
