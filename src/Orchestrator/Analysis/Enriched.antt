-- ===== src/Orchestrator/Analysis/Enriched.antt =====
-- agents/bp-orchestrator/pipeline.go, enrich, respond and briefNumbers: what they compute from the
-- enriched mentions without a call.
use brand_pulse.Prelude.{
  ℕ, suc, Bool, true, ◌&&◌, ◌||◌, String, List, [], ◌∷◌, length, none, some, Dict, lookup,
  insert_key, Float, ltb, str_eq, contains, if◌then◌else◌,
}
use brand_pulse.Models.Labels.{Time, sentiment_negative, severity_high, severity_critical}
use brand_pulse.Models.Mention.{Mention, Enrichment, EnrichedMention}
use brand_pulse.Models.Alert.{Alert}
use brand_pulse.Models.Topic.{ShareOfVoice, BriefNumbers}
use brand_pulse.Orchestrator.Collect.{is_nil}

module _ {R : Type 0} where
  -- the map from a mention's id to its enrichment: a later one replaces an earlier one
  unfoldable pub by_id : List (Enrichment R) → Dict (Enrichment R) → Dict (Enrichment R)
  by_id [] m = m
  by_id (e ∷ es) m = by_id es (insert_key e.mention_id e m)

  -- the join on the mention's id, and the ids that have no enrichment
  unfoldable pub join_enrichments :
      Dict (Enrichment R) → List (Mention R) → List (EnrichedMention R) × List String
  join_enrichments m [] = ([], [])
  join_enrichments m (x ∷ xs) =
      let (joined, missing) = join_enrichments m xs in
      elim (lookup x.id m) [
        | none ↦ (joined, x.id ∷ missing)
        | some e ↦ (record { mention = x; enrichment = e } ∷ joined, missing)
      ]

  -- onBrandMentionIDs, as a list of the ids
  unfoldable pub on_brand_ids : List (EnrichedMention R) → List String
  on_brand_ids [] = []
  on_brand_ids (e ∷ es) =
      let rest = on_brand_ids es in
      if e.enrichment.is_about_brand then e.mention.id ∷ rest else rest

  -- aboutBrandOnly
  unfoldable pub all_on_brand : List String → List (Mention R) → Bool
  all_on_brand ids [] = true
  all_on_brand ids (m ∷ ms) = contains m.id ids && all_on_brand ids ms

  -- the alerts that a human has to answer today
  unfoldable pub is_urgent : List String → Alert R → Bool
  is_urgent ids a =
      (str_eq a.severity severity_high || str_eq a.severity severity_critical)
      && all_on_brand ids a.sample_mentions

  unfoldable pub negative_count : List (EnrichedMention R) → ℕ
  negative_count [] = 0
  negative_count (e ∷ es) =
      let rest = negative_count es in
      if str_eq e.enrichment.sentiment_label sentiment_negative then suc rest else rest

module _ {R : Type 0} ⦃f : Float R⦄ where
  unfoldable pub sentiment_total : R → List (EnrichedMention R) → R
  sentiment_total acc [] = acc
  sentiment_total acc (e ∷ es) = sentiment_total (f.add acc e.enrichment.sentiment) es

  -- briefNumbers
  unfoldable pub brief_numbers : List (EnrichedMention R) → ℕ → ShareOfVoice R → BriefNumbers R
  unfolding negative_count sentiment_total
  brief_numbers enriched prior sov =
      let n = f.of_ℕ (length enriched) in
      record {
        mentions = length enriched;
        share_of_voice = sov.brand_share;
        mentions_delta_pct =
            if ltb 0 prior
            then f.mul (f.div (f.sub n (f.of_ℕ prior)) (f.of_ℕ prior)) (f.of_ℕ 100)
            else f.of_ℕ 0;
        sentiment_avg =
            if is_nil enriched then f.of_ℕ 0 else f.div (sentiment_total (f.of_ℕ 0) enriched) n;
        negative_share =
            if is_nil enriched
            then f.of_ℕ 0
            else f.mul (f.div (f.of_ℕ (negative_count enriched)) n) (f.of_ℕ 100);
      }

  unfoldable pub new_share_of_voice : String → Time → Time → ShareOfVoice R
  new_share_of_voice brand_id start end = record {
    brand_id = brand_id;
    window_start = start;
    window_end = end;
    brand_share = f.of_ℕ 0;
    competitor_shares = [];
    by_source = [];
    total_mentions = 0;
  }
