-- ===== src/Clusterer/Topics.antt =====
-- agents/bp-clusterer/handler.go: the members of a cluster, and the topic that is made of them.
use brand_pulse.Prelude.{
  ℕ, suc, Bool, not, String, List, [], ◌∷◌, map, none, some, Dict, lookup, lookup_or, insert_key,
  length, take, keep, get_elem?, ltb, ◌==◌, str_lt, sort_stable, Float, Reply, ok, err, ◌^^◌, ℤ,
  pos, negsuc, if◌then◌else◌,
}
use brand_pulse.Models.Mention.{EnrichedMention, engagement_total}
use brand_pulse.Models.Topic.{Topic, new_topic, TopicError, no_topic_id, bad_trend, validate_topic}
use brand_pulse.Orchestrator.Env.{ClusterInput}
use brand_pulse.Clusterer.Label.{LabelReply}

abbrev pub default_min_cluster_size : ℕ
default_min_cluster_size = 3

abbrev pub top_examples_per_topic : ℕ
top_examples_per_topic = 3

unfoldable pub min_cluster_size : ℤ → ℕ
min_cluster_size (pos n) = if n == 0 then default_min_cluster_size else n
min_cluster_size (negsuc n) = default_min_cluster_size

module _ {R : Type 0} where
  unfoldable pub on_brand_mentions : List (EnrichedMention R) → List (EnrichedMention R)
  on_brand_mentions enriched = keep (λ m. m.enrichment.is_about_brand) enriched

  -- An index past the end, on which the code panics, is left out; the clusters have none.
  unfoldable pub members_of : List (EnrichedMention R) → List ℕ → List (EnrichedMention R)
  unfolding get_elem?
  members_of on_brand [] = []
  members_of on_brand (index ∷ group) =
      let rest = members_of on_brand group in
      elim (get_elem? on_brand index) [ none ↦ rest | some m ↦ m ∷ rest ]

  -- the order of byEngagement
  unfoldable pub ranks_above : EnrichedMention R → EnrichedMention R → Bool
  unfolding engagement_total
  ranks_above a b =
      let left = engagement_total a.mention.engagement in
      let right = engagement_total b.mention.engagement in
      if not (left == right)
      then ltb right left
      else if not (a.mention.posted_at == b.mention.posted_at)
      then ltb b.mention.posted_at a.mention.posted_at
      else str_lt a.mention.id b.mention.id

  unfoldable pub by_engagement : List (EnrichedMention R) → List (EnrichedMention R)
  unfolding ranks_above
  by_engagement members = sort_stable ranks_above members

  -- the counts of topic.SentimentMix
  unfoldable pub sentiment_mix : List (EnrichedMention R) → Dict ℕ → Dict ℕ
  unfolding lookup_or insert_key
  sentiment_mix [] counts = counts
  sentiment_mix (m ∷ ms) counts =
      let label = m.enrichment.sentiment_label in
      sentiment_mix ms (insert_key label (suc (lookup_or 0 label counts)) counts)

module _ {R : Type 0} ⦃f : Float R⦄ where
  unfoldable pub trend_against : Dict ℕ → String → ℕ → R
  trend_against prior_counts label size = elim (lookup label prior_counts) [
    | none ↦ f.decimal 10 1
    | some prior ↦ if ltb 0 prior then f.div (f.of_ℕ size) (f.of_ℕ prior) else f.decimal 10 1
  ]

  unfoldable topic_error_text : (R → String) → Topic R → TopicError R → String
  topic_error_text show t no_topic_id = "models: Topic.id and brand_id are required"
  topic_error_text show t (bad_trend trend) =
      "models: Topic \""
      ^^ t.id
      ^^ "\" has trend "
      ^^ show trend
      ^^ "; 1.0 means flat, 0 means unset"

  -- the topic of buildTopic, before Validate
  unfoldable pub assemble :
      String → ClusterInput R → LabelReply → (members ranked : List (EnrichedMention R)) → Topic R
  unfolding new_topic trend_against sentiment_mix
  assemble id input reply members ranked = record (new_topic id input.brand_id) {
    window_start = input.window_start;
    window_end = input.window_end;
    label = reply.label;
    summary = reply.summary;
    size = length members;
    trend = trend_against input.prior_window_counts reply.label (length members);
    mention_ids = map (λ m. m.mention.id) members;
    sentiment_mix = sentiment_mix members [];
    top_examples = map (λ m. m.mention) (take top_examples_per_topic ranked);
  }

  unfoldable pub build_topic :
      (R → String)
      → String
      → ClusterInput R
      → LabelReply
      → (members ranked : List (EnrichedMention R)) → Reply (Topic R)
  unfolding assemble validate_topic topic_error_text
  build_topic show id input reply members ranked =
      let topic = assemble id input reply members ranked in
      elim (validate_topic topic) [
        | none ↦ ok topic
        | some e ↦ err ("topic \"" ^^ reply.label ^^ "\": " ^^ topic_error_text show topic e)
      ]
