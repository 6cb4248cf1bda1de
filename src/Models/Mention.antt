-- ===== src/Models/Mention.antt =====
-- internal/models/models.go: mentions, their enrichment, and what makes either valid.
use brand_pulse.Prelude.{
  ℕ, ◌+◌, Bool, ◌||◌, not, String, List, Option, none, some, ◌==◌, is_empty, Float, if◌then◌else◌,
}
use brand_pulse.Models.Labels.{Source, source_valid, SentimentLabel, Time}

pub record Engagement : Type 0 where
  pub likes : ℕ
  pub replies : ℕ
  pub shares : ℕ
  pub views : ℕ

-- Engagement.Total leaves the views out
unfoldable pub engagement_total : Engagement → ℕ
engagement_total e = e.likes + e.replies + e.shares

-- `raw` is the JSON text of the raw payload
pub record Mention (R : Type 0) : Type 0 where
  pub id : String
  pub brand_id : String
  pub source : Source
  pub external_id : String
  pub url : String
  pub author : String
  pub author_followers : ℕ
  pub text : String
  pub lang : String
  pub posted_at : Time
  pub engagement : Engagement
  pub rating : Option R
  pub matched_keyword : String
  pub content_hash : String
  pub raw : String

pub data MentionError : Type 0 where
  no_id no_source no_hash no_posted_at no_lang : MentionError

unfoldable pub validate_mention : {R : Type 0} → Mention R → Option MentionError
unfolding source_valid
validate_mention m =
    if is_empty m.id || is_empty m.brand_id
    then some no_id
    else if not (source_valid m.source)
    then some no_source
    else if is_empty m.content_hash
    then some no_hash
    else if m.posted_at == 0
    then some no_posted_at
    else if is_empty m.lang
    then some no_lang
    else none

pub record Enrichment (R : Type 0) : Type 0 where
  pub mention_id : String
  pub sentiment : R
  pub sentiment_label : SentimentLabel
  pub emotion : String
  pub intent : String
  pub aspects : List String
  pub is_about_brand : Bool
  pub about_competitor : String
  pub model : String
  pub cost_paise : R

pub data EnrichmentError (R : Type 0) : Type 0 where
  no_mention_id : EnrichmentError R
  sentiment_out_of_range : R → EnrichmentError R

unfoldable pub validate_enrichment :
    {R : Type 0} ⦃f : Float R⦄ → Enrichment R → Option (EnrichmentError R)
validate_enrichment ⦃f⦄ e =
    if is_empty e.mention_id
    then some no_mention_id
    else if f.lt e.sentiment (f.sub (f.of_ℕ 0) (f.decimal 10 1))
        || f.lt (f.decimal 10 1) e.sentiment
    then some (sentiment_out_of_range e.sentiment)
    else none

pub record EnrichedMention (R : Type 0) : Type 0 where
  pub mention : Mention R
  pub enrichment : Enrichment R
