-- ===== src/Models/Wire.antt =====
-- internal/models/agentio.go: what the agents exchange.
use brand_pulse.Prelude.{ℕ, Bool, String, List, Option, Dict}
use brand_pulse.Models.Labels.{Source, Time}
use brand_pulse.Models.Brand.{BrandProfile}
use brand_pulse.Models.Mention.{Mention, Enrichment, EnrichedMention}
use brand_pulse.Models.Alert.{Alert}
use brand_pulse.Models.Topic.{Topic}

pub record CollectInput : Type 0 where
  pub profile : BrandProfile
  pub source : Source
  pub window_start : Time
  pub window_end : Time
  pub max_credits : ℕ
  pub run_id : String

pub record MentionBatch (R : Type 0) : Type 0 where
  pub mentions : List (Mention R)
  pub credits_used : ℕ
  pub cache_hits : ℕ
  pub source : Source
  pub truncated : Bool
  pub errors : List String

pub record EnrichmentBatch (R : Type 0) : Type 0 where
  pub enrichments : List (Enrichment R)
  pub tokens_used : ℕ
  pub cost_paise : R
  pub cache_hits : ℕ
  pub errors : List String

pub record TopicSet (R : Type 0) : Type 0 where
  pub topics : List (Topic R)
  pub unclustered : List String
  pub tokens_used : ℕ
  pub cost_paise : R
  pub errors : List String

pub record BaselineStats (R : Type 0) : Type 0 where
  pub per_source_hourly_mean : Dict R
  pub per_source_hourly_std : Dict R
  pub negative_share_mean : R
  pub negative_share_std : R
  pub mean_rating : Option R
  pub days : ℕ

pub record DetectInput (R : Type 0) : Type 0 where
  pub brand_id : String
  pub enriched : List (EnrichedMention R)
  pub baseline : BaselineStats R
  pub now : Time

pub record AlertSet (R : Type 0) : Type 0 where
  pub alerts : List (Alert R)
  pub rules_evaluated : ℕ
  pub errors : List String
