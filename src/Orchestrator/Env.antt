-- ===== src/Orchestrator/Env.antt =====
-- agents/bp-orchestrator/pipeline.go: what the pipeline asks of others. The Store interface, the
-- peer agents behind a2a.Call, the baseline query, the clock and the id generator are operations
-- on a world of which nothing is known. An error is its text.
pub use brand_pulse.Prelude.{Reply, ok, err}
use brand_pulse.Prelude.{ℕ, String, List, Option, Bool, Dict, ℤ}
use brand_pulse.Models.Labels.{Source, RunKind, Time}
use brand_pulse.Models.Brand.{BrandProfile}
use brand_pulse.Models.Mention.{Mention, Enrichment, EnrichedMention}
use brand_pulse.Models.Alert.{Alert, ReplyDraft}
use brand_pulse.Models.Topic.{Topic, ShareOfVoice, BriefNumbers, DailyBrief}
use brand_pulse.Models.Run.{RunRecord}
use brand_pulse.Models.Wire.{
  CollectInput, MentionBatch, EnrichmentBatch, TopicSet, BaselineStats, DetectInput, AlertSet,
}

-- sourceRun
pub record SourceRun : Type 0 where
  pub source : Source
  pub mentions : ℕ
  pub credits : ℕ

pub record EnrichInput (R : Type 0) : Type 0 where
  pub mentions : List (Mention R)
  pub profile : BrandProfile
  pub batch_size : ℤ

pub record ClusterInput (R : Type 0) : Type 0 where
  pub enriched : List (EnrichedMention R)
  pub brand_id : String
  pub window_start : Time
  pub window_end : Time
  pub prior_window_counts : Dict ℕ
  pub min_cluster_size : ℤ

pub record SovInput (R : Type 0) : Type 0 where
  pub enriched : List (EnrichedMention R)
  pub profile : BrandProfile
  pub window_start : Time
  pub window_end : Time

pub record RespondInput (R : Type 0) : Type 0 where
  pub alert : Option (Alert R)
  pub mention : Option (Mention R)
  pub profile : BrandProfile
  pub channel : String

pub record BriefInput (R : Type 0) : Type 0 where
  pub brand_id : String
  pub profile : BrandProfile
  pub period : String
  pub period_start : Time
  pub period_end : Time
  pub topics : List (Topic R)
  pub alerts : List (Alert R)
  pub sov : ShareOfVoice R
  pub numbers : BriefNumbers R

pub record RunInput : Type 0 where
  pub brand_id : String
  pub trigger : RunKind
  pub window_hours : ℤ
  pub force : Bool

-- An operation that may only fail gives `none`, or its error. A Go pair of a value and an error
-- whose value is used either way is a pair.
pub record Env (R W : Type 0) : Type 0 where
  pub now : W → Time × W
  pub new_id : String → W → String × W
  pub load_profile : String → W → Reply BrandProfile × W
  pub credit_budget : String → W → (ℤ × Option String) × W
  pub source_yield : String → Time → W → Reply (Dict R) × W
  pub claim_run : RunRecord R → W → Reply (RunRecord R × Bool) × W
  pub finish_run : RunRecord R → W → Option String × W
  pub record_source_yield : String → Time → List SourceRun → W → Option String × W
  pub count_mentions : String → Time → Time → W → (ℕ × Option String) × W
  pub enriched_in_window : String → Time → Time → W → Reply (List (EnrichedMention R)) × W
  pub prior_window_counts : String → Time → Time → W → Reply (Dict ℕ) × W
  pub save_mentions : List (Mention R) → W → Option String × W
  pub save_enrichments : List (Enrichment R) → W → Option String × W
  pub save_topics : List (Topic R) → W → Option String × W
  pub save_alerts : List (Alert R) → W → Reply (List (Alert R)) × W
  pub save_drafts : List ReplyDraft → W → Option String × W
  pub save_brief : String → DailyBrief R → W → Option String × W
  pub baseline : String → ℕ → Time → W → Reply (BaselineStats R) × W
  pub call_collector : CollectInput → W → Reply (MentionBatch R) × W
  pub call_enricher : EnrichInput R → W → Reply (EnrichmentBatch R) × W
  pub call_clusterer : ClusterInput R → W → Reply (TopicSet R) × W
  pub call_sov : SovInput R → W → Reply (ShareOfVoice R) × W
  pub call_detector : DetectInput R → W → Reply (AlertSet R) × W
  pub call_responder : RespondInput R → W → Reply ReplyDraft × W
  pub call_briefer : BriefInput R → W → Reply (DailyBrief R) × W

-- The order in which the goroutines of a fan-out take the lock.
pub record Schedule (R : Type 0) : Type 0 where
  pub collectors : List Source → List Source
  pub responders : List (Alert R) → List (Alert R)

-- window
pub record Window : Type 0 where
  pub start : Time
  pub end : Time

-- The world, with the run's log and what it spent.
pub record Progress (R W : Type 0) : Type 0 where
  pub world : W
  pub log : List String
  pub credits : ℕ
  pub tokens : ℕ
  pub paise : R
