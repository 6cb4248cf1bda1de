-- ===== src/Models/Topic.antt =====
-- internal/models/models.go: topics, share of voice and the brief.
use brand_pulse.Prelude.{
  ℕ, ◌||◌, String, List, [], Dict, Option, none, some, Float, is_empty, ltb, length, if◌then◌else◌,
}
use brand_pulse.Models.Labels.{Time}
use brand_pulse.Models.Mention.{Mention}
use brand_pulse.Models.Alert.{Alert}

pub record Topic (R : Type 0) : Type 0 where
  pub id : String
  pub brand_id : String
  pub window_start : Time
  pub window_end : Time
  pub label : String
  pub summary : String
  pub size : ℕ
  pub sentiment_mix : Dict ℕ
  pub top_examples : List (Mention R)
  pub trend : R
  pub mention_ids : List String

unfoldable pub new_topic : {R : Type 0} ⦃f : Float R⦄ → String → String → Topic R
new_topic ⦃f⦄ id brand_id = record {
  id = id;
  brand_id = brand_id;
  window_start = 0;
  window_end = 0;
  label = "";
  summary = "";
  size = 0;
  sentiment_mix = [];
  top_examples = [];
  trend = f.decimal 10 1;
  mention_ids = [];
}

pub data TopicError (R : Type 0) : Type 0 where
  no_topic_id : TopicError R
  bad_trend : R → TopicError R

unfoldable pub validate_topic : {R : Type 0} ⦃f : Float R⦄ → Topic R → Option (TopicError R)
validate_topic ⦃f⦄ t =
    if is_empty t.id || is_empty t.brand_id
    then some no_topic_id
    else if f.lt t.trend (f.of_ℕ 0) || f.eq t.trend (f.of_ℕ 0)
    then some (bad_trend t.trend)
    else none

pub record ShareOfVoice (R : Type 0) : Type 0 where
  pub brand_id : String
  pub window_start : Time
  pub window_end : Time
  pub brand_share : R
  pub competitor_shares : Dict R
  pub by_source : Dict (Dict R)
  pub total_mentions : ℕ

pub record BriefNumbers (R : Type 0) : Type 0 where
  pub mentions : ℕ
  pub mentions_delta_pct : R
  pub sentiment_avg : R
  pub negative_share : R
  pub share_of_voice : R

pub record DailyBrief (R : Type 0) : Type 0 where
  pub brand_id : String
  pub period_start : Time
  pub period_end : Time
  pub headline : String
  pub numbers : BriefNumbers R
  pub top_topics : List (Topic R)
  pub alerts : List (Alert R)
  pub competitor_watch : List String
  pub suggested_actions : List String
  pub markdown : String
  pub whatsapp_short : String

abbrev pub whatsapp_short_limit : ℕ
whatsapp_short_limit = 600

unfoldable pub new_daily_brief : {R : Type 0} → BriefNumbers R → String → Time → Time → DailyBrief R
new_daily_brief no_numbers brand_id period_start period_end = record {
  brand_id = brand_id;
  period_start = period_start;
  period_end = period_end;
  headline = "";
  numbers = no_numbers;
  top_topics = [];
  alerts = [];
  competitor_watch = [];
  suggested_actions = [];
  markdown = "";
  whatsapp_short = "";
}

pub data BriefError : Type 0 where
  no_brand_id : BriefError
  too_long : ℕ → BriefError

-- DailyBrief.Validate. `bytes` gives the bytes of a text, which `len` counts.
unfoldable pub validate_brief : {R : Type 0} → (String → List ℕ) → DailyBrief R → Option BriefError
validate_brief bytes b =
    if is_empty b.brand_id
    then some no_brand_id
    else if ltb whatsapp_short_limit (length (bytes b.whatsapp_short))
    then some (too_long (length (bytes b.whatsapp_short)))
    else none
