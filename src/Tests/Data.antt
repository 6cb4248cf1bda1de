-- ===== src/Tests/Data.antt =====
-- A brand with two sources, its mentions, and an environment that counts the calls made on it.
use brand_pulse.Prelude.{
  ℕ, suc, ◌*◌, ◌+◌, String, [], ◌∷◌, none, some, pos, negsuc, Thousandths, thousandths, true, false,
  str_eq, if◌then◌else◌,
}
use brand_pulse.Models.Labels.{Source, Time, hour}
use brand_pulse.Models.Brand.{BrandProfile, new_brand_profile}
use brand_pulse.Models.Mention.{Mention, Enrichment, EnrichedMention}
use brand_pulse.Models.Alert.{Alert, new_alert_record}
use brand_pulse.Models.Topic.{ShareOfVoice}
use brand_pulse.Models.Run.{RunRecord, new_run_record}
use brand_pulse.Models.Wire.{CollectInput, MentionBatch}
use brand_pulse.Orchestrator.Env.{Reply, ok, err, Env, Schedule, Window, RunInput}

abbrev pub noon : Time
noon = 739878 * 24 * hour + 12 * hour

abbrev pub profile : BrandProfile
profile = record (new_brand_profile "boat" "boAt") { sources = "x" ∷ "reddit" ∷ "x" ∷ [] }

abbrev pub post : String → String → Source → Time → Mention Thousandths
post id hash source at = record {
  id = id;
  brand_id = "boat";
  source = source;
  external_id = id;
  url = "";
  author = "a";
  author_followers = 60000;
  text = "broken";
  lang = "en";
  posted_at = at;
  engagement = record { likes = 1; replies = 2; shares = 3; views = 100 };
  rating = some 1000;
  matched_keyword = "boat";
  content_hash = hash;
  raw = "{}";
}

abbrev pub reading : String → Enrichment Thousandths
reading id = record {
  mention_id = id;
  sentiment = 0;
  sentiment_label = "negative";
  emotion = "anger";
  intent = "complaint";
  aspects = [];
  is_about_brand = true;
  about_competitor = "";
  model = "m";
  cost_paise = 10;
}

abbrev pub enriched_post : String → Source → Time → EnrichedMention Thousandths
enriched_post id source at = record { mention = post id id source at; enrichment = reading id }

abbrev pub crisis_alert : Alert Thousandths
crisis_alert = record (new_alert_record "alr_1" "boat" "crisis" "critical" "crisis:x:h" noon) {
  sample_mentions = post "m1" "h1" "x" noon ∷ [];
}

-- x answers one mention, every other source is down
abbrev pub answer : CollectInput → Reply (MentionBatch Thousandths)
answer input =
    if str_eq input.source "x"
    then ok (record {
      mentions = post "m1" "h1" "x" noon ∷ [];
      credits_used = 3;
      cache_hits = 0;
      source = "x";
      truncated = false;
      errors = [];
    })
    else err "connection refused"

abbrev pub no_voice : ShareOfVoice Thousandths
no_voice = record {
  brand_id = "boat";
  window_start = noon;
  window_end = noon;
  brand_share = 0;
  competitor_shares = [];
  by_source = [];
  total_mentions = 0;
}

abbrev pub stored_run : RunRecord Thousandths
stored_run = new_run_record "run_0" "boat" "on_demand" "2026-09-20T12" noon

abbrev pub env : Env Thousandths ℕ
env = record {
  now = λ n. (noon, suc n);
  new_id = λ prefix n. ("run_1", suc n);
  load_profile = λ id n. (ok profile, suc n);
  credit_budget = λ id n. ((pos 100, none), suc n);
  source_yield = λ id day n. (ok (("reddit", 2000) ∷ []), suc n);
  claim_run = λ run n. (ok (stored_run, false), suc n);
  finish_run = λ run n. (none, suc n);
  record_source_yield = λ id day runs n. (none, suc n);
  count_mentions = λ id a b n. ((4, none), suc n);
  enriched_in_window = λ id a b n. (err "timeout", suc n);
  prior_window_counts = λ id a b n. (ok [], suc n);
  save_mentions = λ ms n. (none, suc n);
  save_enrichments = λ es n. (none, suc n);
  save_topics = λ ts n. (none, suc n);
  save_alerts = λ alerts n. (ok alerts, suc n);
  save_drafts = λ ds n. (none, suc n);
  save_brief = λ id brief n. (none, suc n);
  baseline = λ id days at n. (err "no rows", suc n);
  call_collector = λ input n. (answer input, suc n);
  call_enricher = λ input n. (
    ok (record {
      enrichments = reading "m1" ∷ [];
      tokens_used = 7;
      cost_paise = 10;
      cache_hits = 0;
      errors = [];
    }),
    suc n,
  );
  call_clusterer = λ input n. (err "down", suc n);
  call_sov = λ input n. (ok no_voice, suc n);
  call_detector = λ input n. (err "down", suc n);
  call_responder = λ input n. (err "the model returned an empty draft", suc n);
  call_briefer = λ input n. (err "down", suc n);
}

abbrev pub schedule : Schedule Thousandths
schedule = record { collectors = λ s. s; responders = λ alerts. alerts }

abbrev pub window : Window
window = record { start = noon; end = noon + 24 * hour }

abbrev pub on_demand : RunInput
on_demand = record {
  brand_id = "boat";
  trigger = "on_demand";
  window_hours = negsuc 0;
  force = false;
}

abbrev pub forced : RunInput
forced = record on_demand { force = true }
