-- ===== src/Tests/Agents.antt =====
-- The collector and the detector at concrete inputs.
use mathlib.Core.List.{Permᴰ}
use brand_pulse.Prelude.{
  append-ne-empty, ℕ, ◌≡◌, refl, true, false, String, List, [], ◌∷◌, none, some, Memᴰ, All,
  concat_map, keep, contains, HasUniqueKeys, HasKey, thousandths, Thousandths, itoa, ◌^^◌,
  sort_stable, str_lt,
}
use brand_pulse.Models.Labels.{alert_spike, alert_crisis}
use brand_pulse.Models.Mention.{Mention, EnrichedMention}
use brand_pulse.Models.Alert.{Alert}
use brand_pulse.Models.Wire.{CollectInput, DetectInput}
use brand_pulse.Collector.{Deps, hash_of, dedupe, unstored}
use brand_pulse.Collector.Dedupe.{unstored-dedupe}
use brand_pulse.Detector.{run_rule, rule_spike, rule_crisis, evaluate, dedupe_key}
use brand_pulse.Stats.Buckets.{hour_bucket, truncate_hour}
use brand_pulse.Detector.Rules.Volume.{judge_crisis}
use brand_pulse.Detector.Groups.{
  group_key, group_before, Group, group_by_source_hour, every_mention,
}
use brand_pulse.Detector.Grouping.{group_by_source_hour_partition, IsOfOneHour}
use brand_pulse.Detector.Soundness.{evaluate_refuses_nothing}
use brand_pulse.Detector.Firing.{crisis_is_spike}
use brand_pulse.Tests.Data.{noon, profile, post, enriched_post}

abbrev fetched : List (Mention Thousandths)
fetched = post "m1" "h1" "x" noon ∷ post "m2" "h1" "x" noon ∷ post "m3" "h2" "x" noon ∷ []

abbrev deps : Deps Thousandths ℕ
deps = record {
  has_adapter = λ source. true;
  new_client = λ input w. (none, w);
  fetch =
      λ input w. ((fetched, some (record { is_budget_exceeded = true; message = "budget" })), w);
  seen_hashes = λ brand hashes w. (("h2" ∷ [], none), w);
  stats = λ w. record { credits_used = 3; cache_hits = 0 };
}

abbrev input : CollectInput
input = record {
  profile = profile;
  source = "x";
  window_start = noon;
  window_end = noon;
  max_credits = 10;
  run_id = "run_1";
}

unstored-dedupe_example :
    HasUniqueKeys hash_of (unstored ("h2" ∷ []) (dedupe fetched))
    × ((m : Mention Thousandths)
        → Memᴰ m (unstored ("h2" ∷ []) (dedupe fetched))
        → Memᴰ m fetched × (contains m.content_hash ("h2" ∷ []) ≡ false))
    × ((m : Mention Thousandths)
        → Memᴰ m fetched
        → contains m.content_hash ("h2" ∷ []) ≡ false
        → HasKey hash_of m.content_hash (unstored ("h2" ∷ []) (dedupe fetched)))
unstored-dedupe_example = unstored-dedupe ("h2" ∷ []) fetched

abbrev enriched : List (EnrichedMention Thousandths)
enriched =
    enriched_post "m1" "x" noon
    ∷ enriched_post "m2" "reddit" noon
    ∷ enriched_post "m3" "x" noon
    ∷ enriched_post "m4" "x" noon
    ∷ enriched_post "m5" "x" noon
    ∷ []

abbrev detect_input : DetectInput Thousandths
detect_input = record {
  brand_id = "boat";
  enriched = enriched;
  baseline = record {
    per_source_hourly_mean = ("x", 1000) ∷ [];
    per_source_hourly_std = ("x", 1000) ∷ [];
    negative_share_mean = 100;
    negative_share_std = 100;
    mean_rating = none;
    days = 14;
  };
  now = noon;
}

abbrev fixed : ℕ → Thousandths → String
fixed places value = itoa value

abbrev new_id : String → ℕ → String × ℕ
new_id prefix n = (prefix ^^ "_1", n)

group_by_source_hour_partition_example :
    let groups = group_by_source_hour every_mention enriched in
    Permᴰ (concat_map (λ g. g.mentions) groups) (keep every_mention enriched)
    × All IsOfOneHour groups
group_by_source_hour_partition_example = group_by_source_hour_partition every_mention enriched

crisis_fires :
    (a : Alert Thousandths) × Memᴰ a (run_rule new_id detect_input (rule_crisis fixed) 0).0
unfolding run_rule sort_stable group_key hour_bucket truncate_hour itoa group_before str_lt
    judge_crisis
crisis_fires = (_, Memᴰ.head refl)

crisis_is_spike_example :
    (g : Group Thousandths) × (b : Alert Thousandths) × Memᴰ b
      (run_rule new_id detect_input (rule_spike fixed) 0).0
    × (crisis_fires.0.dedupe_key ≡ dedupe_key alert_crisis g)
    × (b.dedupe_key ≡ dedupe_key alert_spike g)
crisis_is_spike_example =
    crisis_is_spike fixed new_id detect_input 0 0 crisis_fires.0 crisis_fires.1

evaluate_refuses_nothing_example : (evaluate fixed new_id detect_input 0).0.errors ≡ []
evaluate_refuses_nothing_example =
    evaluate_refuses_nothing fixed new_id detect_input (λ e. cc (e))
      (λ w. append-ne-empty "alr" "_1" (λ e. cc (e))) 0
