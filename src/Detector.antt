-- ===== src/Detector.antt =====
-- agents/bp-detector/rules.go: Evaluate, the rules as passes over the groups, and newAlert. An
-- alert's id comes from `new_id`, which is ids.New.
pub mod Groups
pub mod Rules
pub mod Grouping
pub mod Firing
pub mod Soundness
use brand_pulse.Prelude.{ℕ, String, List, [], ◌∷◌, ◌++◌, Bool, Option, none, some, Float, ◌^^◌}
use brand_pulse.Models.Labels.{
  AlertKind, alert_spike, alert_crisis, alert_review_bomb, alert_influencer_mention,
  alert_competitor_move,
}
use brand_pulse.Models.Mention.{EnrichedMention}
use brand_pulse.Models.Alert.{Alert, new_alert_record, validate_alert}
use brand_pulse.Models.Wire.{DetectInput, AlertSet}
use brand_pulse.Detector.Groups.{
  Group, group_by_source_hour, every_mention, only_review_sources, about_a_competitor, samples,
}
use brand_pulse.Detector.Rules.{Verdict, alert_error_text}
use brand_pulse.Detector.Rules.Volume.{judge_spike, judge_crisis, judge_competitor}
use brand_pulse.Detector.Rules.Authors.{judge_review_bomb, judge_influencer}

-- A rule: its kind, the mentions that it groups, and what it says of a group.
pub record Rule (R : Type 0) : Type 0 where
  pub kind : AlertKind
  pub kept : EnrichedMention R → Bool
  pub judge : DetectInput R → Group R → Option (Verdict R)

unfoldable pub dedupe_key : {R : Type 0} → AlertKind → Group R → String
dedupe_key kind g = kind ^^ ":" ^^ g.source ^^ ":" ^^ g.bucket

-- newAlert, and the fields that the rule sets
unfoldable pub new_alert : {R : Type 0} → DetectInput R → AlertKind → Verdict R → String → Alert R
unfolding dedupe_key samples new_alert_record
new_alert input kind v id =
    record (new_alert_record id input.brand_id kind v.severity (dedupe_key kind v.shown)
      input.now) {
        title = v.title;
        why = v.why;
        evidence = v.evidence;
        sample_mentions = samples v.shown;
      }

-- Evaluate's inner loop: what fails Validate is an error
unfoldable pub admit : {R : Type 0} → List (Alert R) → AlertSet R → AlertSet R
unfolding validate_alert alert_error_text
admit [] out = out
admit (a ∷ rest) out = elim (validate_alert a) [
  | none ↦ admit rest (record out { alerts = out.alerts ++ a ∷ [] })
  | some e ↦ admit rest (record out { errors = out.errors ++ alert_error_text e ∷ [] })
]

module _ {R W : Type 0} (new_id : String → W → String × W) where
  -- the loop of a rule over the groups
  unfoldable pub fire_each : DetectInput R → Rule R → List (Group R) → W → List (Alert R) × W
  unfolding new_alert
  fire_each input rule [] w = ([], w)
  fire_each input rule (g ∷ gs) w = elim (rule.judge input g) [
    | none ↦ fire_each input rule gs w
    | some v ↦
        let (id, w₁) = new_id "alr" w in
        let (rest, w₂) = fire_each input rule gs w₁ in (new_alert input rule.kind v id ∷ rest, w₂)
  ]

  unfoldable pub run_rule : DetectInput R → Rule R → W → List (Alert R) × W
  unfolding fire_each group_by_source_hour
  run_rule input rule w = fire_each input rule (group_by_source_hour rule.kept input.enriched) w

  -- Evaluate's outer loop
  unfoldable pub run_rules : DetectInput R → List (Rule R) → AlertSet R → W → AlertSet R × W
  unfolding run_rule admit
  run_rules input [] out w = (out, w)
  run_rules input (rule ∷ rest) out w =
      let (fired, w₁) = run_rule input rule w in run_rules input rest (admit fired out) w₁

module _ {R : Type 0} ⦃f : Float R⦄ (fixed : ℕ → R → String) where
  abbrev pub rule_spike : Rule R
  rule_spike = record { kind = alert_spike; kept = every_mention; judge = judge_spike fixed }

  abbrev pub rule_crisis : Rule R
  rule_crisis = record { kind = alert_crisis; kept = every_mention; judge = judge_crisis fixed }

  abbrev pub rule_review_bomb : Rule R
  rule_review_bomb = record {
    kind = alert_review_bomb;
    kept = only_review_sources;
    judge = judge_review_bomb fixed;
  }

  abbrev pub rule_influencer_mention : Rule R
  rule_influencer_mention = record {
    kind = alert_influencer_mention;
    kept = every_mention;
    judge = judge_influencer fixed;
  }

  abbrev pub rule_competitor_move : Rule R
  rule_competitor_move = record {
    kind = alert_competitor_move;
    kept = about_a_competitor;
    judge = judge_competitor fixed;
  }

  abbrev pub rules : List (Rule R)
  rules =
      rule_spike ∷ rule_crisis ∷ rule_review_bomb ∷ rule_influencer_mention ∷ rule_competitor_move
      ∷ []

  -- Evaluate
  unfoldable pub evaluate :
      {W : Type 0} → (String → W → String × W) → DetectInput R → W → AlertSet R × W
  unfolding run_rules
  evaluate new_id input w =
      run_rules new_id input rules (record { alerts = []; rules_evaluated = 5; errors = [] }) w
