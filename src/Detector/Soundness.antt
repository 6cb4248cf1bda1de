-- ===== src/Detector/Soundness.antt =====
-- The rules never make an alert that Validate refuses.
use brand_pulse.Prelude.{
  ℕ, ◌≡◌, ◌≢◌, refl, ◌∙◌, inl, inr, String, List, [], ◌∷◌, some, All, Float, Option-cases,
  is_empty_of_ne, append-ne-empty, append-ne-empty_right, arith,
}
use brand_pulse.Models.Labels.{AlertKind}
use brand_pulse.Models.Alert.{validate_alert}
use brand_pulse.Models.Wire.{DetectInput, AlertSet}
use brand_pulse.Detector.Groups.{Group, group_by_source_hour}
use brand_pulse.Detector.Rules.{Verdict}
use brand_pulse.Detector.Rules.Volume.{judge_spike, judge_crisis, judge_competitor}
use brand_pulse.Detector.Rules.Authors.{judge_review_bomb, judge_influencer}
use brand_pulse.Detector.{
  Rule, dedupe_key, new_alert, fire_each, run_rule, run_rules, evaluate, rules, rule_spike,
  rule_crisis, rule_review_bomb, rule_influencer_mention, rule_competitor_move,
}
use brand_pulse.Detector.Firing.{IsValid, admit-All}

dedupe_key-ne-empty : {R : Type 0} (kind : AlertKind) (g : Group R) → dedupe_key kind g ≢ ""
unfolding dedupe_key
dedupe_key-ne-empty kind g =
    append-ne-empty _ _
      (append-ne-empty _ _ (append-ne-empty _ _ (append-ne-empty_right kind ":" (λ p. cc (p)))))

module _ {R W : Type 0} ⦃f : Float R⦄ (fixed : ℕ → R → String)
    (new_id : String → W → String × W) where
  -- Each verdict of the rule has evidence.
  abbrev IsSound : Rule R → Type 0
  IsSound rule =
      (input : DetectInput R) (g : Group R) (v : Verdict R)
      → rule.judge input g ≡ some v
      → v.evidence ≢ []

  rule_spike-IsSound : IsSound (rule_spike fixed)
  unfolding judge_spike
  rule_spike-IsSound input g v h = ground arith

  rule_crisis-IsSound : IsSound (rule_crisis fixed)
  unfolding judge_crisis
  rule_crisis-IsSound input g v h = ground arith

  rule_review_bomb-IsSound : IsSound (rule_review_bomb fixed)
  unfolding judge_review_bomb
  rule_review_bomb-IsSound input g v h = ground arith

  rule_influencer_mention-IsSound : IsSound (rule_influencer_mention fixed)
  unfolding judge_influencer
  rule_influencer_mention-IsSound input g v h = ground arith

  rule_competitor_move-IsSound : IsSound (rule_competitor_move fixed)
  unfolding judge_competitor
  rule_competitor_move-IsSound input g v h = ground arith

  module _ (input : DetectInput R) (branded : input.brand_id ≢ "")
      (named : (w : W) → (new_id "alr" w).0 ≢ "") where
    new_alert-IsValid :
        (kind v_id : String) (v : Verdict R)
        → v_id ≢ ""
        → v.evidence ≢ []
        → IsValid (new_alert input kind v v_id)
    unfolding new_alert validate_alert
    new_alert-IsValid kind v_id v h e = ground (
      arith,
      is_empty_of_ne v_id h,
      is_empty_of_ne input.brand_id branded,
      is_empty_of_ne (dedupe_key kind v.shown) (dedupe_key-ne-empty kind v.shown),
    )

    fire_each-IsValid :
        (rule : Rule R) (gs : List (Group R)) (w : W)
        → IsSound rule
        → All IsValid (fire_each new_id input rule gs w).0
    unfolding fire_each
    fire_each-IsValid rule [] w sound = tt
    fire_each-IsValid rule (g ∷ gs) w sound = elim (Option-cases (rule.judge input g)) [
      | inl e ↦ rw (e, fire_each) (fire_each-IsValid rule gs w sound)
      | inr (v, e) ↦
          rw (e, fire_each)
            (
              new_alert-IsValid rule.kind (new_id "alr" w).0 v (named w) (sound input g v e),
              fire_each-IsValid rule gs (new_id "alr" w).1 sound,
            )
    ]

    run_rules-errors :
        (rs : List (Rule R)) (out : AlertSet R) (w : W)
        → All IsSound rs
        → (run_rules new_id input rs out w).0.errors ≡ out.errors
    unfolding run_rules run_rule
    run_rules-errors [] out w sound = refl
    run_rules-errors (rule ∷ rest) out w sound =
        run_rules-errors rest _ _ sound.1
        ∙ admit-All (run_rule new_id input rule w).0 out
            (fire_each-IsValid rule (group_by_source_hour rule.kept input.enriched) w sound.0)

    -- With a brand and with ids that are not empty, Evaluate refuses no alert of its own rules.
    pub evaluate_refuses_nothing : (w : W) → (evaluate fixed new_id input w).0.errors ≡ []
    unfolding evaluate
    evaluate_refuses_nothing w = run_rules-errors (rules fixed) _ w (
      rule_spike-IsSound,
      (
        rule_crisis-IsSound,
        (
          rule_review_bomb-IsSound,
          (rule_influencer_mention-IsSound, (rule_competitor_move-IsSound, tt)),
        ),
      ),
    )
