-- ===== src/Detector/Rules.antt =====
-- agents/bp-detector/rules.go: the thresholds, and what a rule says of a group. In the child modules
-- the numbers in the text are printed by `fixed`, which is Sprintf's %.1f, %.2f and %.0f.
pub mod Volume
pub mod Authors
use brand_pulse.Prelude.{ℕ, String, List, Float, ◌^^◌}
use brand_pulse.Models.Labels.{Severity}
use brand_pulse.Models.Alert.{AlertEvidence, AlertError, no_id, no_dedupe_key, no_evidence}
use brand_pulse.Detector.Groups.{Group}

-- the thresholds
module _ {R : Type 0} ⦃f : Float R⦄ where
  abbrev pub spike_z : R
  spike_z = f.decimal 30 1

  abbrev pub spike_high_z : R
  spike_high_z = f.decimal 50 1

  abbrev pub crisis_z : R
  crisis_z = f.decimal 30 1

  abbrev pub crisis_negative_share : R
  crisis_negative_share = f.decimal 6 1

  abbrev pub crisis_critical_share : R
  crisis_critical_share = f.decimal 8 1

  abbrev pub review_bomb_max_mean_rating : R
  review_bomb_max_mean_rating = f.decimal 20 1

  abbrev pub influencer_followers : R
  influencer_followers = f.decimal 500000 1

  abbrev pub competitor_z : R
  competitor_z = f.decimal 30 1

abbrev pub review_bomb_min_reviews : ℕ
review_bomb_min_reviews = 5

abbrev pub baseline_window : String
baseline_window = "1h"

-- AlertError's Error
unfoldable pub alert_error_text : AlertError → String
alert_error_text no_id = "models: Alert.id and brand_id are required"
alert_error_text no_dedupe_key =
    "models: Alert.dedupe_key is required, it backs the unique constraint"
alert_error_text (no_evidence id) =
    "models: Alert \"" ^^ id ^^ "\" has no evidence, every alert must show the rule that fired"

-- What a rule that fires says of a group: the severity, the title, the reason, the evidence, and
-- the group whose mentions are shown.
pub record Verdict (R : Type 0) : Type 0 where
  pub severity : Severity
  pub title : String
  pub why : String
  pub evidence : List (AlertEvidence R)
  pub shown : Group R
