-- ===== src/Detector/Rules/Volume.antt =====
-- agents/bp-detector/rules.go: the rules on an hour's volume: ruleSpike, ruleCrisis and
-- ruleCompetitorMove.
use brand_pulse.Prelude.{
  ℕ, not, ◌||◌, String, [], ◌∷◌, length, Option, none, some, lookup_or, Float, join, itoa, ◌^^◌,
  if◌then◌else◌,
}
use brand_pulse.Models.Labels.{severity_low, severity_medium, severity_high, severity_critical}
use brand_pulse.Models.Wire.{DetectInput}
use brand_pulse.Detector.Groups.{
  Group, count_negative, competitor_names, hourly_z_score, negative_share, round1, round2,
}
use brand_pulse.Detector.Rules.{
  Verdict, spike_z, spike_high_z, crisis_z, crisis_negative_share, crisis_critical_share,
  competitor_z, baseline_window,
}

module _ {R : Type 0} ⦃f : Float R⦄ (fixed : ℕ → R → String) where
  abbrev mean_of : DetectInput R → Group R → R
  mean_of input g = lookup_or (f.of_ℕ 0) g.source input.baseline.per_source_hourly_mean

  abbrev std_of : DetectInput R → Group R → R
  std_of input g = lookup_or (f.of_ℕ 0) g.source input.baseline.per_source_hourly_std

  -- the body of ruleSpike's loop
  unfoldable pub judge_spike : DetectInput R → Group R → Option (Verdict R)
  unfolding hourly_z_score lookup_or
  judge_spike input g =
      let z = hourly_z_score input.baseline g in
      if f.lt z spike_z
      then none
      else some (record {
        severity = if not (f.lt z spike_high_z) then severity_high else severity_medium;
        title = "Volume spike on " ^^ g.source;
        why =
            itoa (length g.mentions)
            ^^ " mentions on "
            ^^ g.source
            ^^ " in the hour from "
            ^^ g.bucket
            ^^ ", a z-score of "
            ^^ fixed 1 z
            ^^ " against a 14-day mean of "
            ^^ fixed 1 (mean_of input g)
            ^^ " per hour (fires at "
            ^^ fixed 1 spike_z
            ^^ ").";
        evidence =
            record {
              metric = "volume_zscore";
              value = round1 z;
              threshold = spike_z;
              window = baseline_window;
              detail =
                  itoa (length g.mentions)
                  ^^ " mentions against a mean of "
                  ^^ fixed 1 (mean_of input g)
                  ^^ ", std "
                  ^^ fixed 1 (std_of input g)
                  ^^ ", over "
                  ^^ itoa input.baseline.days
                  ^^ " days";
            }
            ∷ [];
        shown = g;
      })

  -- the body of ruleCrisis's loop
  unfoldable pub judge_crisis : DetectInput R → Group R → Option (Verdict R)
  unfolding hourly_z_score negative_share lookup_or
  judge_crisis input g =
      let z = hourly_z_score input.baseline g in
      let share = negative_share g in
      if f.lt z crisis_z || f.lt share crisis_negative_share
      then none
      else some (record {
        severity =
            if not (f.lt share crisis_critical_share) then severity_critical else severity_high;
        title = "Negative surge on " ^^ g.source;
        why =
            "Volume on "
            ^^ g.source
            ^^ " hit z="
            ^^ fixed 1 z
            ^^ " (fires at "
            ^^ fixed 1 crisis_z
            ^^ ") and "
            ^^ fixed 0 (f.mul share (f.of_ℕ 100))
            ^^ "% of the "
            ^^ itoa (length g.mentions)
            ^^ " mentions in the hour from "
            ^^ g.bucket
            ^^ " were negative (fires at "
            ^^ fixed 0 (f.mul crisis_negative_share (f.of_ℕ 100))
            ^^ "%).";
        evidence =
            record {
              metric = "volume_zscore";
              value = round1 z;
              threshold = crisis_z;
              window = baseline_window;
              detail =
                  "mean "
                  ^^ fixed 1 (mean_of input g)
                  ^^ ", std "
                  ^^ fixed 1 (std_of input g)
                  ^^ ", over "
                  ^^ itoa input.baseline.days
                  ^^ " days";
            }
            ∷ record {
              metric = "negative_share";
              value = round2 share;
              threshold = crisis_negative_share;
              window = baseline_window;
              detail =
                  "14-day baseline share "
                  ^^ fixed 2 input.baseline.negative_share_mean
                  ^^ ", std "
                  ^^ fixed 2 input.baseline.negative_share_std;
            }
            ∷ record {
              metric = "mention_count";
              value = f.of_ℕ (length g.mentions);
              threshold = mean_of input g;
              window = baseline_window;
              detail =
                  itoa (count_negative g.mentions) ^^ " negative of " ^^ itoa (length g.mentions);
            }
            ∷ [];
        shown = g;
      })

  -- the body of ruleCompetitorMove's loop
  unfoldable pub judge_competitor : DetectInput R → Group R → Option (Verdict R)
  unfolding hourly_z_score lookup_or competitor_names
  judge_competitor input g =
      let z = hourly_z_score input.baseline g in
      if f.lt z competitor_z
      then none
      else some (record {
        severity = severity_low;
        title = "Competitor volume up on " ^^ g.source;
        why =
            itoa (length g.mentions)
            ^^ " competitor mentions on "
            ^^ g.source
            ^^ " in the hour from "
            ^^ g.bucket
            ^^ ", a z-score of "
            ^^ fixed 1 z
            ^^ " against that source's 14-day hourly mean of "
            ^^ fixed 1 (mean_of input g)
            ^^ " (fires at "
            ^^ fixed 1 competitor_z
            ^^ ").";
        evidence =
            record {
              metric = "competitor_volume_zscore";
              value = round1 z;
              threshold = competitor_z;
              window = baseline_window;
              detail = "competitors seen: " ^^ join ", " (competitor_names g);
            }
            ∷ [];
        shown = g;
      })
