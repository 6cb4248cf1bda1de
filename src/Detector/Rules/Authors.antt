-- ===== src/Detector/Rules/Authors.antt =====
-- agents/bp-detector/rules.go: the rules on who wrote and how they rated: ruleReviewBomb and
-- ruleInfluencerMention.
use brand_pulse.Prelude.{
  ℕ, Bool, not, ◌||◌, String, List, [], ◌∷◌, length, Option, none, some, keep, Float, ltb, ◌==◌,
  itoa, ◌^^◌, if◌then◌else◌,
}
use brand_pulse.Models.Labels.{severity_medium, severity_high}
use brand_pulse.Models.Mention.{EnrichedMention}
use brand_pulse.Models.Wire.{DetectInput}
use brand_pulse.Detector.Groups.{Group, count_negative, rated_mean, round2}
use brand_pulse.Detector.Rules.{
  Verdict, review_bomb_max_mean_rating, influencer_followers, review_bomb_min_reviews,
  baseline_window,
}

module _ {R : Type 0} ⦃f : Float R⦄ (fixed : ℕ → R → String) where
  unfoldable baseline_rating_detail : Option R → String
  baseline_rating_detail none = "no review source in the 14-day baseline window"
  baseline_rating_detail (some mean) = "14-day baseline mean rating " ^^ fixed 2 mean

  -- the body of ruleReviewBomb's loop
  unfoldable pub judge_review_bomb : DetectInput R → Group R → Option (Verdict R)
  unfolding rated_mean baseline_rating_detail
  judge_review_bomb input g =
      let (rated, mean) = rated_mean g in
      if ltb rated review_bomb_min_reviews || f.lt review_bomb_max_mean_rating mean
      then none
      else some (record {
        severity = severity_high;
        title = "Review bomb on " ^^ g.source;
        why =
            itoa rated
            ^^ " reviews on "
            ^^ g.source
            ^^ " in the hour from "
            ^^ g.bucket
            ^^ " averaged "
            ^^ fixed 1 mean
            ^^ " stars (fires at "
            ^^ itoa review_bomb_min_reviews
            ^^ " reviews averaging "
            ^^ fixed 1 review_bomb_max_mean_rating
            ^^ " or less).";
        evidence =
            record {
              metric = "review_count";
              value = f.of_ℕ rated;
              threshold = f.of_ℕ review_bomb_min_reviews;
              window = baseline_window;
              detail =
                  itoa rated
                  ^^ " of "
                  ^^ itoa (length g.mentions)
                  ^^ " mentions in the hour carried a rating";
            }
            ∷ record {
              metric = "mean_rating";
              value = round2 mean;
              threshold = review_bomb_max_mean_rating;
              window = baseline_window;
              detail = baseline_rating_detail input.baseline.mean_rating;
            }
            ∷ [];
        shown = g;
      })

  unfoldable is_influencer : EnrichedMention R → Bool
  is_influencer em = not (f.lt (f.of_ℕ em.mention.author_followers) influencer_followers)

  -- the most followers of an author
  unfoldable peak_from : ℕ → List (EnrichedMention R) → ℕ
  peak_from peak [] = peak
  peak_from peak (em ∷ ems) =
      peak_from (if ltb peak em.mention.author_followers then em.mention.author_followers else peak)
        ems

  -- the body of ruleInfluencerMention's loop
  unfoldable pub judge_influencer : DetectInput R → Group R → Option (Verdict R)
  unfolding is_influencer peak_from count_negative
  judge_influencer input g =
      let influencers = keep is_influencer g.mentions in
      let peak = peak_from 0 influencers in
      let negative = count_negative influencers in
      if length influencers == 0
      then none
      else some (record {
        severity = if ltb 0 negative then severity_high else severity_medium;
        title = "High-follower author on " ^^ g.source;
        why =
            itoa (length influencers)
            ^^ " author(s) with at least "
            ^^ fixed 0 influencer_followers
            ^^ " followers posted on "
            ^^ g.source
            ^^ " in the hour from "
            ^^ g.bucket
            ^^ ", the largest at "
            ^^ itoa peak
            ^^ " followers; "
            ^^ itoa negative
            ^^ " of them negative.";
        evidence =
            record {
              metric = "author_followers";
              value = f.of_ℕ peak;
              threshold = influencer_followers;
              window = baseline_window;
              detail =
                  itoa (length influencers)
                  ^^ " high-follower author(s), "
                  ^^ itoa negative
                  ^^ " negative";
            }
            ∷ [];
        shown = record g { mentions = influencers };
      })
