-- ===== src/Detector/Groups.antt =====
-- agents/bp-detector/rules.go: the mentions of one source in one hour, and what is measured on them.
use brand_pulse.Prelude.{
  ℕ, suc, Bool, true, not, String, List, [], ◌∷◌, ◌++◌, map, length, none, some, Dict, lookup,
  lookup_or, insert_key, keep, take, unique_by, Float, ltb, ◌==◌, str_eq, str_lt, is_empty,
  sort_stable, ◌^^◌, if◌then◌else◌,
}
use brand_pulse.Models.Labels.{Source, Time, is_review_source, sentiment_negative}
use brand_pulse.Models.Mention.{Mention, EnrichedMention, engagement_total}
use brand_pulse.Models.Wire.{BaselineStats}
use brand_pulse.Stats.Buckets.{hour_bucket, truncate_hour}
use brand_pulse.Stats.Moments.{z_score}

pub record Group (R : Type 0) : Type 0 where
  pub source : Source
  pub bucket : String
  pub at : Time
  pub mentions : List (EnrichedMention R)

abbrev max_samples : ℕ
max_samples = 3

module _ {R : Type 0} where
  unfoldable pub group_key : EnrichedMention R → String
  group_key em = em.mention.source ^^ "|" ^^ hour_bucket (truncate_hour em.mention.posted_at)

  abbrev pub new_group : EnrichedMention R → Group R
  new_group em = record {
    source = em.mention.source;
    bucket = hour_bucket (truncate_hour em.mention.posted_at);
    at = truncate_hour em.mention.posted_at;
    mentions = [];
  }

  abbrev pub append_mention : EnrichedMention R → Group R → Group R
  append_mention em g = record g { mentions = g.mentions ++ em ∷ [] }

  -- one turn of the loop that fills byKey
  unfoldable pub add_to : EnrichedMention R → Dict (Group R) → Dict (Group R)
  unfolding lookup insert_key
  add_to em m = elim (lookup (group_key em) m) [
    | none ↦ insert_key (group_key em) (append_mention em (new_group em)) m
    | some g ↦ insert_key (group_key em) (append_mention em g) m
  ]

  unfoldable pub group_from :
      (EnrichedMention R → Bool) → List (EnrichedMention R) → Dict (Group R) → Dict (Group R)
  unfolding add_to
  group_from kept [] m = m
  group_from kept (em ∷ ems) m = group_from kept ems (if kept em then add_to em m else m)

  -- the order of groupBySourceHour: by bucket, then by source
  unfoldable pub group_before : Group R → Group R → Bool
  group_before a b =
      if not (str_eq a.bucket b.bucket) then str_lt a.bucket b.bucket else str_lt a.source b.source

  -- groupBySourceHour
  unfoldable pub group_by_source_hour :
      (EnrichedMention R → Bool) → List (EnrichedMention R) → List (Group R)
  unfolding group_from
  group_by_source_hour kept enriched =
      sort_stable group_before (map (λ e. e.1) (group_from kept enriched []))

  abbrev pub every_mention : EnrichedMention R → Bool
  every_mention _ = true

  unfoldable pub only_review_sources : EnrichedMention R → Bool
  only_review_sources em = is_review_source em.mention.source

  unfoldable pub about_a_competitor : EnrichedMention R → Bool
  about_a_competitor em = not (is_empty em.enrichment.about_competitor)

  unfoldable is_negative : EnrichedMention R → Bool
  is_negative em = str_eq em.enrichment.sentiment_label sentiment_negative

  unfoldable pub count_negative : List (EnrichedMention R) → ℕ
  unfolding is_negative
  count_negative [] = 0
  count_negative (em ∷ ems) = let n = count_negative ems in if is_negative em then suc n else n

  -- competitorNames
  unfoldable pub competitor_names : Group R → List String
  competitor_names g = sort_stable str_lt (
      unique_by (λ s. s)
        (keep (λ s. not (is_empty s)) (map (λ em. em.enrichment.about_competitor) g.mentions)))

  unfoldable louder : EnrichedMention R → EnrichedMention R → Bool
  unfolding engagement_total
  louder a b = ltb (engagement_total b.mention.engagement) (engagement_total a.mention.engagement)

  -- samples
  unfoldable pub samples : Group R → List (Mention R)
  unfolding louder
  samples g = map (λ em. em.mention) (take max_samples (sort_stable louder g.mentions))

module _ {R : Type 0} ⦃f : Float R⦄ where
  unfoldable pub hourly_z_score : BaselineStats R → Group R → R
  unfolding z_score lookup_or
  hourly_z_score b g =
      z_score (f.of_ℕ (length g.mentions)) (lookup_or (f.of_ℕ 0) g.source b.per_source_hourly_mean)
        (lookup_or (f.of_ℕ 0) g.source b.per_source_hourly_std)

  unfoldable pub negative_share : Group R → R
  unfolding count_negative
  negative_share g =
      if length g.mentions == 0
      then f.of_ℕ 0
      else f.div (f.of_ℕ (count_negative g.mentions)) (f.of_ℕ (length g.mentions))

  -- the loop of ratedMean: the ratings' sum and their number
  unfoldable add_ratings : R → ℕ → List (EnrichedMention R) → R × ℕ
  add_ratings sum n [] = (sum, n)
  add_ratings sum n (em ∷ ems) = elim em.mention.rating [
    | none ↦ add_ratings sum n ems
    | some r ↦ add_ratings (f.add sum r) (suc n) ems
  ]

  unfoldable pub rated_mean : Group R → ℕ × R
  unfolding add_ratings
  rated_mean g =
      let (sum, n) = add_ratings (f.of_ℕ 0) 0 g.mentions in
      if n == 0 then (0, f.of_ℕ 0) else (n, f.div sum (f.of_ℕ n))

  -- round1 and round2
  unfoldable pub round1 : R → R
  round1 v = f.div (f.trunc (f.add (f.mul v (f.of_ℕ 10)) (f.decimal 5 1))) (f.of_ℕ 10)

  unfoldable pub round2 : R → R
  round2 v = f.div (f.trunc (f.add (f.mul v (f.of_ℕ 100)) (f.decimal 5 1))) (f.of_ℕ 100)
