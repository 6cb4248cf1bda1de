-- ===== src/Orchestrator/Analysis.antt =====
-- agents/bp-orchestrator/pipeline.go, steps 5 to 8: enrich, analyse, respond and the brief. The
-- three goroutines of `analyse` write results of their own, and are taken in one order; those of
-- `respond` are taken in the schedule's order.
pub mod Enriched
pub mod Join
pub mod Replies
use brand_pulse.Prelude.{
  ℕ, suc, ◌+◌, ◌-◌, Bool, true, false, not, ◌&&◌, ◌||◌, String, List, [], ◌∷◌, ◌++◌, map, length,
  Option, none, some, Dict, lookup, insert_key, keep, Float, ltb, str_eq, str_lt, contains,
  sort_stable, ℤ, pos, ◌^^◌, if◌then◌else◌,
}
use brand_pulse.Models.Labels.{Time, sentiment_negative, severity_high, severity_critical}
use brand_pulse.Models.Brand.{BrandProfile}
use brand_pulse.Models.Mention.{Mention, Enrichment, EnrichedMention}
use brand_pulse.Models.Alert.{Alert, ReplyDraft}
use brand_pulse.Models.Topic.{Topic, ShareOfVoice, BriefNumbers, DailyBrief}
use brand_pulse.Models.Wire.{EnrichmentBatch, TopicSet, AlertSet, BaselineStats}
use brand_pulse.Orchestrator.Collect.{is_nil}
use brand_pulse.Orchestrator.Env.{Reply, ok, err, Env, Window, Progress, RespondInput}
use brand_pulse.Orchestrator.Step.{
  Step, ◌>>=◌, ◌>>◌, pure, ask, addf, addf_all, addf_error, spend_tokens,
}
use brand_pulse.Orchestrator.Analysis.Enriched.{
  by_id, join_enrichments, on_brand_ids, all_on_brand, is_urgent, negative_count, sentiment_total,
  brief_numbers, new_share_of_voice,
}

module _ {R W : Type 0} ⦃f : Float R⦄ (env : Env R W) where
  -- enrich, after the call has succeeded
  unfoldable join_batch : List (Mention R) → EnrichmentBatch R → Step R W (List (EnrichedMention R))
  unfolding by_id join_enrichments
  join_batch mentions batch = do
    addf_all "bp-enricher" batch.errors
    spend_tokens batch.tokens_used batch.cost_paise
    saved ←
        if is_nil batch.enrichments then pure none else ask (env.save_enrichments batch.enrichments)
    addf_error "persisting enrichments" saved
    let (joined, missing) = join_enrichments (by_id batch.enrichments []) mentions
    addf_all "bp-enricher" (map (λ id. "no enrichment for mention " ^^ id) missing)
    pure joined

  unfoldable pub enrich : BrandProfile → List (Mention R) → Step R W (List (EnrichedMention R))
  unfolding join_batch
  enrich profile [] = pure []
  enrich profile (m ∷ ms) = do
    reply ←
        ask
          (env.call_enricher (record { mentions = m ∷ ms; profile = profile; batch_size = pos 0 }))
    elim reply [
      | err e ↦ (do addf ("bp-enricher: " ^^ e); pure [])
      | ok batch ↦ join_batch (m ∷ ms) batch
    ]

  -- the first goroutine of analyse
  unfoldable cluster : String → List (EnrichedMention R) → Window → Step R W (List (Topic R))
  cluster brand_id enriched w = do
    counted ← ask (env.prior_window_counts brand_id (w.start - (w.end - w.start)) w.start)
    prior ← elim counted [
      | err e ↦ (do
        addf ("prior window counts unavailable, topic trends read flat: " ^^ e)
        pure [])
      | ok counts ↦ pure counts
    ]
    reply ← ask (
        env.call_clusterer (record {
          enriched = enriched;
          brand_id = brand_id;
          window_start = w.start;
          window_end = w.end;
          prior_window_counts = prior;
          min_cluster_size = pos 0;
        }))
    elim reply [
      | err e ↦ (do addf ("bp-clusterer: " ^^ e); pure [])
      | ok set ↦ (do
        addf_all "bp-clusterer" set.errors
        spend_tokens set.tokens_used set.cost_paise
        pure set.topics)
    ]

  -- the second
  unfoldable count_voice :
      BrandProfile → List (EnrichedMention R) → Window → ShareOfVoice R → Step R W (ShareOfVoice R)
  count_voice profile enriched w unset = do
    reply ← ask (
        env.call_sov (record {
          enriched = enriched;
          profile = profile;
          window_start = w.start;
          window_end = w.end;
        }))
    elim reply [ err e ↦ (do addf ("bp-sov: " ^^ e); pure unset) | ok counted ↦ pure counted ]

  abbrev baseline_days : ℕ
  baseline_days = 14

  -- the third
  unfoldable detect : String → List (EnrichedMention R) → Window → Step R W (List (Alert R))
  detect brand_id enriched w = do
    computed ← ask (env.baseline brand_id baseline_days w.end)
    elim computed [
      | err e ↦ (do addf ("baseline unavailable, no alert rule could run: " ^^ e); pure [])
      | ok baseline ↦ (do
        reply ← ask (
            env.call_detector (record {
              brand_id = brand_id;
              enriched = enriched;
              baseline = baseline;
              now = w.end;
            }))
        elim reply [
          | err e ↦ (do addf ("bp-detector: " ^^ e); pure [])
          | ok set ↦ (do addf_all "bp-detector" set.errors; pure set.alerts)
        ])
    ]

  -- the alerts as the table holds them, or as they were if saving fails
  unfoldable store_alerts : List (Alert R) → Step R W (List (Alert R))
  store_alerts [] = pure []
  store_alerts (a ∷ rest) = do
    reply ← ask (env.save_alerts (a ∷ rest))
    elim reply [
      | err e ↦ (do addf ("persisting alerts: " ^^ e); pure (a ∷ rest))
      | ok stored ↦ pure stored
    ]

  unfoldable pub analyse :
      String
      → BrandProfile
      → List (EnrichedMention R)
      → Window
      → Step R W (List (Topic R) × ShareOfVoice R × List (Alert R))
  unfolding new_share_of_voice cluster count_voice detect store_alerts
  analyse brand_id profile [] w = pure ([], new_share_of_voice brand_id w.start w.end, [])
  analyse brand_id profile (x ∷ xs) w = do
    topics ← cluster brand_id (x ∷ xs) w
    sov ← count_voice profile (x ∷ xs) w (new_share_of_voice brand_id w.start w.end)
    alerts ← detect brand_id (x ∷ xs) w
    saved ← if is_nil topics then pure none else ask (env.save_topics topics)
    addf_error "persisting topics" saved
    stored ← store_alerts alerts
    pure (topics, sov, stored)

  -- what a goroutine of respond does with its reply, and one for each urgent alert
  unfoldable pub keep_draft :
      String → Reply ReplyDraft → List ReplyDraft → Step R W (List ReplyDraft)
  keep_draft alert_id (err e) drafts = do
    addf ("bp-responder(" ^^ alert_id ^^ "): " ^^ e)
    pure drafts
  keep_draft alert_id (ok draft) drafts = pure (drafts ++ draft ∷ [])

  unfoldable pub draft_each :
      BrandProfile → List (Alert R) → List ReplyDraft → Step R W (List ReplyDraft)
  unfolding keep_draft
  draft_each profile [] drafts = pure drafts
  draft_each profile (a ∷ rest) drafts = do
    reply ← ask (
        env.call_responder
          (record { alert = some a; mention = none; profile = profile; channel = "statement" }))
    drafts' ← keep_draft a.id reply drafts
    draft_each profile rest drafts'

  unfoldable pub respond :
      (List (Alert R) → List (Alert R))
      → BrandProfile
      → List (Alert R)
      → List String
      → Step R W (Unit {0})
  unfolding is_urgent draft_each
  respond schedule profile alerts on_brand = do
    drafts ← draft_each profile (schedule (keep (is_urgent on_brand) alerts)) []
    saved ←
        if is_nil drafts
        then pure none
        else ask (env.save_drafts (sort_stable (λ a b. str_lt a.alert_id b.alert_id) drafts))
    addf_error "persisting reply drafts" saved

  unfoldable pub write_brief :
      String
      → BrandProfile
      → List (Topic R)
      → List (Alert R)
      → ShareOfVoice R
      → List (EnrichedMention R)
      → Window
      → Step R W (Unit {0})
  unfolding brief_numbers
  write_brief brand_id profile topics alerts sov enriched w = do
    counted ← ask (env.count_mentions brand_id (w.start - (w.end - w.start)) w.start)
    addf_error "prior mention count unavailable, the brief's delta reads flat" counted.1
    reply ← ask (
        env.call_briefer (record {
          brand_id = brand_id;
          profile = profile;
          period = "daily";
          period_start = w.start;
          period_end = w.end;
          topics = topics;
          alerts = alerts;
          sov = sov;
          numbers = brief_numbers enriched counted.0 sov;
        }))
    elim reply [
      | err e ↦ addf ("bp-briefer: " ^^ e)
      | ok brief ↦ (do
        saved ← ask (env.save_brief "daily" brief)
        addf_error "persisting the brief" saved)
    ]
