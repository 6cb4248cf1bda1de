-- ===== src/Orchestrator/Analysis/Replies.antt =====
-- Which alerts get a reply, and what becomes of each call.
use brand_pulse.Prelude.{
  ◌+◌, ◌≡◌, ◌↔◌, ◌⊎◌, true, String, List, [], ◌∷◌, length, length-append, none, some, All, Float,
  contains, keep, ◌^^◌, arith, eq_iff,
}
use brand_pulse.Models.Labels.{severity_high, severity_critical}
use brand_pulse.Models.Brand.{BrandProfile}
use brand_pulse.Models.Mention.{Mention}
use brand_pulse.Models.Alert.{Alert, ReplyDraft}
use brand_pulse.Orchestrator.Env.{Reply, ok, err, Env, Progress}
use brand_pulse.Orchestrator.Analysis.Enriched.{all_on_brand, is_urgent}
use brand_pulse.Orchestrator.Analysis.{keep_draft, draft_each, respond}

module _ {R : Type 0} where
  all_on_brand_iff :
      (ids : List String) (ms : List (Mention R))
      → (all_on_brand ids ms ≡ true) ↔ All (λ m. contains m.id ids ≡ true) ms
  unfolding all_on_brand
  all_on_brand_iff ids [] = ground arith
  all_on_brand_iff ids (m ∷ ms) = ground (arith, all_on_brand_iff ids ms)

  -- An alert is answered just when its severity is high or critical and each of its samples is
  -- on brand.
  pub is_urgent_iff :
      (ids : List String) (a : Alert R)
      → (is_urgent ids a ≡ true)
        ↔ ((a.severity ≡ severity_high) ⊎ (a.severity ≡ severity_critical))
          × All (λ m. contains m.id ids ≡ true) a.sample_mentions
  unfolding is_urgent
  is_urgent_iff ids a = ground (
    arith,
    eq_iff a.severity severity_high,
    eq_iff a.severity severity_critical,
    all_on_brand_iff ids a.sample_mentions,
  )

module _ {R W : Type 0} ⦃f : Float R⦄ (env : Env R W) where
  keep_draft-accounts :
      (id : String) (reply : Reply ReplyDraft) (drafts : List ReplyDraft) (p : Progress R W)
      → length (keep_draft env id reply drafts p).0
          + length (keep_draft env id reply drafts p).1.log
        ≡ length drafts + length p.log + 1
  unfolding keep_draft
  keep_draft-accounts id (err e) drafts p =
      omega (arith, length-append p.log (("bp-responder(" ^^ id ^^ "): " ^^ e) ∷ []))
  keep_draft-accounts id (ok draft) drafts p = omega (arith, length-append drafts (draft ∷ []))

  -- Each alert that is passed on for a reply ends as one more draft or as one more line of the log.
  pub draft_each_accounts :
      (profile : BrandProfile) (alerts : List (Alert R)) (drafts : List ReplyDraft)
      (p : Progress R W)
      → length (draft_each env profile alerts drafts p).0
          + length (draft_each env profile alerts drafts p).1.log
        ≡ length drafts + length p.log + length alerts
  unfolding draft_each
  draft_each_accounts profile [] drafts p = omega arith
  draft_each_accounts profile (a ∷ rest) drafts p =
      let asked =
        env.call_responder
          (record { alert = some a; mention = none; profile = profile; channel = "statement" })
          p.world in
      let kept = keep_draft env a.id asked.0 drafts (record p { world = asked.1 }) in
      omega (
        arith,
        keep_draft-accounts a.id asked.0 drafts (record p { world = asked.1 }),
        draft_each_accounts profile rest kept.0 kept.1,
      )

  -- Where no alert is urgent, no reply is asked for and nothing is saved.
  respond_idle :
      (schedule : List (Alert R) → List (Alert R)) (profile : BrandProfile)
      (alerts : List (Alert R)) (on_brand : List String) (p : Progress R W)
      → schedule [] ≡ []
      → keep (is_urgent on_brand) alerts ≡ []
      → respond env schedule profile alerts on_brand p ≡ (tt, p)
  unfolding respond draft_each
  respond_idle schedule profile alerts on_brand p s k = ground (arith)
