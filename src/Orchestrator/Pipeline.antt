-- ===== src/Orchestrator/Pipeline.antt =====
-- agents/bp-orchestrator/pipeline.go: Handle, claim and execute.
pub mod Claims
pub mod Closing
use brand_pulse.Prelude.{
  ℕ, ◌+◌, ◌-◌, ◌*◌, Bool, true, false, not, ◌&&◌, ◌||◌, String, List, [], ◌∷◌, ◌++◌, length, Option,
  none, some, Dict, Float, ltb, ◌==◌, str_eq, is_empty, itoa, ℤ, pos, negsuc, suc, pos_part,
  sort_stable, str_lt, ◌^^◌, if◌then◌else◌,
}
use brand_pulse.Models.Labels.{
  Source, RunKind, RunStatus, Time, hour, run_scheduled, run_onboard, run_status_running,
  run_status_ok, run_status_partial, run_status_failed,
}
use brand_pulse.Models.Brand.{BrandProfile}
use brand_pulse.Models.Mention.{Mention, EnrichedMention}
use brand_pulse.Models.Alert.{Alert}
use brand_pulse.Models.Run.{RunRecord, new_run_record, validate_run}
use brand_pulse.Stats.Buckets.{hour_bucket, day_bucket, day}
use brand_pulse.Orchestrator.Env.{
  Reply, ok, err, Env, Window, Progress, Schedule, SourceRun, RunInput,
}
use brand_pulse.Orchestrator.Step.{Step, ◌>>=◌, ◌>>◌, pure, ask, addf, addf_error}
use brand_pulse.Orchestrator.Sources.{choose_sources, degraded_reason, split_credits, fan_out_cap}
use brand_pulse.Orchestrator.Collect.{collect, is_nil}
use brand_pulse.Orchestrator.Collect.Order.{sorted_log}
use brand_pulse.Orchestrator.Analysis.{enrich, analyse, respond, write_brief}
use brand_pulse.Orchestrator.Analysis.Enriched.{on_brand_ids}

-- bucketFor
unfoldable pub bucket_for : RunKind → Time → String
bucket_for kind now =
    if str_eq kind run_scheduled || str_eq kind run_onboard then day_bucket now else hour_bucket now

abbrev default_window_hours : ℕ
default_window_hours = 24

-- windowFor
unfoldable pub window_for : RunInput → Time → Window
window_for input now =
    let hours =
      if ltb 0 (pos_part input.window_hours)
      then pos_part input.window_hours
      else default_window_hours in
    record { start = now - hours * hour; end = now }

-- finalStatus: how much of the pipeline survived
unfoldable pub final_status : {R : Type 0} → RunRecord R → ℕ → ℕ → RunStatus
final_status run attempted failed =
    if ltb 0 attempted && failed == attempted
    then run_status_failed
    else if not (is_nil run.errors) || not (is_empty run.degraded_reason)
    then run_status_partial
    else run_status_ok

show_int : ℤ → String
show_int (pos n) = itoa n
show_int (negsuc n) = "-" ^^ itoa (suc n)

-- What steps 3 to 8 leave of a run: what was chosen, and what came of it.
pub record Outcome : Type 0 where
  pub chosen : List Source
  pub skipped : List Source
  pub collected : ℕ
  pub per_source : List SourceRun
  pub failed : ℕ

-- step 9, before the writes: the record with what the run really spent
unfoldable pub closed_run :
    {R W : Type 0} → RunRecord R → Outcome → Progress R W → Time → RunRecord R
unfolding final_status
closed_run run o p finished =
    let spent = record run {
      sources_attempted = o.chosen;
      sources_skipped = o.skipped;
      degraded_reason = degraded_reason o.skipped fan_out_cap;
      mentions_collected = o.collected;
      credits_used = p.credits;
      tokens_used = p.tokens;
      cost_paise = p.paise;
      errors = sorted_log p.log;
    } in
    record spent {
      status = final_status spent (length o.chosen) o.failed;
      finished_at = some finished;
    }

abbrev pub with_error : {R : Type 0} → String → Option String → RunRecord R → RunRecord R
with_error doing none run = run
with_error doing (some e) run = record run { errors = run.errors ++ (doing ^^ ": " ^^ e) ∷ [] }

module _ {R : Type 0} ⦃f : Float R⦄ where
  -- A forced run adopts the row that is there, from the top.
  unfoldable pub adopt : Time → RunRecord R → RunRecord R
  adopt now run = record run {
    status = run_status_running;
    started_at = now;
    finished_at = none;
    errors = [];
    sources_attempted = [];
    sources_skipped = [];
    degraded_reason = "";
    credits_used = 0;
    tokens_used = 0;
    cost_paise = f.of_ℕ 0;
    mentions_collected = 0;
  }

  -- the part of claim after the insert
  unfoldable pub own_or_adopt :
      RunInput → String → Time → Reply (RunRecord R × Bool) → Reply (RunRecord R × Bool)
  unfolding adopt
  own_or_adopt input bucket now (err e) =
      err ("bp-orchestrator: claiming run bucket " ^^ bucket ^^ ": " ^^ e)
  own_or_adopt input bucket now (ok (claimed, mine)) =
      if mine || not input.force then ok (claimed, mine) else ok (adopt now claimed, true)

module _ {R W : Type 0} ⦃f : Float R⦄ (env : Env R W) where
  unfoldable pub claim : RunInput → String → Time → W → Reply (RunRecord R × Bool) × W
  unfolding own_or_adopt
  claim input bucket now w =
      let (id, w₁) = env.new_id "run" w in
      let run = new_run_record id input.brand_id input.trigger bucket now in
      elim (validate_run run) [
        | some e ↦ (err ("bp-orchestrator: " ^^ e), w₁)
        | none ↦ let (reply, w₂) = env.claim_run run w₁ in (own_or_adopt input bucket now reply, w₂)
      ]

  -- step 3: the yields of yesterday, or none
  unfoldable pub known_yields : String → Window → Step R W (Dict R)
  known_yields brand_id w = do
    reply ← ask (env.source_yield brand_id (w.end - day))
    elim reply [
      | err e ↦ (do
        addf ("source yield unavailable, sources ranked in profile order: " ^^ e)
        pure [])
      | ok yields ↦ pure yields
    ]

  -- the credits of each source
  unfoldable pub share_credits : String → List Source → Step R W ℕ
  unfolding show_int
  share_credits brand_id chosen = do
    read ← ask (env.credit_budget brand_id)
    addf_error "credit budget unavailable, every collector was given a ceiling of 0" read.1
    let share = split_credits read.0 (length chosen)
    if ltb 0 (length chosen) && share == 0
        then addf (
            "a daily budget of "
            ^^ show_int read.0
            ^^ " across "
            ^^ itoa (length chosen)
            ^^ " sources leaves 0 credits each, which no collector can run on")
        else pure tt
    pure share

  -- step 5b: the whole window, or what this run collected
  unfoldable pub read_window :
      String → Window → List (EnrichedMention R) → Step R W (List (EnrichedMention R))
  read_window brand_id w collected = do
    reply ← ask (env.enriched_in_window brand_id w.start w.end)
    elim reply [
      | err e ↦ (do
        addf ("reading the window back, analysis saw only what this run collected: " ^^ e)
        pure collected)
      | ok enriched ↦ pure enriched
    ]

  -- steps 3 to 8
  unfoldable pub work : Schedule R → RunInput → BrandProfile → String → Window → Step R W Outcome
  work schedule input profile run_id w = do
    yields ← known_yields input.brand_id w
    let (chosen, skipped) = choose_sources profile yields (pos fan_out_cap)
    share ← share_credits input.brand_id chosen
    gathered ← collect env profile (schedule.collectors chosen) w run_id share
    saved ← if is_nil gathered.0 then pure none else ask (env.save_mentions gathered.0)
    addf_error "persisting mentions" saved
    collected ← enrich env profile gathered.0
    enriched ← read_window input.brand_id w collected
    analysed ← analyse env input.brand_id profile enriched w
    respond env schedule.responders profile analysed.2 (on_brand_ids enriched)
    write_brief env input.brand_id profile analysed.0 analysed.2 analysed.1 enriched w
    pure (record {
      chosen = chosen;
      skipped = skipped;
      collected = length gathered.0;
      per_source = gathered.1;
      failed = gathered.2;
    })

  -- step 9: the record as it is returned
  unfoldable pub close : RunInput → Window → RunRecord R → Outcome → Progress R W → RunRecord R × W
  unfolding closed_run
  close input w run o p =
      let (finished, w₁) = env.now p.world in
      let run₁ = closed_run run o p finished in
      let (unrecorded, w₂) = env.record_source_yield input.brand_id w.end o.per_source w₁ in
      let run₂ = with_error "recording source yield" unrecorded run₁ in
      let (unwritten, w₃) = env.finish_run run₂ w₂ in
      (with_error "writing the runs row" unwritten run₂, w₃)

  unfoldable pub execute :
      Schedule R → RunInput → BrandProfile → RunRecord R → Window → W → RunRecord R × W
  unfolding work close
  execute schedule input profile run w world =
      let start : Progress R W = record {
        world = world;
        log = [];
        credits = 0;
        tokens = 0;
        paise = f.of_ℕ 0;
      } in
      let (o, p) = work schedule input profile run.id w start in close input w run o p

  -- Handle, once the input is seen to be whole
  unfoldable handle_valid : Schedule R → RunInput → W → Reply (RunRecord R) × W
  unfolding claim
  handle_valid schedule input w =
      let (now, w₁) = env.now w in
      let (loaded, w₂) = env.load_profile input.brand_id w₁ in
      elim loaded [
        | err e ↦
            (err ("bp-orchestrator: loading the profile for " ^^ input.brand_id ^^ ": " ^^ e), w₂)
        | ok profile ↦
            let (claimed, w₃) = claim input (bucket_for input.trigger now) now w₂ in
            elim claimed [
              | err e ↦ (err e, w₃)
              | ok (run, mine) ↦
                  if mine
                  then (let (run', w₄) =
                        execute schedule input profile run (window_for input now) w₃ in
                      (ok run', w₄))
                  else (ok run, w₃)
            ]
      ]

  unfoldable pub handle : Schedule R → RunInput → W → Reply (RunRecord R) × W
  unfolding handle_valid
  handle schedule input w =
      if is_empty input.brand_id
      then (err "bp-orchestrator: RunInput.brand_id is required", w)
      else if is_empty input.trigger
      then (
        err "bp-orchestrator: RunInput.trigger is required, it is half of the idempotency key",
        w,
      )
      else handle_valid schedule input w
