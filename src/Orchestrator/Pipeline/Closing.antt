-- ===== src/Orchestrator/Pipeline/Closing.antt =====
-- How a run ends: what is written, under which status.
use mathlib.Core.List.{Permᴰ, append-nil}
use brand_pulse.Prelude.{
  sym, empty_of_length, length-perm, sort_stable-permᴰ, str_lt, sort_stable, ◌^^◌, List, [], ◌∷◌,
  ◌++◌, ◌∙◌, unique_by, ℕ, ◌≤◌, ◌<◌, ◌≡◌, ◌≢◌, refl, ap, ◌↔◌, ◌⊎◌, String, [], ◌++◌, length, Option,
  none, some, Float, eq_iff, pos, arith,
}
use brand_pulse.Models.Labels.{
  Time, run_status_running, run_status_ok, run_status_partial, run_status_failed,
}
use brand_pulse.Models.Brand.{BrandProfile}
use brand_pulse.Models.Run.{RunRecord}
use brand_pulse.Orchestrator.Env.{Env, Window, Progress, Schedule, RunInput}
use brand_pulse.Orchestrator.Sources.{choose_sources, fan_out_cap, degraded_reason}
use brand_pulse.Orchestrator.Sources.Ranking.{choose_sources_partition}
use brand_pulse.Orchestrator.Sources.Credits.{degraded_reason_iff}
use brand_pulse.Orchestrator.Collect.Order.{sorted_log}
use brand_pulse.Orchestrator.Pipeline.{
  final_status, Outcome, closed_run, close, execute, with_error, work, known_yields,
}

-- A run that tried sources and lost them all has failed. Any other is partial if it has an error
-- or a reason for being degraded, and ok if it has neither.
final_status_cases :
    {R : Type 0} (run : RunRecord R) (attempted failed : ℕ)
    → (final_status run attempted failed ≡ run_status_failed)
        × (0 < attempted)
        × (failed ≡ attempted)
      ⊎ (final_status run attempted failed ≡ run_status_partial)
        × ((attempted ≡ 0) ⊎ (failed ≢ attempted))
        × ((run.errors ≢ []) ⊎ (run.degraded_reason ≢ ""))
      ⊎ (final_status run attempted failed ≡ run_status_ok)
        × ((attempted ≡ 0) ⊎ (failed ≢ attempted))
        × (run.errors ≡ [])
        × (run.degraded_reason ≡ "")
unfolding final_status
final_status_cases run attempted failed = ground (arith, eq_iff run.degraded_reason "")

final_status-ne-running :
    {R : Type 0} (run : RunRecord R) (attempted failed : ℕ)
    → final_status run attempted failed ≢ run_status_running
unfolding final_status
final_status-ne-running run attempted failed = ground (
  arith,
  eq_iff run_status_failed run_status_running,
  eq_iff run_status_partial run_status_running,
  eq_iff run_status_ok run_status_running,
)

-- The two records are of one run, and have the same end and the same status.
pub record SameRun {R : Type 0} (a b : RunRecord R) : Type 0 where
  pub id : a.id ≡ b.id
  pub brand_id : a.brand_id ≡ b.brand_id
  pub kind : a.kind ≡ b.kind
  pub time_bucket : a.time_bucket ≡ b.time_bucket
  pub started_at : a.started_at ≡ b.started_at
  pub finished_at : a.finished_at ≡ b.finished_at
  pub status : a.status ≡ b.status
  pub chosen : a.sources_attempted ≡ b.sources_attempted
  pub skipped : a.sources_skipped ≡ b.sources_skipped
  pub reason : a.degraded_reason ≡ b.degraded_reason

with_error-SameRun :
    {R : Type 0} (doing : String) (e : Option String) (run : RunRecord R)
    → SameRun (with_error doing e run) run
with_error-SameRun doing none run = ground arith
with_error-SameRun doing (some e) run = ground arith

SameRun-trans : {R : Type 0} {a b c : RunRecord R} → SameRun a b → SameRun b c → SameRun a c
SameRun-trans s t = ground arith

-- the record of closed_run before its status and its end are set
abbrev spent_run : {R W : Type 0} → RunRecord R → Outcome → Progress R W → RunRecord R
spent_run run o p = record run {
  sources_attempted = o.chosen;
  sources_skipped = o.skipped;
  degraded_reason = degraded_reason o.skipped fan_out_cap;
  mentions_collected = o.collected;
  credits_used = p.credits;
  tokens_used = p.tokens;
  cost_paise = p.paise;
  errors = sorted_log p.log;
}

closed_run-keeps :
    {R W : Type 0} (run : RunRecord R) (o : Outcome) (p : Progress R W) (finished : Time)
    → ((closed_run run o p finished).status ≢ run_status_running)
      × ((closed_run run o p finished).finished_at ≢ none)
      × ((closed_run run o p finished).id ≡ run.id)
      × ((closed_run run o p finished).brand_id ≡ run.brand_id)
      × ((closed_run run o p finished).kind ≡ run.kind)
      × ((closed_run run o p finished).time_bucket ≡ run.time_bucket)
unfolding closed_run
closed_run-keeps run o p finished = (
  final_status-ne-running (spent_run run o p) (length o.chosen) o.failed,
  λ e. ground arith,
  refl,
  refl,
  refl,
  refl,
)

closed_run-sources :
    {R W : Type 0} (run : RunRecord R) (o : Outcome) (p : Progress R W) (finished : Time)
    → ((closed_run run o p finished).sources_attempted ≡ o.chosen)
      × ((closed_run run o p finished).sources_skipped ≡ o.skipped)
      × ((closed_run run o p finished).degraded_reason ≡ degraded_reason o.skipped fan_out_cap)
unfolding closed_run
closed_run-sources run o p finished = (refl, refl, refl)

final_status-ok_iff :
    {R : Type 0} (run : RunRecord R) (attempted failed : ℕ)
    → (final_status run attempted failed ≡ run_status_ok)
      ↔ ((run.errors ≡ []) × (run.degraded_reason ≡ "") × ((attempted ≡ 0) ⊎ (failed ≢ attempted)))
unfolding final_status
final_status-ok_iff run attempted failed = ground (
  arith,
  eq_iff run.degraded_reason "",
  eq_iff run_status_failed run_status_ok,
  eq_iff run_status_partial run_status_ok,
)

final_status-failed_iff :
    {R : Type 0} (run : RunRecord R) (attempted failed : ℕ)
    → (final_status run attempted failed ≡ run_status_failed)
      ↔ ((0 < attempted) × (failed ≡ attempted))
unfolding final_status
final_status-failed_iff run attempted failed =
    ground
      (arith, eq_iff run_status_partial run_status_failed, eq_iff run_status_ok run_status_failed)

sorted_log-empty_iff : (log : List String) → (sorted_log log ≡ []) ↔ (log ≡ [])
unfolding sorted_log sort_stable
sorted_log-empty_iff log = (
  λ e. empty_of_length log (sym (length-perm (sort_stable-permᴰ str_lt log)) ∙ ap length e),
  λ e. rw e refl,
)

closed_run-ok_iff :
    {R W : Type 0} (run : RunRecord R) (o : Outcome) (p : Progress R W) (finished : Time)
    → ((closed_run run o p finished).status ≡ run_status_ok)
      ↔ ((p.log ≡ []) × (o.skipped ≡ []) × ((length o.chosen ≡ 0) ⊎ (o.failed ≢ length o.chosen)))
unfolding closed_run
closed_run-ok_iff run o p finished =
    let whole = final_status-ok_iff (spent_run run o p) (length o.chosen) o.failed in
    let quiet = sorted_log-empty_iff p.log in
    let full = degraded_reason_iff o.skipped fan_out_cap in
    (
      λ e. let (a, b, c) = whole.0 e in (quiet.0 a, full.0 b, c),
      λ h. whole.1 (quiet.1 h.0, full.1 h.1, h.2),
    )

-- The line of a write that failed, or nothing.
abbrev pub failure_line : String → Option String → List String
failure_line doing none = []
failure_line doing (some e) = (doing ^^ ": " ^^ e) ∷ []

with_error-errors :
    {R : Type 0} (doing : String) (e : Option String) (run : RunRecord R)
    → (with_error doing e run).errors ≡ run.errors ++ failure_line doing e
with_error-errors doing none run = sym (append-nil run.errors)
with_error-errors doing (some e) run = refl

module _ {R W : Type 0} ⦃f : Float R⦄ (env : Env R W) where
  close_finishes :
      (input : RunInput) (w : Window) (run : RunRecord R) (o : Outcome) (p : Progress R W)
      → (final : RunRecord R) × (world : W) × ((close env input w run o p).1
          ≡ (env.finish_run final world).1)
        × SameRun final (closed_run run o p (env.now p.world).0)
        × SameRun (close env input w run o p).0 (closed_run run o p (env.now p.world).0)
  unfolding close
  close_finishes input w run o p =
      let closed = closed_run run o p (env.now p.world).0 in
      let recorded =
        env.record_source_yield input.brand_id w.end o.per_source (env.now p.world).1 in
      let final = with_error "recording source yield" recorded.0 closed in
      let same = with_error-SameRun "recording source yield" recorded.0 closed in
      (
        final,
        recorded.1,
        refl,
        same,
        SameRun-trans
            (with_error-SameRun "writing the runs row" (env.finish_run final recorded.1).0 final)
            same,
      )

  abbrev start_of : W → Progress R W
  start_of world = record { world = world; log = []; credits = 0; tokens = 0; paise = f.of_ℕ 0 }

  -- Whatever happened before, a run ends with FinishRun on a record that has an end and a status
  -- other than running; it keeps the id, brand, kind and bucket of the run that was claimed.
  pub execute_finishes :
      (schedule : Schedule R) (input : RunInput) (profile : BrandProfile) (run : RunRecord R)
      (w : Window) (world : W)
      → (final : RunRecord R) × (world' : W) × ((execute env schedule input profile run w world).1
          ≡ (env.finish_run final world').1)
        × (final.status ≢ run_status_running)
        × (final.finished_at ≢ none)
        × (final.id ≡ run.id)
        × (final.brand_id ≡ run.brand_id)
        × (final.kind ≡ run.kind)
        × (final.time_bucket ≡ run.time_bucket)
  unfolding execute
  execute_finishes schedule input profile run w world =
      let done = work env schedule input profile run.id w (start_of world) in
      let (final, world', e, same, _) = close_finishes input w run done.0 done.1 in
      let (s, t, i, b, k, u) = closed_run-keeps run done.0 done.1 (env.now done.1.world).0 in
      (final, world', e, (λ q. s (cc)), (λ q. t (cc)), cc, cc, cc, cc)

  work-sources :
      (schedule : Schedule R) (input : RunInput) (profile : BrandProfile) (run_id : String)
      (w : Window) (start : Progress R W)
      → let yields = (known_yields env input.brand_id w start).0 in
        ((work env schedule input profile run_id w start).0.chosen
          ≡ (choose_sources profile yields (pos fan_out_cap)).0)
        × ((work env schedule input profile run_id w start).0.skipped
            ≡ (choose_sources profile yields (pos fan_out_cap)).1)
  unfolding work
  work-sources schedule input profile run_id w start = (refl, refl)

  -- The record that a run returns accounts for the profile's distinct sources: each was attempted
  -- or skipped, at most eight were attempted, and there is a reason for being degraded just when
  -- one was skipped.
  pub execute_accounts_sources :
      (schedule : Schedule R) (input : RunInput) (profile : BrandProfile) (run : RunRecord R)
      (w : Window) (world : W)
      → let record' = (execute env schedule input profile run w world).0 in
        Permᴰ
          (record'.sources_attempted ++ record'.sources_skipped)
          (unique_by (λ s. s) profile.sources)
        × (length record'.sources_attempted ≤ fan_out_cap)
        × ((record'.degraded_reason ≡ "") ↔ (record'.sources_skipped ≡ []))
  unfolding execute
  execute_accounts_sources schedule input profile run w world =
      let start = start_of world in
      let done = work env schedule input profile run.id w start in
      let (_, _, _, _, same) = close_finishes input w run done.0 done.1 in
      let (a, s, d) = closed_run-sources run done.0 done.1 (env.now done.1.world).0 in
      let (c, k) = work-sources schedule input profile run.id w start in
      let yields = (known_yields env input.brand_id w start).0 in
      let (p, n) = choose_sources_partition profile yields (pos fan_out_cap) in
      let a' = same.chosen ∙ a ∙ c in
      let s' = same.skipped ∙ s ∙ k in
      (
        rw (a') (rw (s') p),
        omega (arith, ap length a', n),
        rw (same.reason ∙ d)
            (rw (same.skipped ∙ s) (degraded_reason_iff done.0.skipped fan_out_cap)),
      )

  -- Whatever the two writes of the end answer, the returned record is ok just when the log is empty,
  -- nothing was skipped and not every attempted source failed, and failed just when sources were
  -- attempted and all failed. Its errors are the log, sorted, then a line for each of the two
  -- writes that failed: recording the yields, and writing the row.
  pub late_failures_only_add_lines :
      (input : RunInput) (w : Window) (run : RunRecord R) (o : Outcome) (p : Progress R W)
      → let record' = (close env input w run o p).0 in
        let recorded =
          env.record_source_yield input.brand_id w.end o.per_source (env.now p.world).1 in
        ((record'.status ≡ run_status_ok) ↔ (
          (p.log ≡ []) × (o.skipped ≡ []) × ((length o.chosen ≡ 0) ⊎ (o.failed ≢ length o.chosen))))
        × ((record'.status ≡ run_status_failed)
            ↔ ((0 < length o.chosen) × (o.failed ≡ length o.chosen)))
        × (final : RunRecord R) × (record'.errors
            ≡ (sort_stable str_lt p.log ++ failure_line "recording source yield" recorded.0)
              ++ failure_line "writing the runs row" (env.finish_run final recorded.1).0)
  unfolding close closed_run sorted_log
  late_failures_only_add_lines input w run o p =
      let closed = closed_run run o p (env.now p.world).0 in
      let recorded =
        env.record_source_yield input.brand_id w.end o.per_source (env.now p.world).1 in
      let final = with_error "recording source yield" recorded.0 closed in
      let written = (env.finish_run final recorded.1).0 in
      let same =
        SameRun-trans (with_error-SameRun "writing the runs row" written final)
          (with_error-SameRun "recording source yield" recorded.0 closed) in
      let ok_iff = closed_run-ok_iff run o p (env.now p.world).0 in
      let failed_iff = final_status-failed_iff (spent_run run o p) (length o.chosen) o.failed in
      (
        (λ e. ok_iff.0 (sym same.status ∙ e), λ h. same.status ∙ ok_iff.1 h),
        (λ e. failed_iff.0 (sym same.status ∙ e), λ h. same.status ∙ failed_iff.1 h),
        final,
        with_error-errors "writing the runs row" written final
            ∙ ap (λ l. l ++ failure_line "writing the runs row" written)
                (with_error-errors "recording source yield" recorded.0 closed),
      )
