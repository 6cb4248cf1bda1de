-- ===== src/Tests/Runs.antt =====
-- Runs of the pipeline at concrete inputs.
use mathlib.Core.List.{Permᴰ}
use brand_pulse.Prelude.{
  false, ◌<◌, ◌⊎◌, sort_stable, str_lt, ℕ, suc, ◌≤◌, ◌≡◌, ◌≢◌, refl, ◌↔◌, not, List, [], ◌∷◌, ◌++◌,
  map, length, none, some, unique_by, All, keep, Dict, lookup, thousandths, Thousandths,
}
use brand_pulse.Models.Labels.{run_status_running, run_status_ok, run_status_failed}
use brand_pulse.Models.Mention.{Mention, Enrichment}
use brand_pulse.Models.Run.{RunRecord}
use brand_pulse.Orchestrator.Env.{ok, Progress, Env}
use brand_pulse.Orchestrator.Sources.{fan_out_cap}
use brand_pulse.Orchestrator.Analysis.Enriched.{join_enrichments}
use brand_pulse.Orchestrator.Analysis.Join.{is_enriched, join_enrichments_partition}
use brand_pulse.Orchestrator.Pipeline.{execute, handle, Outcome, close}
use brand_pulse.Orchestrator.Pipeline.Claims.{IsHeld, handle_only_reads}
use brand_pulse.Orchestrator.Pipeline.Closing.{
  execute_finishes, execute_accounts_sources, late_failures_only_add_lines, failure_line,
}
use brand_pulse.Tests.Data.{
  noon, profile, post, reading, stored_run, env, schedule, window, on_demand,
}

execute_finishes_example :
    (final : RunRecord Thousandths) × (world : ℕ) × ((execute env schedule on_demand profile
        stored_run window 0).1
      ≡ (env.finish_run final world).1)
    × (final.status ≢ run_status_running)
    × (final.finished_at ≢ none)
    × (final.id ≡ stored_run.id)
    × (final.brand_id ≡ stored_run.brand_id)
    × (final.kind ≡ stored_run.kind)
    × (final.time_bucket ≡ stored_run.time_bucket)
execute_finishes_example = execute_finishes env schedule on_demand profile stored_run window 0

execute_accounts_sources_example :
    let record' = (execute env schedule on_demand profile stored_run window 0).0 in
    Permᴰ
      (record'.sources_attempted ++ record'.sources_skipped)
      (unique_by (λ s. s) profile.sources)
    × (length record'.sources_attempted ≤ fan_out_cap)
    × ((record'.degraded_reason ≡ "") ↔ (record'.sources_skipped ≡ []))
execute_accounts_sources_example =
    execute_accounts_sources env schedule on_demand profile stored_run window 0

abbrev Unchanged : ℕ → ℕ → Type 0
Unchanged before after = after ≡ before

-- a store that answers every claim with the stored row, and a world that only counts other calls
abbrev held : Env Thousandths ℕ
held = record env {
  now = λ n. (noon, n);
  load_profile = λ id n. (ok profile, n);
  new_id = λ kind n. ("run_2", n);
  claim_run = λ run n. (ok (stored_run, false), n);
}

handle_only_reads_example :
    (Unchanged 0 (handle held schedule on_demand 0).1)
    × IsHeld held on_demand (handle held schedule on_demand 0).0
handle_only_reads_example =
    handle_only_reads held schedule on_demand (Unchanged 0) (λ n h. h) (λ id n h. h) (λ kind n h. h)
      (λ run n h. h) (λ run n stored mine h. cc h) refl 0 refl

abbrev posts : List (Mention Thousandths)
posts = post "m1" "h1" "x" noon ∷ post "m2" "h2" "x" noon ∷ []

abbrev read : Dict (Enrichment Thousandths)
read = ("m1", reading "m1") ∷ []

join_enrichments_partition_example :
    (map (λ em. em.mention) (join_enrichments read posts).0 ≡ keep (is_enriched read) posts)
    × ((join_enrichments read posts).1
        ≡ map (λ x. x.id) (keep (λ x. not (is_enriched read x)) posts))
    × All (λ em. lookup em.mention.id read ≡ some em.enrichment) (join_enrichments read posts).0
join_enrichments_partition_example = join_enrichments_partition read posts

abbrev start : Progress Thousandths ℕ
start = record { world = 0; log = []; credits = 0; tokens = 0; paise = 0 }

abbrev no_yields : Env Thousandths ℕ
no_yields = record env { record_source_yield = λ id day runs n. (some "timeout", suc n) }

abbrev quiet : Outcome
quiet = record { chosen = "x" ∷ []; skipped = []; collected = 0; per_source = []; failed = 0 }

late_failures_only_add_lines_example :
    let record' = (close no_yields on_demand window stored_run quiet start).0 in
    let recorded =
      no_yields.record_source_yield on_demand.brand_id window.end quiet.per_source
        (no_yields.now start.world).1 in
    ((record'.status ≡ run_status_ok) ↔ (
      (start.log ≡ [])
      × (quiet.skipped ≡ [])
      × ((length quiet.chosen ≡ 0) ⊎ (quiet.failed ≢ length quiet.chosen))))
    × ((record'.status ≡ run_status_failed)
        ↔ ((0 < length quiet.chosen) × (quiet.failed ≡ length quiet.chosen)))
    × (final : RunRecord Thousandths) × (record'.errors
        ≡ (sort_stable str_lt start.log ++ failure_line "recording source yield" recorded.0)
          ++ failure_line "writing the runs row" (no_yields.finish_run final recorded.1).0)
late_failures_only_add_lines_example =
    late_failures_only_add_lines no_yields on_demand window stored_run quiet start
