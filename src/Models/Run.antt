-- ===== src/Models/Run.antt =====
-- internal/models/models.go: one pipeline execution.
use brand_pulse.Prelude.{
  ℕ, ◌||◌, String, List, [], Option, none, some, is_empty, ◌^^◌, Float, if◌then◌else◌,
}
use brand_pulse.Models.Labels.{Source, RunKind, RunStatus, Time, run_status_running}

pub record RunRecord (R : Type 0) : Type 0 where
  pub id : String
  pub brand_id : String
  pub kind : RunKind
  pub time_bucket : String
  pub started_at : Time
  pub finished_at : Option Time
  pub status : RunStatus
  pub credits_used : ℕ
  pub tokens_used : ℕ
  pub cost_paise : R
  pub sources_attempted : List Source
  pub sources_skipped : List Source
  pub degraded_reason : String
  pub mentions_collected : ℕ
  pub errors : List String

unfoldable pub new_run_record :
    {R : Type 0} ⦃f : Float R⦄ → String → String → RunKind → String → Time → RunRecord R
new_run_record ⦃f⦄ id brand_id kind time_bucket started_at = record {
  id = id;
  brand_id = brand_id;
  kind = kind;
  time_bucket = time_bucket;
  started_at = started_at;
  finished_at = none;
  status = run_status_running;
  credits_used = 0;
  tokens_used = 0;
  cost_paise = f.of_ℕ 0;
  sources_attempted = [];
  sources_skipped = [];
  degraded_reason = "";
  mentions_collected = 0;
  errors = [];
}

unfoldable pub validate_run : {R : Type 0} → RunRecord R → Option String
validate_run r =
    if is_empty r.id || is_empty r.brand_id
    then some "models: RunRecord.id and brand_id are required"
    else if is_empty r.time_bucket
    then some "models: RunRecord.time_bucket is required, it backs the unique constraint"
    else if is_empty r.status
    then some ("models: RunRecord \"" ^^ r.id ^^ "\" has no status")
    else none
