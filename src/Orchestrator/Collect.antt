-- ===== src/Orchestrator/Collect.antt =====
-- agents/bp-orchestrator/pipeline.go, step 4: one collector call for each source, in parallel, and
-- what its result adds to the run. The calls are made in the order of the schedule.
pub mod Contributions
pub mod Order
use brand_pulse.Prelude.{
  ℕ, suc, ◌+◌, Bool, true, false, not, ◌&&◌, String, List, [], ◌∷◌, ◌++◌, map, length, ◌==◌, ltb,
  str_lt, str_eq, sort_stable, itoa, ◌^^◌, if◌then◌else◌,
}
use brand_pulse.Models.Labels.{Source, Time}
use brand_pulse.Models.Brand.{BrandProfile}
use brand_pulse.Models.Mention.{Mention}
use brand_pulse.Models.Wire.{CollectInput, MentionBatch}
use brand_pulse.Orchestrator.Env.{Reply, ok, err, SourceRun, Env, Window, Progress}

-- What the goroutines add to under the lock; `errors` and `credits` are the run's own.
pub record Collected (R : Type 0) : Type 0 where
  pub mentions : List (Mention R)
  pub per_source : List SourceRun
  pub failed : ℕ
  pub errors : List String
  pub credits : ℕ

abbrev pub is_nil {ℓ} : {A : Type ℓ} → List A → Bool
is_nil [] = true
is_nil (_ ∷ _) = false

abbrev pub label : Source → String
label source = "bp-collector(" ^^ source ^^ "): "

unfoldable pub source_run_before : SourceRun → SourceRun → Bool
source_run_before a b = str_lt a.source b.source

module _ {R : Type 0} where
  -- The part of the goroutine that holds the lock.
  unfoldable pub absorb : Source → ℕ → Reply (MentionBatch R) → Collected R → Collected R
  absorb source ceiling (err e) c = record c {
    failed = suc c.failed;
    errors = c.errors ++ (label source ^^ e) ∷ [];
  }
  absorb source ceiling (ok batch) c =
      let reported = c.errors ++ map (λ e. label source ^^ e) batch.errors in
      record {
        mentions = c.mentions ++ batch.mentions;
        per_source =
            c.per_source
            ++ record {
              source = source;
              mentions = length batch.mentions;
              credits = batch.credits_used;
            }
              ∷ [];
        failed =
            if not (is_nil batch.errors) && is_nil batch.mentions then suc c.failed else c.failed;
        errors =
            if batch.truncated
            then reported
              ++ (label source ^^ "stopped at the credit ceiling of " ^^ itoa ceiling) ∷ []
            else reported;
        credits = c.credits + batch.credits_used;
      }

  -- sortMentions
  unfoldable pub mention_before : Mention R → Mention R → Bool
  mention_before a b =
      if not (a.posted_at == b.posted_at) then ltb a.posted_at b.posted_at else str_lt a.id b.id

  -- The two sorts after the group is done.
  unfoldable settle : Collected R → Collected R
  unfolding mention_before source_run_before
  settle c = record c {
    mentions = sort_stable mention_before c.mentions;
    per_source = sort_stable source_run_before c.per_source;
  }

module _ {R W : Type 0} (env : Env R W) where
  unfoldable pub collect_input : BrandProfile → Window → String → ℕ → Source → CollectInput
  collect_input profile w run_id ceiling source = record {
    profile = profile;
    source = source;
    window_start = w.start;
    window_end = w.end;
    max_credits = ceiling;
    run_id = run_id;
  }

  -- The goroutines, in the order in which they take the lock.
  unfoldable pub collect_each :
      (Source → CollectInput) → ℕ → List Source → Collected R → W → Collected R × W
  unfolding absorb
  collect_each input ceiling [] c w = (c, w)
  collect_each input ceiling (source ∷ rest) c w =
      let (reply, w') = env.call_collector (input source) w in
      collect_each input ceiling rest (absorb source ceiling reply c) w'

  -- collect: the mentions, the yields and the count of failures of a run
  unfoldable pub collect :
      BrandProfile
      → List Source
      → Window
      → String
      → ℕ
      → Progress R W
      → (List (Mention R) × List SourceRun × ℕ) × Progress R W
  unfolding collect_each settle collect_input
  collect profile order w run_id ceiling p =
      let (c, w') =
        collect_each (collect_input profile w run_id ceiling) ceiling order
          (record {
            mentions = [];
            per_source = [];
            failed = 0;
            errors = p.log;
            credits = p.credits;
          })
          p.world in
      let c' = settle c in
      (
        (c'.mentions, c'.per_source, c'.failed),
        record p { world = w'; log = c'.errors; credits = c'.credits },
      )
