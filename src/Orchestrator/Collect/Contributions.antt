-- ===== src/Orchestrator/Collect/Contributions.antt =====
-- What one source adds to a run, whatever was collected before it.
use mathlib.Core.List.{append_assoc, append-nil}
use brand_pulse.Prelude.{
  ℕ, ◌+◌, ◌≡◌, ◌∙◌, not, ◌&&◌, String, List, [], ◌∷◌, ◌++◌, map, length, itoa, ◌^^◌, if◌then◌else◌,
  concat_map, sum_map, arith,
}
use brand_pulse.Models.Labels.{Source}
use brand_pulse.Models.Mention.{Mention}
use brand_pulse.Models.Wire.{CollectInput, MentionBatch}
use brand_pulse.Orchestrator.Env.{Reply, ok, err, SourceRun, Env}
use brand_pulse.Orchestrator.Collect.{Collected, is_nil, label, absorb, collect_each}

module _ {R : Type 0} where
  abbrev pub mentions_of : Reply (MentionBatch R) → List (Mention R)
  mentions_of (err e) = []
  mentions_of (ok batch) = batch.mentions

  abbrev pub runs_of : Source → Reply (MentionBatch R) → List SourceRun
  runs_of source (err e) = []
  runs_of source (ok batch) =
      record { source = source; mentions = length batch.mentions; credits = batch.credits_used }
      ∷ []

  -- A dead source: a failed call, or a batch of errors and no mentions.
  abbrev pub failed_of : Reply (MentionBatch R) → ℕ
  failed_of (err e) = 1
  failed_of (ok batch) = if not (is_nil batch.errors) && is_nil batch.mentions then 1 else 0

  abbrev pub errors_of : Source → ℕ → Reply (MentionBatch R) → List String
  errors_of source ceiling (err e) = (label source ^^ e) ∷ []
  errors_of source ceiling (ok batch) =
      map (λ e. label source ^^ e) batch.errors
      ++ (if batch.truncated
          then (label source ^^ "stopped at the credit ceiling of " ^^ itoa ceiling) ∷ []
          else [])

  abbrev pub credits_of : Reply (MentionBatch R) → ℕ
  credits_of (err e) = 0
  credits_of (ok batch) = batch.credits_used

  abbrev extend :
      List (Mention R) → List SourceRun → ℕ → List String → ℕ → Collected R → Collected R
  extend mentions runs failed errors credits c = record {
    mentions = c.mentions ++ mentions;
    per_source = c.per_source ++ runs;
    failed = c.failed + failed;
    errors = c.errors ++ errors;
    credits = c.credits + credits;
  }

  extend-extend :
      (ms ms' : List (Mention R)) (rs rs' : List SourceRun) (es es' : List String) (f f' k k' : ℕ)
      (c : Collected R)
      → extend ms' rs' f' es' k' (extend ms rs f es k c)
        ≡ extend (ms ++ ms') (rs ++ rs') (f + f') (es ++ es') (k + k') c
  extend-extend ms ms' rs rs' es es' f f' k k' c = ground (
    arith,
    append_assoc c.mentions ms ms',
    append_assoc c.per_source rs rs',
    append_assoc c.errors es es',
  )

  absorb-extends :
      (source : Source) (ceiling : ℕ) (r : Reply (MentionBatch R)) (c : Collected R)
      → absorb source ceiling r c
        ≡ extend
            (mentions_of r)
            (runs_of source r)
            (failed_of r)
            (errors_of source ceiling r)
            (credits_of r)
            c
  unfolding absorb
  absorb-extends source ceiling (err e) c =
      ground (arith, append-nil c.mentions, append-nil c.per_source)
  absorb-extends source ceiling (ok batch) c = ground (
    arith,
    append_assoc c.errors (map (λ e. label source ^^ e) batch.errors)
        ((label source ^^ "stopped at the credit ceiling of " ^^ itoa ceiling) ∷ []),
    append-nil (map (λ e. label source ^^ e) batch.errors),
  )

module _ {R W : Type 0} (env : Env R W) (answer : CollectInput → Reply (MentionBatch R)) where
  -- The collectors answer from their input alone, whenever they are called.
  abbrev pub IsSteady : Type 0
  IsSteady = (input : CollectInput) (w : W) → (env.call_collector input w).0 ≡ answer input

  module _ (input : Source → CollectInput) (ceiling : ℕ) where
    abbrev result_of : Source → Reply (MentionBatch R)
    result_of s = answer (input s)

    pub collect_each-extends :
        IsSteady
        → (order : List Source) (c : Collected R) (w : W)
        → (collect_each env input ceiling order c w).0
          ≡ extend
              (concat_map (λ s. mentions_of (result_of s)) order)
              (concat_map (λ s. runs_of s (result_of s)) order)
              (sum_map (λ s. failed_of (result_of s)) order)
              (concat_map (λ s. errors_of s ceiling (result_of s)) order)
              (sum_map (λ s. credits_of (result_of s)) order)
              c
    unfolding collect_each concat_map sum_map
    collect_each-extends steady [] c w =
        ground (arith, append-nil c.mentions, append-nil c.per_source, append-nil c.errors)
    collect_each-extends steady (s ∷ rest) c w =
        collect_each-extends steady rest (absorb s ceiling (env.call_collector (input s) w).0 c)
          (env.call_collector (input s) w).1
        ∙ rw (steady (input s) w, absorb-extends s ceiling (result_of s) c)
            (extend-extend (mentions_of (result_of s)) _ (runs_of s (result_of s)) _
              (errors_of s ceiling (result_of s)) _ (failed_of (result_of s)) _
              (credits_of (result_of s)) _ c)
