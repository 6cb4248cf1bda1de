-- ===== src/Orchestrator/Sources/Credits.antt =====
-- The even split never hands out more than the day's budget, and the reason is there exactly when
-- a source was skipped.
use brand_pulse.Prelude.{
  ℕ, ◌+◌, ◌*◌, ◌≤◌, ◌<◌, ◌≡◌, ◌↔◌, List, [], ◌∷◌, ℤ, pos_part, arith, length, append-ne-empty, itoa,
  join, suc,
}
use brand_pulse.Models.Labels.{Source}
use brand_pulse.Orchestrator.Sources.{degraded_reason, split_credits}

-- The shares of all sources together are at most the budget, and what is left over is less than
-- one credit for each source.
pub split_credits_bounds :
    (budget : ℤ) (sources : ℕ)
    → 0 < sources
    → (sources * split_credits budget sources ≤ pos_part budget)
      × (pos_part budget < sources * split_credits budget sources + sources)
unfolding split_credits
split_credits_bounds budget sources h = ground arith

-- The reason is empty exactly when nothing was skipped.
pub degraded_reason_iff :
    (skipped : List Source) (limit : ℕ) → (degraded_reason skipped limit ≡ "") ↔ (skipped ≡ [])
unfolding degraded_reason
degraded_reason_iff [] limit = ground arith
degraded_reason_iff (s ∷ rest) limit = (
  λ e. absurd (
      append-ne-empty _ (join ", " (s ∷ rest))
        (append-ne-empty _ " lowest-yielding: " (
          append-ne-empty _ (itoa (suc (length rest))) (
            append-ne-empty _ " sources, dropped the "
              (append-ne-empty "fan-out capped at " (itoa limit) (λ p. cc (p))))))
        e),
  λ e. cc,
)
