-- ===== src/Orchestrator/Sources.antt =====
-- agents/bp-orchestrator/sources.go: which sources a run calls, and which it drops.
pub mod Ranking
pub mod Credits
use brand_pulse.Prelude.{
  ℕ, zero, suc, ◌+◌, ◌/◌, Bool, true, false, ◌||◌, not, String, List, [], ◌∷◌, map, length, take,
  drop, leb, ◌==◌, str_lt, Float, Dict, lookup_or, unique_by, sort_stable, ℤ, pos, pos_part, join,
  itoa, ◌^^◌, if◌then◌else◌,
}
use brand_pulse.Models.Labels.{Source}
use brand_pulse.Models.Brand.{BrandProfile}

abbrev pub fan_out_cap : ℕ
fan_out_cap = 8

module _ {R : Type 0} ⦃f : Float R⦄ where
  -- yields[source]: 0 for a source with no row from yesterday
  unfoldable pub yield_of : Dict R → Source → R
  yield_of yields s = lookup_or (f.of_ℕ 0) s yields

  -- the sort's less function: a higher yield first, then the name
  unfoldable pub ranks_before : Dict R → Source → Source → Bool
  unfolding yield_of
  ranks_before yields a b =
      if not (f.eq (yield_of yields a) (yield_of yields b))
      then f.lt (yield_of yields b) (yield_of yields a)
      else str_lt a b

  unfoldable pub ranked : BrandProfile → Dict R → List Source
  ranked profile yields = sort_stable (ranks_before yields) (unique_by (λ s. s) profile.sources)

  -- chooseSources: the chosen and the skipped. The slices of a list no longer than the limit
  -- are the list and the empty list, as the early return gives them.
  unfoldable pub choose_sources : BrandProfile → Dict R → ℤ → List Source × List Source
  choose_sources profile yields limit =
      let sources = ranked profile yields in
      if leb (length sources) (pos_part limit)
      then (sources, [])
      else (take (pos_part limit) sources, drop (pos_part limit) sources)

-- degradedReason
unfoldable pub degraded_reason : List Source → ℕ → String
degraded_reason [] limit = ""
degraded_reason (s ∷ rest) limit =
    "fan-out capped at "
    ^^ itoa limit
    ^^ " sources, dropped the "
    ^^ itoa (length (s ∷ rest))
    ^^ " lowest-yielding: "
    ^^ join ", " (s ∷ rest)

-- splitCredits
unfoldable pub split_credits : ℤ → ℕ → ℕ
split_credits budget sources =
    if sources == 0 || leb (pos_part budget) 0 then 0 else pos_part budget / sources
