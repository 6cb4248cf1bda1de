-- ===== src/Tests/Sources.antt =====
-- The choice of sources and the parallel collection at concrete inputs.
use mathlib.Core.List.{Permᴰ}
use mathlib.Core.List.Memᴰ
use brand_pulse.Prelude.{
  ℕ, ◌≡◌, refl, List, [], ◌∷◌, Dict, All, pos, concat_map, sym, ◌∙◌, Thousandths, thousandths,
  thousandths-IsOrdered,
}
use brand_pulse.Models.Labels.{Source}
use brand_pulse.Models.Brand.{BrandProfile}
use brand_pulse.Models.Mention.{Mention}
use brand_pulse.Orchestrator.Env.{Progress}
use brand_pulse.Orchestrator.Sources.{choose_sources}
use brand_pulse.Orchestrator.Sources.Ranking.{Outranks, chosen_outrank_skipped}
use brand_pulse.Orchestrator.Collect.{collect, collect_input}
use brand_pulse.Orchestrator.Collect.Contributions.{mentions_of}
use brand_pulse.Orchestrator.Collect.Order.{AreIdentified, collect_order_free, sorted_log}
use brand_pulse.Tests.Data.{profile, env, answer, window}

abbrev yields : Dict Thousandths
yields = ("reddit", 2000) ∷ []

abbrev reversed : BrandProfile
reversed = record profile { sources = "reddit" ∷ "x" ∷ [] }

chosen_outrank_skipped_example :
    All
      (λ c. All (λ s. Outranks yields c s) (choose_sources profile yields (pos 1)).1)
      (choose_sources profile yields (pos 1)).0
chosen_outrank_skipped_example = chosen_outrank_skipped profile yields (pos 1) thousandths-IsOrdered

abbrev start : Progress Thousandths ℕ
start = record { world = 0; log = []; credits = 0; tokens = 0; paise = 0 }

abbrev results : List Source → List (Mention Thousandths)
results sources =
    concat_map (λ s. mentions_of (answer (collect_input env profile window "run_1" 50 s))) sources

one_mention :
    AreIdentified
      (λ s. answer (collect_input env profile window "run_1" 50 s))
      ("x" ∷ "reddit" ∷ [])
unfolding collect_input concat_map
one_mention a b i j t e = Memᴰ.eq_of_singleton i ∙ sym (Memᴰ.eq_of_singleton j)

collect_order_free_example :
    let (r, q) = collect env profile ("x" ∷ "reddit" ∷ []) window "run_1" 50 start in
    let (r', q') = collect env profile ("reddit" ∷ "x" ∷ []) window "run_1" 50 start in
    (r.0 ≡ r'.0)
    × (r.1 ≡ r'.1)
    × (r.2 ≡ r'.2)
    × (q.credits ≡ q'.credits)
    × (sorted_log q.log ≡ sorted_log q'.log)
collect_order_free_example =
    collect_order_free env answer profile window "run_1" 50 start (λ input w. refl) one_mention
      (Permᴰ.swap refl refl)
