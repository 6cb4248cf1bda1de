-- ===== src/Tests/Anakin.antt =====
-- The credit ceiling, the cache and the retries at concrete inputs.
use brand_pulse.Prelude.{
  ℕ, ◌+◌, ◌≤◌, ◌≡◌, refl, true, false, List, [], ◌∷◌, Option, none, some, arith, lookup, not,
}
use brand_pulse.Anakin.Budget.{Budget, Reads, new_budget, spend, BudgetError}
use brand_pulse.Anakin.Budget.Ceiling.{SpendCall, granted, granted-le-ceiling}
use brand_pulse.Anakin.Fetch.{Client, FetchRequest, Answers, Mode, is_replay, live, fetch, ok}
use brand_pulse.Anakin.Fetch.Hits.{refetch_is_free}
use brand_pulse.Anakin.Fetch.Spending.{
  Config, new_client, FetchCall, fetch_all, credits_used-le-ceiling,
}

abbrev silent : Reads
silent = record { daily_budget = none; spent = none; spent_again = none }

abbrev seven_spent : Reads
seven_spent = record { daily_budget = none; spent = some 7; spent_again = some 8 }

abbrev calls : List SpendCall
calls = record { credits = 6; reads = silent } ∷ record { credits = 5; reads = silent } ∷ []

granted-le-ceiling_example : granted calls (new_budget false 10) ≤ 10
granted-le-ceiling_example = granted-le-ceiling false 10 calls (omega arith)

abbrev spent_three : Option BudgetError × Budget
spent_three = spend 3 seven_spent (new_budget true 10)

abbrev refused_four : Option BudgetError × Budget
refused_four = spend 4 seven_spent (new_budget true 10)

abbrev query : FetchRequest
query = record { source = "reddit"; query_hash = "abc"; time_bucket = "2026-09-20T12"; cost = 3 }

abbrev from_api : Answers
from_api = record {
  cache_row = some none;
  budget_reads = record { daily_budget = none; spent = some 7; spent_again = some 7 };
  fixture = none;
  api = some "{}";
  fixture_written = true;
  cache_written = true;
}

abbrev config : Mode → ℕ → Config
config mode ceiling = record {
  mode = mode;
  has_api_key = true;
  has_pool = true;
  max_credits = ceiling;
}

abbrev client : Mode → ℕ → Client
client mode ceiling = record {
  mode = mode;
  budget = record {
    has_pool = not (is_replay mode);
    ceiling = ceiling;
    persisted = 0;
    in_process = 0;
    loaded = false;
  };
  has_pool = true;
  stats = record { credits_used = 0; cache_hits = 0 };
  memo = [];
}

abbrev two_fetches : List FetchCall
two_fetches =
    record { request = query; answers = from_api }
    ∷ record { request = record query { query_hash = "def" }; answers = from_api }
    ∷ []

credits_used-le-ceiling_example : (fetch_all two_fetches (client live 10)).stats.credits_used ≤ 10
unfolding new_client new_budget
credits_used-le-ceiling_example =
    credits_used-le-ceiling (config live 10) (client live 10) two_fetches refl (omega arith)

abbrev paid : Client
paid = (fetch query from_api (client live 10)).1

refetch_is_free_example : fetch query from_api paid ≡ (
  ok "{}",
  record paid { stats = record paid.stats { cache_hits = paid.stats.cache_hits + 1 } },
)
unfolding fetch spend lookup
refetch_is_free_example = refetch_is_free query from_api from_api (client live 10) refl
