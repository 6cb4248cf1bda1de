-- ===== src/Anakin/Fetch/Spending.antt =====
-- What a client counts as credits stays within what its budget granted.
use brand_pulse.Prelude.{
  not, ◌&&◌, leb, if◌then◌else◌, Bool, Option, none, some, ℕ, ◌≤◌, ◌<◌, ◌≡◌, Bool, List, [], ◌∷◌,
  none, some, lookup, arith,
}
use brand_pulse.Anakin.Budget.{BudgetError, new_budget, spend}
use brand_pulse.Anakin.Budget.Ceiling.{spend-ceiling, spend-IsCapped, spend-in_process}
use brand_pulse.Anakin.Fetch.{
  Mode, Client, FetchRequest, Answers, err, refused, cache_key, fetch, is_replay, replay,
}

-- The fields of Config that the client's behaviour depends on; a ceiling below 1 is 0.
pub record Config : Type 0 where
  pub mode : Mode
  pub has_api_key : Bool
  pub has_pool : Bool
  pub max_credits : ℕ

-- NewHTTPClient: `none` is its error. A replayed budget has no pool.
unfoldable pub new_client : Config → Option Client
unfolding new_budget
new_client cfg =
    if not (is_replay cfg.mode) && not cfg.has_api_key
    then none
    else if is_replay cfg.mode && leb cfg.max_credits 0
    then none
    else some (record {
      mode = cfg.mode;
      budget = new_budget (cfg.has_pool && not (is_replay cfg.mode)) cfg.max_credits;
      has_pool = cfg.has_pool;
      stats = record { credits_used = 0; cache_hits = 0 };
      memo = [];
    })

-- The credits counted are at most those reserved, and those are within the ceiling.
pub record IsWithin (ceiling : ℕ) (c : Client) : Type 0 where
  pub counted : c.stats.credits_used ≤ c.budget.in_process
  pub capped : c.budget.in_process ≤ c.budget.ceiling
  pub fixed : c.budget.ceiling ≡ ceiling

fetch-IsWithin :
    (ceiling : ℕ) (q : FetchRequest) (a : Answers) (c : Client)
    → 0 < ceiling
    → IsWithin ceiling c
    → IsWithin ceiling (fetch q a c).1
unfolding fetch
fetch-IsWithin ceiling q a c pos w = ground (
  arith,
  spend-in_process q.cost a.budget_reads c.budget,
  spend-IsCapped q.cost a.budget_reads c.budget,
  spend-ceiling q.cost a.budget_reads c.budget,
)

pub record FetchCall : Type 0 where
  pub request : FetchRequest
  pub answers : Answers

unfoldable pub fetch_all : List FetchCall → Client → Client
fetch_all [] c = c
fetch_all (k ∷ ks) c = fetch_all ks (fetch k.request k.answers c).1

fetch_all-IsWithin :
    (ceiling : ℕ) (ks : List FetchCall) (c : Client)
    → 0 < ceiling
    → IsWithin ceiling c
    → IsWithin ceiling (fetch_all ks c)
unfolding fetch_all
fetch_all-IsWithin ceiling [] c pos w = w
fetch_all-IsWithin ceiling (k ∷ ks) c pos w =
    fetch_all-IsWithin ceiling ks (fetch k.request k.answers c).1 pos
      (fetch-IsWithin ceiling k.request k.answers c pos w)

new_client-IsWithin :
    (cfg : Config) (c : Client) → new_client cfg ≡ some c → IsWithin cfg.max_credits c
unfolding new_client
new_client-IsWithin cfg c h = ground arith

-- Whatever a new client is asked to fetch, and whatever it is answered, the credits it reports
-- never pass the ceiling it was built with.
pub credits_used-le-ceiling :
    (cfg : Config) (c : Client) (ks : List FetchCall)
    → new_client cfg ≡ some c
    → 0 < cfg.max_credits
    → (fetch_all ks c).stats.credits_used ≤ cfg.max_credits
credits_used-le-ceiling cfg c ks built pos =
    let w = fetch_all-IsWithin cfg.max_credits ks c pos (new_client-IsWithin cfg c built) in
    omega (arith, w.counted, w.capped, w.fixed)

-- Where the budget refuses a request that is not in the client's memory, and the table is not used or has no row, the
-- fetch fails with that refusal: nothing is loaded, counted or remembered.
pub refused_loads_nothing :
    (q : FetchRequest) (a : Answers) (c : Client) {e : BudgetError}
    → lookup (cache_key q) c.memo ≡ none
    → a.cache_row ≡ some none
    → (spend q.cost a.budget_reads c.budget).0 ≡ some e
    → fetch q a c
      ≡ (err (refused e), record c { budget = (spend q.cost a.budget_reads c.budget).1 })
unfolding fetch
refused_loads_nothing q a c m row e = ground arith

-- In replay the table and the live API have no say: two sets of answers that agree on the budget
-- and on the fixture give the same result and the same client.
pub replay_is_offline :
    (q : FetchRequest) (a a' : Answers) (c : Client)
    → c.mode ≡ replay
    → a.budget_reads ≡ a'.budget_reads
    → a.fixture ≡ a'.fixture
    → fetch q a c ≡ fetch q a' c
unfolding fetch
replay_is_offline q a a' c m b f = ground arith
