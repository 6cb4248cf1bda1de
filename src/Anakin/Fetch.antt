-- ===== src/Anakin/Fetch.antt =====
-- internal/anakin/http.go, fetch and load, and cache.go: the memory of one client, the fetch_cache
-- table, the budget, and then the bytes. What Postgres, the fixtures and the live API answer is an
-- argument, one reply for each question that the call can ask.
pub mod Hits
pub mod Spending
use brand_pulse.Prelude.{
  ℕ, ◌+◌, Bool, true, false, ◌&&◌, not, String, Option, none, some, Dict, lookup, insert_key,
  if◌then◌else◌, ◌^^◌,
}
use brand_pulse.Models.Labels.{Source}
use brand_pulse.Anakin.Budget.{Budget, BudgetError, Reads, spend}

pub data Mode : Type 0 where
  replay recording live : Mode

abbrev pub is_replay : Mode → Bool
is_replay replay = true
is_replay _ = false

-- The JSON bytes, as they arrived.
abbrev pub Payload : Type 0
Payload = String

pub record Stats : Type 0 where
  pub credits_used : ℕ
  pub cache_hits : ℕ

pub record Client : Type 0 where
  pub mode : Mode
  pub budget : Budget
  pub has_pool : Bool
  pub stats : Stats
  pub memo : Dict Payload

pub record FetchRequest : Type 0 where
  pub source : Source
  pub query_hash : String
  pub time_bucket : String
  pub cost : ℕ

-- What a call can fail with: reading the cache row, the budget, the fixture or the live call,
-- writing the fixture, writing the cache row.
pub data FetchFailure : Type 0 where
  cache_unread : FetchFailure
  refused : BudgetError → FetchFailure
  not_loaded fixture_unwritten cache_unwritten : FetchFailure

pub data Result (A : Type 0) : Type 0 where
  ok : A → Result A
  err : FetchFailure → Result A

-- `cache_row` is `none` if the query fails and `some none` if there is no row. `fixture` and
-- `api` are `none` if reading the file or the live call fails.
pub record Answers : Type 0 where
  pub cache_row : Option (Option Payload)
  pub budget_reads : Reads
  pub fixture : Option Payload
  pub api : Option Payload
  pub fixture_written : Bool
  pub cache_written : Bool

-- The separator is the zero byte.
unfoldable pub cache_key : FetchRequest → String
cache_key q = q.source ^^ "\0" ^^ q.query_hash ^^ "\0" ^^ q.time_bucket

recall : String → Client → Option Payload
recall key c = lookup key c.memo

remember : String → Payload → Client → Client
remember key payload c = record c { memo = insert_key key payload c.memo }

count_cache_hit : Client → Client
count_cache_hit c = record c { stats = record c.stats { cache_hits = c.stats.cache_hits + 1 } }

count_credits : ℕ → Client → Client
count_credits n c = record c { stats = record c.stats { credits_used = c.stats.credits_used + n } }

-- httpClient.load
unfoldable load : Mode → Answers → Result Payload
load replay a = elim a.fixture [ none ↦ err not_loaded | some p ↦ ok p ]
load live a = elim a.api [ none ↦ err not_loaded | some p ↦ ok p ]
load recording a = elim a.api [
  | none ↦ err not_loaded
  | some p ↦ if a.fixture_written then ok p else err fixture_unwritten
]

-- Replay is cut off from the table.
uses_table : Client → Bool
uses_table c = not (is_replay c.mode) && c.has_pool

-- the bytes are in hand: the cache row, the memory and the credit count
unfoldable settle : FetchRequest → Answers → Payload → Client → Result Payload × Client
unfolding uses_table remember count_credits
settle q a payload c =
    if uses_table c && not a.cache_written
    then (err cache_unwritten, c)
    else (ok payload, count_credits q.cost (remember (cache_key q) payload c))

-- the budget, then the bytes
unfoldable fetch_paid : FetchRequest → Answers → Client → Result Payload × Client
unfolding settle load
fetch_paid q a c =
    let (e, b) = spend q.cost a.budget_reads c.budget in
    let c₁ = record c { budget = b } in
    elim e [
      | some e ↦ (err (refused e), c₁)
      | none ↦ elim (load c.mode a) [ err f ↦ (err f, c₁) | ok p ↦ settle q a p c₁ ]
    ]

-- the fetch_cache row, where the table is used at all
unfoldable fetch_unremembered : FetchRequest → Answers → Client → Result Payload × Client
unfolding uses_table remember count_cache_hit fetch_paid
fetch_unremembered q a c =
    if uses_table c
    then elim a.cache_row [
      | none ↦ (err cache_unread, c)
      | some row ↦ elim row [
        | none ↦ fetch_paid q a c
        | some p ↦ (ok p, count_cache_hit (remember (cache_key q) p c))
      ]
    ]
    else fetch_paid q a c

-- httpClient.fetch
unfoldable pub fetch : FetchRequest → Answers → Client → Result Payload × Client
unfolding recall count_cache_hit fetch_unremembered
fetch q a c = elim (recall (cache_key q) c) [
  | some p ↦ (ok p, count_cache_hit c)
  | none ↦ fetch_unremembered q a c
]
