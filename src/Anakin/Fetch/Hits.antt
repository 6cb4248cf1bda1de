-- ===== src/Anakin/Fetch/Hits.antt =====
-- A cache hit costs nothing, and what was fetched once is a hit from then on.
use brand_pulse.Prelude.{◌+◌, ◌≡◌, true, none, some, lookup, lookup-insert_key, eq_iff, arith}
use brand_pulse.Anakin.Fetch.{Client, FetchRequest, Answers, Payload, ok, replay, cache_key, fetch}

-- With the key in the client's memory, a fetch returns the remembered bytes and changes nothing
-- but the count of hits, whatever the table, the budget and the API would have answered.
memo_hit_is_free :
    (q : FetchRequest) (a : Answers) (c : Client) {p : Payload}
    → lookup (cache_key q) c.memo ≡ some p
    → fetch q a c
      ≡ (ok p, record c { stats = record c.stats { cache_hits = c.stats.cache_hits + 1 } })
unfolding fetch
memo_hit_is_free q a c h = ground arith

-- A row of the table is returned as it is, and spends and counts no credit.
table_hit_is_free :
    (q : FetchRequest) (a : Answers) (c : Client) {p : Payload}
    → lookup (cache_key q) c.memo ≡ none
    → (c.mode ≡ replay → ⊥)
    → c.has_pool ≡ true
    → a.cache_row ≡ some (some p)
    → ((fetch q a c).0 ≡ ok p)
      × ((fetch q a c).1.budget ≡ c.budget)
      × ((fetch q a c).1.stats.credits_used ≡ c.stats.credits_used)
unfolding fetch
table_hit_is_free q a c h m pool row = ground arith

fetch-remembers :
    (q : FetchRequest) (a : Answers) (c : Client) {p : Payload}
    → (fetch q a c).0 ≡ ok p
    → lookup (cache_key q) (fetch q a c).1.memo ≡ some p
unfolding fetch
fetch-remembers q a c {p} h = ground (
  arith,
  eq_iff (cache_key q) (cache_key q),
  lookup-insert_key (cache_key q) (cache_key q) p c.memo,
)

-- Once a fetch has succeeded, the same request is answered from the client's memory: the same
-- bytes, the budget and the credit count untouched, whatever anything else would answer.
pub refetch_is_free :
    (q : FetchRequest) (a a' : Answers) (c : Client) {p : Payload}
    → (fetch q a c).0 ≡ ok p
    → let c' = (fetch q a c).1 in
      fetch q a' c'
      ≡ (ok p, record c' { stats = record c'.stats { cache_hits = c'.stats.cache_hits + 1 } })
refetch_is_free q a a' c h = memo_hit_is_free q a' (fetch q a c).1 (fetch-remembers q a c h)
