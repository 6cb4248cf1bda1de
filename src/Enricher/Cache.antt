-- ===== src/Enricher/Cache.antt =====
-- agents/bp-enricher/handler.go: the memory of what was classified, by brand and content hash. Each
-- operation holds the mutex throughout.
use brand_pulse.Prelude.{
  String, List, [], ◌∷◌, Option, none, some, Dict, lookup_or, insert_key, is_empty, Float, ◌^^◌,
  if◌then◌else◌,
}
use brand_pulse.Prelude
use brand_pulse.Models.Mention.{Mention, Enrichment}

-- cacheKey
unfoldable pub cache_key : {R : Type 0} → Mention R → String
cache_key m = m.brand_id ^^ "\0" ^^ m.content_hash

module _ {R : Type 0} where
  -- the key of each mention of the batch that has a hash
  unfoldable pub keys_of : List (Mention R) → Dict String → Dict String
  unfolding cache_key
  keys_of [] keys = keys
  keys_of (m ∷ ms) keys =
      keys_of ms (if is_empty m.content_hash then keys else insert_key m.id (cache_key m) keys)

  unfoldable pub store_each :
      Dict String → List (Enrichment R) → Dict (Enrichment R) → Dict (Enrichment R)
  unfolding lookup_or
  store_each keys [] cached = cached
  store_each keys (e ∷ es) cached =
      let key = lookup_or "" e.mention_id keys in
      store_each keys es (if is_empty key then cached else insert_key key e cached)

  -- store
  unfoldable pub store :
      List (Mention R) → List (Enrichment R) → Dict (Enrichment R) → Dict (Enrichment R)
  unfolding keys_of store_each
  store batch enrichments cached = store_each (keys_of batch []) enrichments cached

  -- lookup
  unfoldable pub recall : ⦃f : Float R⦄ → Mention R → Dict (Enrichment R) → Option (Enrichment R)
  unfolding cache_key
  recall ⦃f⦄ m cached =
      if is_empty m.content_hash then none else elim (Prelude.lookup (cache_key m) cached) [
        | none ↦ none
        | some hit ↦ some (record hit { mention_id = m.id; cost_paise = f.of_ℕ 0 })
      ]
