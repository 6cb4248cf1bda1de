-- ===== src/Collector/Dedupe.antt =====
-- What a collected batch holds: each new hash once.
use brand_pulse.Prelude.{
  length, ◌↔◌, ◌≡◌, ◌≢◌, ◌⊎◌, inl, inr, Bool, true, false, not, String, List, [], ◌∷◌, map, Memᴰ,
  Option, none, contains, Bool-cases, Option-cases, HasUniqueKeys, HasKey, unique_by-HasUniqueKeys,
  unique_by-mem, unique_by-covers, HasUniqueKeys-keep, keep-mem, mem-keep, arith,
}
use brand_pulse.Models.Mention.{Mention}
use brand_pulse.Models.Wire.{CollectInput}
use brand_pulse.Collector.{
  Deps, hash_of, dedupe, unstored, without_stored, stopped_on_budget, handle,
}

module _ {R : Type 0} where
  abbrev is_new : List String → Mention R → Bool
  is_new stored m = not (contains m.content_hash stored)

  -- Of what was fetched, the mentions that are left have different hashes, none of them stored;
  -- each was fetched; and each hash that was fetched and is not stored is left once.
  pub unstored-dedupe :
      (stored : List String) (fetched : List (Mention R))
      → HasUniqueKeys hash_of (unstored stored (dedupe fetched))
        × ((m : Mention R)
            → Memᴰ m (unstored stored (dedupe fetched))
            → Memᴰ m fetched × (contains m.content_hash stored ≡ false))
        × ((m : Mention R)
            → Memᴰ m fetched
            → contains m.content_hash stored ≡ false
            → HasKey hash_of m.content_hash (unstored stored (dedupe fetched)))
  unfolding dedupe unstored
  unstored-dedupe stored fetched = (
    HasUniqueKeys-keep hash_of (is_new stored) (dedupe fetched)
        (unique_by-HasUniqueKeys hash_of fetched),
    (λ m i.
        let (j, e) = keep-mem (is_new stored) (dedupe fetched) m i in
        (unique_by-mem hash_of fetched m j, ground arith)),
    λ m i e.
        let (a, j, q) = unique_by-covers hash_of fetched m i in
        (a, mem-keep (is_new stored) (dedupe fetched) a j (ground (arith, q)), q),
  )

  dedupe-HasUniqueKeys : (fetched : List (Mention R)) → HasUniqueKeys hash_of (dedupe fetched)
  unfolding dedupe
  dedupe-HasUniqueKeys fetched = unique_by-HasUniqueKeys hash_of fetched

module _ {R W : Type 0} (deps : Deps R W) where
  without_stored-HasUniqueKeys :
      (brand_id : String) (batch : List (Mention R)) (w : W)
      → HasUniqueKeys hash_of batch
      → HasUniqueKeys hash_of (without_stored deps brand_id batch w).0.0
  unfolding without_stored unstored
  without_stored-HasUniqueKeys brand_id [] w h = tt
  without_stored-HasUniqueKeys brand_id (m ∷ ms) w h = elim (Option-cases reply.0.1) [
    | inl e ↦ rw (e, without_stored) (HasUniqueKeys-keep hash_of (is_new reply.0.0) (m ∷ ms) h)
    | inr (_, e) ↦ rw (e, without_stored) h
  ]
    where
      reply : (List String × Option String) × W
      reply = deps.seen_hashes brand_id (map hash_of (m ∷ ms)) w

  -- On every path, no two mentions of the batch that the collector answers have one content hash.
  pub handle-HasUniqueKeys :
      (input : CollectInput) (w : W) → HasUniqueKeys hash_of (handle deps input w).0.mentions
  unfolding handle
  handle-HasUniqueKeys input w = elim (Bool-cases (deps.has_adapter input.source)) [
    | inr e ↦ rw (e, handle) tt
    | inl e ↦ elim (Option-cases (deps.new_client input w).0) [
      | inr (_, e') ↦ rw (e, handle) (rw (e', handle) tt)
      | inl e' ↦
          rw (e, handle)
            (rw (e', handle)
              (let fetched = deps.fetch input (deps.new_client input w).1 in
                without_stored-HasUniqueKeys input.profile.brand_id (dedupe fetched.0.0) fetched.1
                  (dedupe-HasUniqueKeys fetched.0.0)))
    ]
  ]

  -- What the collector answers with: a batch with no error has had an adapter, a client, a fetch
  -- without an error, and no failed lookup; and a batch is marked truncated just when its fetch
  -- ran into the budget.
  pub handle_cases :
      (input : CollectInput) (w : W)
      → let batch = (handle deps input w).0 in
        let opened = deps.new_client input w in
        let fetched = deps.fetch input opened.1 in
        (deps.has_adapter input.source ≡ false)
          × (batch.mentions ≡ [])
          × (length batch.errors ≡ 1)
          × (batch.credits_used ≡ 0)
          × (batch.truncated ≡ false)
        ⊎ (deps.has_adapter input.source ≡ true)
          × (opened.0 ≢ none)
          × (batch.mentions ≡ [])
          × (length batch.errors ≡ 1)
          × (batch.credits_used ≡ 0)
          × (batch.truncated ≡ false)
        ⊎ (deps.has_adapter input.source ≡ true)
          × (opened.0 ≡ none)
          × (batch.truncated ≡ stopped_on_budget fetched.0.1)
          × (batch.errors ≡ []
              ↔ (fetched.0.1 ≡ none)
                × ((without_stored deps input.profile.brand_id (dedupe fetched.0.0) fetched.1).0.1
                    ≡ none))
  unfolding handle
  handle_cases input w = ground arith
