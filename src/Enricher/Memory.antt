-- ===== src/Enricher/Memory.antt =====
-- What the memory gives back of what was stored.
use brand_pulse.Prelude.{
  ◌≡◌, refl, ap, ◌∙◌, ◌≢◌, ◌⊎◌, inl, inr, String, List, [], ◌∷◌, some, Dict, lookup, lookup_or,
  lookup_or-of_found, insert_key, lookup-insert_key, Float, is_empty, is_empty_of_ne, str_eq, Memᴰ,
  All, All-mem, HasUniqueKeys, Bool-cases, arith, eq_iff, append-ne-empty_right, if◌then◌else◌,
  ◌^^◌,
}
use mathlib.Core.List.Memᴰ
use brand_pulse.Models.Mention.{Mention, Enrichment}
use brand_pulse.Enricher.Cache.{cache_key, keys_of, store_each, store, recall}

module _ {R : Type 0} where
  keys_of-other :
      (ms : List (Mention R)) (keys : Dict String) (k : String)
      → All (λ m. k ≢ m.id) ms
      → lookup k (keys_of ms keys) ≡ lookup k keys
  unfolding keys_of
  keys_of-other [] keys k h = refl
  keys_of-other (m ∷ ms) keys k h = ground (
    arith,
    eq_iff m.id k,
    lookup-insert_key m.id k (cache_key m) keys,
    keys_of-other ms (if is_empty m.content_hash then keys else insert_key m.id (cache_key m) keys)
        k h.1,
    h.0,
  )

  keys_of-mem :
      (ms : List (Mention R)) (keys : Dict String) (m : Mention R)
      → Memᴰ m ms
      → HasUniqueKeys (λ x. x.id) ms
      → m.content_hash ≢ ""
      → lookup m.id (keys_of ms keys) ≡ some (cache_key m)
  unfolding keys_of
  keys_of-mem [] keys m i u h = elim i [ ]
  keys_of-mem (x ∷ xs) keys m i u h = elim (Memᴰ.cases_cons i) [
    | inl q ↦ rw q (
        keys_of-other xs
          (if is_empty x.content_hash then keys else insert_key x.id (cache_key x) keys) x.id u.0
        ∙ ground (
          arith,
          eq_iff x.id x.id,
          lookup-insert_key x.id x.id (cache_key x) keys,
          is_empty_of_ne x.content_hash (rw q at h),
        ))
    | inr i' ↦ keys_of-mem xs _ m i' u.1 h
  ]

  -- After the loop a key holds the last enrichment stored under it, or what it held before.
  store_each-cases :
      (keys : Dict String) (es : List (Enrichment R)) (cached : Dict (Enrichment R)) (k : String)
      → k ≢ ""
      → ((e : Enrichment R) × Memᴰ e es
          × (lookup_or "" e.mention_id keys ≡ k)
          × (lookup k (store_each keys es cached) ≡ some e))
        ⊎ (All (λ e. lookup_or "" e.mention_id keys ≢ k) es
            × (lookup k (store_each keys es cached) ≡ lookup k cached))
  unfolding store_each
  store_each-cases keys [] cached k h = inr (tt, refl)
  store_each-cases keys (e ∷ es) cached k h =
      let key = lookup_or "" e.mention_id keys in
      elim (store_each-cases keys es (if is_empty key then cached else insert_key key e cached) k
        h) [
          | inl (e', i, q, r) ↦ inl (e', Memᴰ.tail i, q, r)
          | inr (a, r) ↦ elim (Bool-cases (str_eq key k)) [
            | inl q ↦
                let same : key ≡ k = (eq_iff key k).0 q in
                inl (
                  e,
                  Memᴰ.head refl,
                  same,
                  r
                      ∙ ground
                          (arith, lookup-insert_key key k e cached, is_empty_of_ne key (rw same h)),
                )
            | inr q ↦ inr (
              (λ same. cc (q, (eq_iff key k).1 same), a),
              r ∙ ground (arith, lookup-insert_key key k e cached),
            )
          ]
        ]

module _ {R : Type 0} ⦃f : Float R⦄ where
  recall-found :
      (m : Mention R) (cached : Dict (Enrichment R)) (hit : Enrichment R)
      → m.content_hash ≢ ""
      → lookup (cache_key m) cached ≡ some hit
      → recall m cached ≡ some (record hit { mention_id = m.id; cost_paise = f.of_ℕ 0 })
  unfolding recall
  recall-found m cached hit h e = rw (is_empty_of_ne m.content_hash h, recall) (rw (e, recall) refl)

  -- Of a batch whose ids differ, a mention with a content hash that was answered is remembered:
  -- another mention of its brand and hash is given an answer stored under that key, under the
  -- other mention's id and at no cost.
  pub recall-store :
      (batch : List (Mention R)) (es : List (Enrichment R)) (cached : Dict (Enrichment R))
      (m other : Mention R) (e : Enrichment R)
      → HasUniqueKeys (λ x. x.id) batch
      → Memᴰ m batch
      → m.content_hash ≢ ""
      → Memᴰ e es
      → e.mention_id ≡ m.id
      → other.brand_id ≡ m.brand_id
      → other.content_hash ≡ m.content_hash
      → (hit : Enrichment R) × Memᴰ hit es
        × (lookup_or "" hit.mention_id (keys_of batch []) ≡ cache_key m)
        × (recall other (store batch es cached)
            ≡ some (record hit { mention_id = other.id; cost_paise = f.of_ℕ 0 }))
  unfolding store recall cache_key lookup_or
  recall-store batch es cached m other e u i h j q b c =
      let keys = keys_of batch [] in
      let key_found = keys_of-mem batch [] m i u h in
      elim (store_each-cases keys es cached (cache_key m)
        (append-ne-empty_right (m.brand_id ^^ "\0") m.content_hash h)) [
          | inl (hit, mem, owned, found) ↦ (
            hit,
            mem,
            owned,
            recall-found other (store batch es cached) hit (λ n. h (cc (c, n)))
                (ap (λ k. lookup k (store batch es cached)) (cc (b, c)) ∙ found),
          )
          | inr (fresh, _) ↦ absurd (
              All-mem (λ x. lookup_or "" x.mention_id keys ≢ cache_key m) es fresh e j
                (ap (λ k. lookup_or "" k keys) q ∙ lookup_or-of_found "" m.id keys key_found))
        ]
