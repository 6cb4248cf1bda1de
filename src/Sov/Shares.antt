-- ===== src/Sov/Shares.antt =====
-- What the counts of a share of voice are.
use brand_pulse.Prelude.{
  ℕ, suc, ◌+◌, ◌≡◌, ◌≢◌, ◌<◌, ◌≤◌, lookup-remove_key, inl, inr, String, List, [], ◌∷◌, length, none,
  some, Dict, lookup, lookup_or, insert_key, lookup-insert_key, Float, str_eq, Option-cases, arith,
  eq_iff, if◌then◌else◌,
}
use brand_pulse.Models.Mention.{EnrichedMention}
use brand_pulse.Orchestrator.Env.{SovInput}
use brand_pulse.Sov.{
  Tally, new_tally, add_name, share_of, share_each, shares, canonical_competitors, attribute,
  count_for, count_each, handle,
}

-- how often a name is in a list
abbrev pub count_name : String → List String → ℕ
count_name name [] = 0
count_name name (n ∷ ns) = let rest = count_name name ns in if str_eq n name then suc rest else rest

count_name-le : (name : String) (ns : List String) → count_name name ns ≤ length ns
count_name-le name [] = omega arith
count_name-le name (n ∷ ns) = ground (arith, count_name-le name ns)

lookup_or-insert_key :
    {V : Type 0} (d : V) (k j : String) (v : V) (m : Dict V)
    → lookup_or d j (insert_key k v m) ≡ (if str_eq k j then v else lookup_or d j m)
unfolding lookup_or
lookup_or-insert_key d k j v m = ground (arith, lookup-insert_key k j v m)

add_name-count :
    (n name : String) (t : Tally)
    → lookup_or 0 name (add_name n t).counts
      ≡ (if str_eq n name then suc (lookup_or 0 name t.counts) else lookup_or 0 name t.counts)
unfolding add_name
add_name-count n name t =
    ground
      (arith, eq_iff n name, lookup_or-insert_key 0 n name (suc (lookup_or 0 n t.counts)) t.counts)

module _ (lower trim : String → String) {R : Type 0} where
  -- the names that the mentions count for, in their order
  abbrev attributed : String → Dict String → List (EnrichedMention R) → List String
  attributed brand_name competitors [] = []
  attributed brand_name competitors (em ∷ rest) =
      let names = attributed brand_name competitors rest in
      elim (attribute lower trim em.enrichment brand_name competitors) [
        | none ↦ names
        | some n ↦ n ∷ names
      ]

  count_each-count :
      (brand_name name : String) (competitors : Dict String) (ems : List (EnrichedMention R))
      (t : Tally × Dict Tally)
      → lookup_or 0 name (count_each lower trim brand_name competitors ems t).0.counts
        ≡ lookup_or 0 name t.0.counts + count_name name (attributed brand_name competitors ems)
  unfolding count_each count_for
  count_each-count brand_name name competitors [] t = omega arith
  count_each-count brand_name name competitors (em ∷ rest) t =
      elim (Option-cases (attribute lower trim em.enrichment brand_name competitors)) [
        | inl e ↦
            rw (e, count_each, attributed) (count_each-count brand_name name competitors rest t)
        | inr (n, e) ↦
            rw (e, count_each, attributed)
              (let ih =
                  count_each-count brand_name name competitors rest
                    (count_for lower trim em.mention.source n t) in
                ground (arith, ih, add_name-count n name t.0))
      ]

  count_each-total :
      (brand_name : String) (competitors : Dict String) (ems : List (EnrichedMention R))
      (t : Tally × Dict Tally)
      → (count_each lower trim brand_name competitors ems t).0.total
        ≡ t.0.total + length (attributed brand_name competitors ems)
  unfolding count_each count_for add_name
  count_each-total brand_name competitors [] t = omega arith
  count_each-total brand_name competitors (em ∷ rest) t =
      elim (Option-cases (attribute lower trim em.enrichment brand_name competitors)) [
        | inl e ↦ rw (e, count_each, attributed) (count_each-total brand_name competitors rest t)
        | inr (n, e) ↦
            rw (e, count_each, attributed)
              (let ih =
                  count_each-total brand_name competitors rest
                    (count_for lower trim em.mention.source n t) in
                ground (arith, ih))
      ]

module _ {R : Type 0} ⦃f : Float R⦄ where
  lookup-share_each :
      (total : ℕ) (name : String) (m : Dict ℕ)
      → 0 < lookup_or 0 name m
      → lookup {V = R} name (share_each total m) ≡ some (share_of (lookup_or 0 name m) total)
  unfolding lookup lookup_or share_each
  lookup-share_each total name [] h = absurd (omega arith)
  lookup-share_each total name ((n, c) ∷ m) h =
      ground (arith, eq_iff n name, lookup-share_each total name m)

  lookup-shares :
      (name : String) (t : Tally)
      → 0 < t.total
      → 0 < lookup_or 0 name t.counts
      → lookup {V = R} name (shares t) ≡ some (share_of (lookup_or 0 name t.counts) t.total)
  unfolding shares
  lookup-shares name t h k = ground (arith, lookup-share_each t.total name t.counts)

  module _ (lower trim : String → String) (input : SovInput R) where
    -- the names that the mentions of the input count for
    abbrev pub names : List String
    names =
        attributed lower trim input.profile.name
          (canonical_competitors lower trim input.profile.competitors) input.enriched

    tally_of : Tally
    tally_of =
        (count_each lower trim input.profile.name
          (canonical_competitors lower trim input.profile.competitors) input.enriched
          (new_tally, [])).0

    tally-total : tally_of.total ≡ length names
    unfolding tally_of new_tally
    tally-total = omega (
      arith,
      count_each-total lower trim input.profile.name
          (canonical_competitors lower trim input.profile.competitors) input.enriched
          (new_tally, []),
    )

    tally-count : (name : String) → lookup_or 0 name tally_of.counts ≡ count_name name names
    unfolding tally_of new_tally lookup_or lookup
    tally-count name = omega (
      arith,
      count_each-count lower trim input.profile.name name
          (canonical_competitors lower trim input.profile.competitors) input.enriched
          (new_tally, []),
    )

    -- The total is the number of mentions that count for the brand or for a listed competitor.
    handle_total : (handle lower trim input).total_mentions ≡ length names
    unfolding handle tally_of
    handle_total = tally-total

    -- The share of a brand that some mention counts for is a hundred times the number of mentions
    -- that count for it, divided by the number of all mentions that count for a name.
    pub handle_brand_share :
        0 < count_name input.profile.name names
        → (handle lower trim input).brand_share
          ≡ share_of (count_name input.profile.name names) (length names)
    unfolding handle tally_of lookup_or
    handle_brand_share h =
        let name = input.profile.name in
        ground (
          arith,
          tally-total,
          tally-count name,
          count_name-le name names,
          lookup-shares name tally_of,
        )

    -- The share of a competitor that some mention counts for, and whose name is not the brand's,
    -- stands under its name: a hundred times the number of mentions that count for it, divided by
    -- the number of all that count for a name.
    pub handle_competitor_share :
        (name : String)
        → name ≢ input.profile.name
        → 0 < count_name name names
        → lookup {V = R} name (handle lower trim input).competitor_shares
          ≡ some (share_of (count_name name names) (length names))
    unfolding handle tally_of
    handle_competitor_share name other h = ground (
      arith,
      eq_iff input.profile.name name,
      tally-total,
      tally-count name,
      count_name-le name names,
      lookup-shares name tally_of,
      lookup-remove_key {V = R} input.profile.name name (shares tally_of),
    )
