-- ===== src/Orchestrator/Analysis/Join.antt =====
-- The join of the mentions with the enrichments that came back.
use brand_pulse.Prelude.{
  ◌≡◌, refl, ap, inl, inr, Bool, true, false, not, String, List, [], ◌∷◌, map, none, some, Dict,
  lookup, insert_key, keep, All, All-lookup, All-insert_key, Option-cases,
}
use brand_pulse.Models.Mention.{Mention, Enrichment, EnrichedMention}
use brand_pulse.Orchestrator.Analysis.Enriched.{by_id, join_enrichments}

module _ {R : Type 0} where
  abbrev pub is_enriched : Dict (Enrichment R) → Mention R → Bool
  is_enriched m x = elim (lookup x.id m) [ none ↦ false | some _ ↦ true ]

  -- The mentions that are joined are those with an enrichment, in their order, each with the
  -- enrichment found under its id; the ids that are missing are those of all the others.
  pub join_enrichments_partition :
      (m : Dict (Enrichment R)) (xs : List (Mention R))
      → (map (λ em. em.mention) (join_enrichments m xs).0 ≡ keep (is_enriched m) xs)
        × ((join_enrichments m xs).1 ≡ map (λ x. x.id) (keep (λ x. not (is_enriched m x)) xs))
        × All (λ em. lookup em.mention.id m ≡ some em.enrichment) (join_enrichments m xs).0
  unfolding join_enrichments
  join_enrichments_partition m [] = (refl, refl, tt)
  join_enrichments_partition m (x ∷ xs) =
      let (p, q, r) = join_enrichments_partition m xs in
      elim (Option-cases (lookup x.id m)) [
        | inl e ↦ rw (e, join_enrichments, is_enriched, keep) (p, ap (λ l. x.id ∷ l) q, r)
        | inr (_, e) ↦ rw (e, join_enrichments, is_enriched, keep) (ap (λ l. x ∷ l) p, q, (e, r))
      ]

  abbrev IsKeyed : String × Enrichment R → Type 0
  IsKeyed e = e.1.mention_id ≡ e.0

  by_id-IsKeyed :
      (es : List (Enrichment R)) (m : Dict (Enrichment R))
      → All IsKeyed m
      → All IsKeyed (by_id es m)
  unfolding by_id
  by_id-IsKeyed [] m h = h
  by_id-IsKeyed (e ∷ es) m h =
      by_id-IsKeyed es (insert_key e.mention_id e m)
        (All-insert_key IsKeyed e.mention_id e m h refl)

  ids_agree :
      (m : Dict (Enrichment R)) (ems : List (EnrichedMention R))
      → All IsKeyed m
      → All (λ em. lookup em.mention.id m ≡ some em.enrichment) ems
      → All (λ em. em.enrichment.mention_id ≡ em.mention.id) ems
  ids_agree m [] k h = tt
  ids_agree m (em ∷ ems) k h =
      (All-lookup IsKeyed em.mention.id em.enrichment m k h.0, ids_agree m ems k h.1)

  -- A mention is never joined with the enrichment of another.
  pub joined_ids_agree :
      (es : List (Enrichment R)) (xs : List (Mention R))
      → All (λ em. em.enrichment.mention_id ≡ em.mention.id) (join_enrichments (by_id es []) xs).0
  joined_ids_agree es xs =
      ids_agree (by_id es []) (join_enrichments (by_id es []) xs).0 (by_id-IsKeyed es [] tt)
        (join_enrichments_partition (by_id es []) xs).2
