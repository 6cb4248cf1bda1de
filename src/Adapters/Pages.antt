-- ===== src/Adapters/Pages.antt =====
-- What the fetching of pages changes, and how many pages it fetches.
use brand_pulse.Prelude.{
  ℕ, zero, suc, ◌+◌, ◌≤◌, ◌≡◌, refl, ap, inl, inr, Bool-cases, leb, String, List, [], ◌∷◌, map,
  length, codes, Reply-cases, arith,
}
use brand_pulse.Models.Mention.{Mention}
use brand_pulse.Adapters.Reddit.{WireAnswer, answered, out_of_budget, failed}
use brand_pulse.Adapters.Web.{
  WebTools, Enriched, max_enrichments, page_text, take_page, settle_page, enrich_drafts,
  enrich_short,
}

-- A draft without what a page may replace.
abbrev pub bare : {R : Type 0} → Mention R → Mention R
bare d = record d { text = ""; raw = "" }

module _ {R W : Type 0} (t : WebTools W) (cost : W → ℕ) where
  -- The drafts are what they were, but for their texts, and at most `left` was spent.
  abbrev pub IsFrugal : ℕ → W → List (Mention R) → Enriched R × W → Type 0
  IsFrugal left w ds (found, w') = (map bare found.drafts ≡ map bare ds) × (cost w' ≤ cost w + left)

  take_page-bare :
      (d : Mention R) (raw : String) (rest : Enriched R)
      → map bare (take_page t d raw rest).drafts ≡ bare d ∷ map bare rest.drafts
  unfolding take_page
  take_page-bare d raw rest = elim (Reply-cases (page_text t d.url raw)) [
    | inl (e, q) ↦ rw (q, take_page) refl
    | inr (body, q) ↦ rw (q, take_page) refl
  ]

  settle_page-IsFrugal :
      (left : ℕ) (d : Mention R) (ds : List (Mention R)) (answer : WireAnswer) (w w' : W)
      (others : W → Enriched R × W)
      → cost w' ≤ suc (cost w)
      → IsFrugal left w' ds (others w')
      → IsFrugal (suc left) w (d ∷ ds) (settle_page t d ds answer w' others)
  unfolding settle_page
  settle_page-IsFrugal left d ds (out_of_budget e) w w' others h k = (refl, omega arith)
  settle_page-IsFrugal left d ds (failed e) w w' others h k =
      (ap (λ l. bare d ∷ l) k.0, omega (arith, k.1))
  settle_page-IsFrugal left d ds (answered raw) w w' others h k =
      (rw (take_page-bare d raw (others w').0) (ap (λ l. bare d ∷ l) k.0), omega (arith, k.1))

  enrich_drafts-IsFrugal :
      ((url : String) (w : W) → cost (t.scrape url w).1 ≤ suc (cost w))
      → (left : ℕ) (ds : List (Mention R)) (w : W) → IsFrugal left w ds (enrich_drafts t left ds w)
  unfolding enrich_drafts
  enrich_drafts-IsFrugal h zero ds w = (refl, omega arith)
  enrich_drafts-IsFrugal h (suc left) [] w = (refl, omega arith)
  enrich_drafts-IsFrugal h (suc left) (d ∷ ds) w =
      elim (Bool-cases (leb 500 (length (codes d.text)))) [
        | inl e ↦
            let rest = enrich_drafts-IsFrugal h (suc left) ds w in
            rw (e, enrich_drafts) (ap (λ l. bare d ∷ l) rest.0, rest.1)
        | inr e ↦
            let (answer, w') = t.scrape d.url w in
            rw (e, enrich_drafts)
              (settle_page-IsFrugal left d ds answer w w' (λ v. enrich_drafts t left ds v)
                (h d.url w) (enrich_drafts-IsFrugal h left ds w'))
      ]

  -- Where a scrape costs at most one credit, enrich spends at most five, and changes nothing of
  -- the drafts but the text and the raw data: none is lost, added or moved.
  pub enrich_short-IsFrugal :
      ((url : String) (w : W) → cost (t.scrape url w).1 ≤ suc (cost w))
      → (drafts : List (Mention R)) (w : W)
      → (map bare (enrich_short t drafts w).0.drafts ≡ map bare drafts)
        × (cost (enrich_short t drafts w).1 ≤ cost w + 5)
  unfolding enrich_short
  enrich_short-IsFrugal h drafts w = enrich_drafts-IsFrugal h max_enrichments drafts w
