-- ===== src/Enricher/Requests.antt =====
-- What a whole request answers, over all batches, attempts and hits of the memory.
use brand_pulse.Prelude.{
  ℕ, zero, suc, ◌+◌, ◌-◌, List-cases, ◌<◌, ◌≤◌, ◌≡◌, refl, ap, ◌∙◌, ◌≢◌, ◌↔◌, ◌⊎◌, inl, inr, Bool,
  String, List, [], ◌∷◌, ◌++◌, none, some, Dict, Float, Reply, ok, err, count, count-append,
  Reply-cases, Option-cases, arith, concat_map, chunk, chunk-concat, ℤ, pos, negsuc,
}
use brand_pulse.Models.Brand.{BrandProfile}
use brand_pulse.Models.Mention.{Mention, Enrichment}
use brand_pulse.Orchestrator.Env.{EnrichInput}
use brand_pulse.Llm.Usage.{Usage}
use brand_pulse.Enricher.{
  Classified, new_classified, Attempt, returned, retry, take_reply, take_answer, add_total, Session,
  Asking, prompt_for, classify_from, classify, max_attempts, price, set_cost, absorb,
  enrich_batches, split_cached, handle, redacted_by_id,
}
use brand_pulse.Enricher.Batch.{Parsed, parse_reply, neutral_enrichments, batch_size}
use brand_pulse.Enricher.Cache.{recall}
use brand_pulse.Enricher.Answers.{
  enriched, asked, parse_reply_accounts, neutral_enrichments_accounts,
}

-- A batch holds one to fifty mentions.
pub batch_size_bounds : (n : ℤ) → (0 < batch_size n) × (batch_size n ≤ 50)
unfolding batch_size
batch_size_bounds (pos n) = ground arith
batch_size_bounds (negsuc n) = ground arith

Attempt-cases :
    {R : Type 0} (t : Attempt R)
    → ((c : Classified R) × (t ≡ returned c)) ⊎ ((c : Classified R) × (t ≡ retry c))
Attempt-cases (returned c) = inl (c, refl)
Attempt-cases (retry c) = inr (c, refl)

module _ {R W : Type 0} ⦃f : Float R⦄ (p : String → Bool) (a : Asking R W) where
  abbrev held : Classified R → ℕ
  held c = enriched p c.answered + asked p c.unanswered

  abbrev after : Attempt R → Classified R
  after (returned c) = c
  after (retry c) = c

  take_reply_accounts :
      (n : ℕ) (c : Classified R) (u : Usage R) (parsed : Parsed R)
      → held (after (take_reply a n c u parsed))
        ≡ enriched p c.answered + (enriched p parsed.enrichments + asked p parsed.unanswered)
  unfolding take_reply
  take_reply_accounts n c u parsed =
      let grown =
        count-append (λ (x : Enrichment R). p x.mention_id) c.answered parsed.enrichments in
      elim (List-cases parsed.unanswered) [
        | inl e ↦ rw (e, take_reply) omega (arith, grown)
        | inr (_, _, e) ↦ rw (e, take_reply) omega (arith, grown)
      ]

  take_answer_accounts :
      (n : ℕ) (c : Classified R) (answer : Reply String × Usage R)
      → held (after (take_answer a n c answer)) ≡ held c
  unfolding take_answer
  take_answer_accounts n c (err e, u) = refl
  take_answer_accounts n c (ok raw, u) = omega (
    arith,
    take_reply_accounts n c (add_total c.usage u) (parse_reply a.decode a.show raw c.unanswered),
    parse_reply_accounts p a.decode a.show raw c.unanswered,
  )

  classify_from_accounts :
      (left : ℕ) (c : Classified R) (w : W) → held (classify_from a left c w).0 ≡ held c
  unfolding classify_from
  classify_from_accounts zero c w = refl
  classify_from_accounts (suc left) c w = elim (Reply-cases (prompt_for a c.unanswered)) [
    | inl (e, h) ↦ rw (h, classify_from) refl
    | inr (prompt, h) ↦
        let (answer, w') = a.chat prompt (record { model = ""; max_tokens = 0 }) w in
        let kept = take_answer_accounts (max_attempts - left) c answer in
        rw (h, classify_from)
          (elim (Attempt-cases (take_answer a (max_attempts - left) c answer)) [
            | inl (c', r) ↦ rw r (rw r at kept)
            | inr (c', r) ↦ rw r (classify_from_accounts left c' w' ∙ (rw r at kept))
          ])
  ]

  set_cost_accounts :
      (paise : R) (es : List (Enrichment R)) → enriched p (set_cost paise es) ≡ enriched p es
  unfolding set_cost
  set_cost_accounts paise [] = refl
  set_cost_accounts paise (e ∷ es) = ground (arith, set_cost_accounts paise es)

  price_accounts :
      (es : List (Enrichment R)) (u : Usage R) → enriched p (price es u) ≡ enriched p es
  unfolding price
  price_accounts [] u = refl
  price_accounts (e ∷ es) u = set_cost_accounts _ (e ∷ es)

  absorb_accounts :
      (batch : List (Mention R)) (c : Classified R) (s : Session R W) (w : W)
      → enriched p (absorb a batch c s w).out.enrichments ≡ enriched p s.out.enrichments + held c
  unfolding absorb
  absorb_accounts batch c s w = omega (
    arith,
    count-append (λ (x : Enrichment R). p x.mention_id)
        (s.out.enrichments ++ price c.answered c.usage) (neutral_enrichments c.unanswered),
    count-append (λ (x : Enrichment R). p x.mention_id) s.out.enrichments
        (price c.answered c.usage),
    price_accounts c.answered c.usage,
    neutral_enrichments_accounts p c.unanswered,
  )

  enrich_batches_accounts :
      (batches : List (List (Mention R))) (s : Session R W)
      → enriched p (enrich_batches a batches s).out.enrichments
        ≡ enriched p s.out.enrichments + asked p (concat_map (λ b. b) batches)
  unfolding enrich_batches concat_map classify
  enrich_batches_accounts [] s = omega arith
  enrich_batches_accounts (batch ∷ rest) s =
      let (c, w) = classify a batch s.world in
      omega (
        arith,
        enrich_batches_accounts rest (absorb a batch c s w),
        absorb_accounts batch c s w,
        classify_from_accounts max_attempts (new_classified batch) s.world,
        count-append (λ (x : Mention R). p x.id) batch (concat_map (λ b. b) rest),
      )

recall-id :
    {R : Type 0} ⦃f : Float R⦄ (m : Mention R) (cached : Dict (Enrichment R)) {hit : Enrichment R}
    → recall m cached ≡ some hit
    → hit.mention_id ≡ m.id
unfolding recall
recall-id m cached h = ground (arith)

split_cached_accounts :
    {R : Type 0} ⦃f : Float R⦄ (p : String → Bool) (cached : Dict (Enrichment R))
    (ms : List (Mention R))
    → enriched p (split_cached cached ms).0 + asked p (split_cached cached ms).1 ≡ asked p ms
unfolding split_cached recall
split_cached_accounts p cached [] = refl
split_cached_accounts p cached (m ∷ ms) = elim (Option-cases (recall m cached)) [
  | inl e ↦ rw (e, split_cached) ground (arith, split_cached_accounts p cached ms)
  | inr (hit, e) ↦
      rw (e, split_cached, ap p (recall-id m cached e)) ground
        (arith, split_cached_accounts p cached ms)
]

-- Whatever the model answers, and whatever is remembered, a request comes back with one enrichment
-- for each mention: as many under any set of ids as there are mentions with those ids.
pub handle_answers_each :
    {R W : Type 0} ⦃f : Float R⦄ (redact : String → String)
    (asking : Dict String → BrandProfile → Asking R W) (input : EnrichInput R)
    (cached : Dict (Enrichment R)) (w : W) (p : String → Bool)
    → count (λ e. p e.mention_id) (handle redact asking input cached w).out.enrichments
      ≡ count (λ m. p m.id) input.mentions
unfolding handle
handle_answers_each redact asking input cached w p =
    let uncached = (split_cached cached input.mentions).1 in
    let size = batch_size input.batch_size in
    omega (
      arith,
      enrich_batches_accounts p (asking (redacted_by_id redact input.mentions []) input.profile)
          (chunk size uncached) _,
      ap (asked p) (chunk-concat size uncached (batch_size_bounds input.batch_size).0),
      split_cached_accounts p cached input.mentions,
    )

abbrev IsReported : {R : Type 0} → Classified R → Type 0
IsReported c = (c.error ≡ none) ↔ (c.unanswered ≡ [])

module _ {R W : Type 0} ⦃f : Float R⦄ (a : Asking R W) where
  -- what a turn leaves: a return with nothing left over, or an error and something left over
  abbrev IsTurn : Attempt R → Type 0
  IsTurn (returned c) = (c.error ≡ none) × (c.unanswered ≡ [])
  IsTurn (retry c) = (c.error ≢ none) × (c.unanswered ≢ [])

  take_reply-IsTurn :
      (n : ℕ) (c : Classified R) (u : Usage R) (parsed : Parsed R)
      → IsTurn (take_reply a n c u parsed)
  unfolding take_reply
  take_reply-IsTurn n c u parsed = elim (List-cases parsed.unanswered) [
    | inl e ↦ rw (e, take_reply) (refl, refl)
    | inr (_, _, e) ↦ rw (e, take_reply) (λ q. cc q, λ q. cc q)
  ]

  take_answer-IsTurn :
      (n : ℕ) (c : Classified R) (answer : Reply String × Usage R)
      → c.unanswered ≢ []
      → IsTurn (take_answer a n c answer)
  unfolding take_answer
  take_answer-IsTurn n c (err e, u) h = (λ q. cc q, h)
  take_answer-IsTurn n c (ok raw, u) h =
      take_reply-IsTurn n c (add_total c.usage u) (parse_reply a.decode a.show raw c.unanswered)

  classify_from_reports :
      (left : ℕ) (c : Classified R) (w : W)
      → c.unanswered ≢ []
      → (c.error ≢ none) ⊎ (0 < left)
      → IsReported (classify_from a left c w).0
  unfolding classify_from
  classify_from_reports zero c w h k =
      (λ q. absurd (elim k [ inl n ↦ n q | inr l ↦ omega arith ]), λ q. absurd (h q))
  classify_from_reports (suc left) c w h k = elim (Reply-cases (prompt_for a c.unanswered)) [
    | inl (e, q) ↦ rw (q, classify_from) (λ r. absurd (cc r), λ r. absurd (h r))
    | inr (prompt, q) ↦
        let (answer, w') = a.chat prompt (record { model = ""; max_tokens = 0 }) w in
        let turn = take_answer-IsTurn (max_attempts - left) c answer h in
        rw (q, classify_from)
          (elim (Attempt-cases (take_answer a (max_attempts - left) c answer)) [
            | inl (c', r) ↦ let done = rw r at turn in rw r (λ _. done.1, λ _. done.0)
            | inr (c', r) ↦
                let left_over = rw r at turn in
                rw r (classify_from_reports left c' w' left_over.1 (inl left_over.0))
          ])
  ]

  -- Of a batch that is not empty, classify reports no error just when no mention is given up.
  pub classify_reports :
      (batch : List (Mention R)) (w : W)
      → batch ≢ []
      → ((classify a batch w).0.error ≡ none) ↔ ((classify a batch w).0.unanswered ≡ [])
  unfolding classify
  classify_reports batch w h =
      classify_from_reports max_attempts (new_classified batch) w h (inr (omega arith))
