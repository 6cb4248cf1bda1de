-- ===== src/Enricher/Answers.antt =====
-- Each mention gets one enrichment, and a report says which of them were given up.
use brand_pulse.Prelude.{
  ℕ, ◌+◌, ◌≡◌, refl, inl, inr, Bool, String, List, [], ◌∷◌, none, Dict, lookup, length, Float,
  Reply, count, count-append, length-append, empty_of_length, Option-cases, arith, join_errors-none,
  Reply-cases,
}
use brand_pulse.Models.Mention.{Mention, Enrichment, validate_enrichment}
use brand_pulse.Enricher.Batch.{
  ReplyEnrichment, Parsing, enrichment_of, sort_reply, sort_replies, with_omitted, parse_reply,
  replies_by_id, new_parsing, neutral_enrichments,
}

module _ {R : Type 0} ⦃f : Float R⦄ (p : String → Bool) where
  abbrev pub enriched : List (Enrichment R) → ℕ
  enriched es = count (λ e. p e.mention_id) es

  abbrev pub asked : List (Mention R) → ℕ
  asked ms = count (λ m. p m.id) ms

  abbrev settled : Parsing R → ℕ
  settled s = enriched s.enrichments + asked s.unanswered

  sort_reply_accounts :
      (show : R → String) (by_id : Dict (ReplyEnrichment R)) (m : Mention R) (s : Parsing R)
      → settled (sort_reply show by_id m s) ≡ settled s + asked (m ∷ [])
  unfolding sort_reply enrichment_of
  sort_reply_accounts show by_id m s = elim (Option-cases (lookup m.id by_id)) [
    | inl e ↦
        rw (e, sort_reply) omega
          (arith, count-append (λ (x : Mention R). p x.id) s.unanswered (m ∷ []))
    | inr (got, e) ↦ elim (Option-cases (validate_enrichment (enrichment_of m.id got))) [
      | inl v ↦
          rw (e, v, sort_reply) ground
            (
              arith,
              count-append (λ (x : Enrichment R). p x.mention_id) s.enrichments
                  (enrichment_of m.id got ∷ []),
            )
      | inr (_, v) ↦
          rw (e, v, sort_reply) omega
            (arith, count-append (λ (x : Mention R). p x.id) s.unanswered (m ∷ []))
    ]
  ]

  sort_replies_accounts :
      (show : R → String) (by_id : Dict (ReplyEnrichment R)) (ms : List (Mention R)) (s : Parsing R)
      → settled (sort_replies show by_id ms s) ≡ settled s + asked ms
  unfolding sort_replies
  sort_replies_accounts show by_id [] s = omega arith
  sort_replies_accounts show by_id (m ∷ ms) s = ground (
    arith,
    sort_replies_accounts show by_id ms (sort_reply show by_id m s),
    sort_reply_accounts show by_id m s,
  )

  -- Of a batch, each mention is either answered or left over, whatever the reply says.
  pub parse_reply_accounts :
      (decode : String → Reply (List (ReplyEnrichment R))) (show : R → String) (raw : String)
      (batch : List (Mention R))
      → enriched (parse_reply decode show raw batch).enrichments
          + asked (parse_reply decode show raw batch).unanswered
        ≡ asked batch
  unfolding parse_reply
  parse_reply_accounts decode show raw batch = elim (Reply-cases (decode raw)) [
    | inl (_, e) ↦ rw (e, parse_reply) omega arith
    | inr (reply, e) ↦
        rw (e, parse_reply) omega
          (arith, sort_replies_accounts show (replies_by_id reply []) batch new_parsing)
  ]

  pub neutral_enrichments_accounts :
      (ms : List (Mention R)) → enriched (neutral_enrichments ms) ≡ asked ms
  unfolding neutral_enrichments
  neutral_enrichments_accounts [] = refl
  neutral_enrichments_accounts (m ∷ ms) = ground (arith, neutral_enrichments_accounts ms)

module _ {R : Type 0} ⦃f : Float R⦄ where
  abbrev gaps : Parsing R → ℕ
  gaps s = length s.omitted + length s.problems

  sort_reply-gaps :
      (show : R → String) (by_id : Dict (ReplyEnrichment R)) (m : Mention R) (s : Parsing R)
      → length s.unanswered ≡ gaps s
      → length (sort_reply show by_id m s).unanswered ≡ gaps (sort_reply show by_id m s)
  unfolding sort_reply
  sort_reply-gaps show by_id m s h = elim (Option-cases (lookup m.id by_id)) [
    | inl e ↦
        rw (e, sort_reply) omega
          (arith, length-append s.unanswered (m ∷ []), length-append s.omitted (m.id ∷ []))
    | inr (got, e) ↦ elim (Option-cases (validate_enrichment (enrichment_of m.id got))) [
      | inl v ↦ rw (e, v, sort_reply) h
      | inr (q, v) ↦
          rw (e, v, sort_reply) omega
            (arith, length-append s.unanswered (m ∷ []), length-append s.problems (_ ∷ []))
    ]
  ]

  sort_replies-gaps :
      (show : R → String) (by_id : Dict (ReplyEnrichment R)) (ms : List (Mention R)) (s : Parsing R)
      → length s.unanswered ≡ gaps s
      → length (sort_replies show by_id ms s).unanswered ≡ gaps (sort_replies show by_id ms s)
  unfolding sort_replies
  sort_replies-gaps show by_id [] s h = h
  sort_replies-gaps show by_id (m ∷ ms) s h =
      sort_replies-gaps show by_id ms (sort_reply show by_id m s) (sort_reply-gaps show by_id m s h)

with_omitted-empty :
    (ids problems : List String)
    → length (with_omitted ids problems) ≡ 0
    → length ids + length problems ≡ 0
unfolding with_omitted
with_omitted-empty [] problems h = omega arith
with_omitted-empty (id ∷ ids) problems h = omega (arith, length-append problems (_ ∷ []))

-- A reply whose parsing reports no error has left no mention of the batch unanswered.
pub parse_reply_reports :
    {R : Type 0} ⦃f : Float R⦄ (decode : String → Reply (List (ReplyEnrichment R)))
    (show : R → String) (raw : String) (batch : List (Mention R))
    → (parse_reply decode show raw batch).error ≡ none
    → (parse_reply decode show raw batch).unanswered ≡ []
unfolding parse_reply
parse_reply_reports decode show raw batch h = elim (Reply-cases (decode raw)) [
  | inl (_, e) ↦ absurd (cc (rw (e, parse_reply) at h))
  | inr (reply, e) ↦
      let s = sort_replies show (replies_by_id reply []) batch new_parsing in
      let none_left : with_omitted s.omitted s.problems ≡ [] =
        join_errors-none _ (rw (e, parse_reply) at h) in
      rw (e, parse_reply)
        (empty_of_length s.unanswered (
          omega (
            arith,
            sort_replies-gaps show (replies_by_id reply []) batch new_parsing refl,
            with_omitted-empty s.omitted s.problems (rw none_left refl),
          )))
]
