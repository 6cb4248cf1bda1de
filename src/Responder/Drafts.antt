-- ===== src/Responder/Drafts.antt =====
-- What the responder promises of a draft.
use brand_pulse.Prelude.{
  ◌≡◌, refl, ◌⊎◌, inl, inr, true, String, List, [], ◌∷◌, Reply, ok, err, Reply-cases, List-cases,
}
use mathlib.Core.Path.{subst}
use brand_pulse.Responder.{
  Drafted, done, failed, crash, ask, settle_retry, draft_within_guardrails, violations_of,
}
use brand_pulse.Responder.Prompt.{DraftResponse, PromptData, Tools}
use brand_pulse.Responder.Guardrails.{Bytes, Cut, kept, panicked, out_of_fuel, strip_each}

Cut-cases : (c : Cut) → ((rest : Bytes) × (c ≡ kept rest)) ⊎ ((c ≡ panicked) ⊎ (c ≡ out_of_fuel))
Cut-cases (kept rest) = inl (rest, refl)
Cut-cases panicked = inr (inl refl)
Cut-cases out_of_fuel = inr (inr refl)

module _ {R W : Type 0} (t : Tools R W) where
  -- the prompt of the second call, which names what the first draft violates
  abbrev pub retry_of : PromptData → List String → PromptData
  retry_of prompt_data violations = record prompt_data { retry = true; violations = violations }

  -- The model's first answer is a draft with violations, and its second one is `second`.
  abbrev pub AreAnswers : PromptData → List String → W → Reply DraftResponse → Type 0
  AreAnswers prompt_data banned w second =
      (first : DraftResponse) × (u : String) × (us : List String) × ((ask t prompt_data w).0
        ≡ ok first)
      × (violations_of t first.text banned ≡ u ∷ us)
      × ((ask t (retry_of prompt_data (u ∷ us)) (ask t prompt_data w).1).0 ≡ second)

  -- A draft without violations is the first answer or the second, and is clean. One with them is
  -- the second answer, which had them, once they were cut from its text and the rest was tidied.
  abbrev pub IsGuarded : PromptData → List String → W → DraftResponse × List String → Type 0
  IsGuarded prompt_data banned w (d, []) =
      (violations_of t d.text banned ≡ [])
      × (((ask t prompt_data w).0 ≡ ok d) ⊎ AreAnswers prompt_data banned w (ok d))
  IsGuarded prompt_data banned w (d, v ∷ vs) =
      (retried : DraftResponse) × (rest : Bytes) × AreAnswers prompt_data banned w (ok retried)
      × (violations_of t retried.text banned ≡ v ∷ vs)
      × (strip_each t.bytes t.lower t.trim (t.bytes retried.text) (v ∷ vs) ≡ kept rest)
      × (d ≡ record retried { text = t.tidy rest })

  -- The cutting of the second answer's violations panics.
  abbrev pub CutPanics : PromptData → List String → W → Type 0
  CutPanics prompt_data banned w =
      (retried : DraftResponse) × AreAnswers prompt_data banned w (ok retried)
      × ((strip_each t.bytes t.lower t.trim (t.bytes retried.text)
              (violations_of t retried.text banned)
            ≡ panicked)
          ⊎ (strip_each t.bytes t.lower t.trim (t.bytes retried.text)
                (violations_of t retried.text banned)
              ≡ out_of_fuel))

  -- A draft is guarded, and there is an error just where an answer that was needed is one.
  abbrev pub IsOutcome :
      PromptData → List String → W → Drafted (DraftResponse × List String) → Type 0
  IsOutcome prompt_data banned w (done d) = IsGuarded prompt_data banned w d
  IsOutcome prompt_data banned w (failed _) =
      (e : String) × (((ask t prompt_data w).0 ≡ err e) ⊎ AreAnswers prompt_data banned w (err e))
  IsOutcome prompt_data banned w crash = CutPanics prompt_data banned w

  settle_retry-IsOutcome :
      (prompt_data : PromptData) (banned : List String) (w : W) (first : String)
      (retried : Reply DraftResponse)
      → AreAnswers prompt_data banned w retried
      → IsOutcome prompt_data banned w (settle_retry t first banned retried)
  unfolding settle_retry
  settle_retry-IsOutcome prompt_data banned w first (err e) k = (e, inr k)
  settle_retry-IsOutcome prompt_data banned w first (ok r) k =
      elim (List-cases (violations_of t r.text banned)) [
        | inl e ↦ rw (e, settle_retry) (e, inr k)
        | inr (v, vs, e) ↦
            elim (Cut-cases (strip_each t.bytes t.lower t.trim (t.bytes r.text) (v ∷ vs))) [
              | inl (rest, c) ↦ rw (e, settle_retry) (rw c (r, rest, k, e, c, refl))
              | inr (inl c) ↦ rw (e, settle_retry) (rw c (r, k, inl (rw e c)))
              | inr (inr c) ↦ rw (e, settle_retry) (rw c (r, k, inr (rw e c)))
            ]
      ]

  -- Whatever the model answers: a draft that comes back without violations has none and is the
  -- model's first or second answer. One that comes back with them is its second answer, asked for
  -- with the violations of the first, once what it still violated was cut from its text. There is
  -- an error only where the first answer is one, or the second after a first with violations; and
  -- no result at all only where the cutting of a second answer gives none.
  pub draft_within_guardrails-IsOutcome :
      (prompt_data : PromptData) (banned : List String) (w : W)
      → IsOutcome prompt_data banned w (draft_within_guardrails t prompt_data banned w).0
  unfolding draft_within_guardrails
  draft_within_guardrails-IsOutcome prompt_data banned w =
      elim (Reply-cases (ask t prompt_data w).0) [
        | inl (e, q) ↦ rw (q, draft_within_guardrails) (e, inl q)
        | inr (first, q) ↦ elim (List-cases (violations_of t first.text banned)) [
          | inl e ↦ rw (q, draft_within_guardrails) (rw e (e, inl q))
          | inr (v, vs, e) ↦
              rw (q, draft_within_guardrails)
                (rw e (
                  settle_retry-IsOutcome prompt_data banned w v
                    (ask t (retry_of prompt_data (v ∷ vs)) (ask t prompt_data w).1).0
                    (first, v, vs, q, e, refl)))
        ]
      ]

  pub draft_within_guardrails-IsGuarded :
      (prompt_data : PromptData) (banned : List String) (w : W) (d : DraftResponse × List String)
      → (draft_within_guardrails t prompt_data banned w).0 ≡ done d
      → IsGuarded prompt_data banned w d
  draft_within_guardrails-IsGuarded prompt_data banned w d h =
      subst (IsOutcome prompt_data banned w) h
        (draft_within_guardrails-IsOutcome prompt_data banned w)
