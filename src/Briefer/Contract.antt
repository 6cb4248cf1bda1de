-- ===== src/Briefer/Contract.antt =====
-- What the briefer promises of a brief.
use brand_pulse.Prelude.{
  ℕ, zero, suc, ◌≤◌, ◌≡◌, refl, ap, ◌≢◌, inl, inr, not, String, List, [], ◌∷◌, map, none, length,
  length-take, take, keep, is_empty, is_empty_of_ne, Float, ok, Bool-cases, arith,
}
use brand_pulse.Models.Topic.{DailyBrief, whatsapp_short_limit, validate_brief}
use brand_pulse.Orchestrator.Env.{BriefInput}
use brand_pulse.Briefer.{
  clean_actions_from, clean_actions, max_suggested_actions, write, marked_brief, rendered_brief,
  draft_brief, handle,
}
use brand_pulse.Briefer.Prompt.{BriefResponse, Tools}
use brand_pulse.Briefer.Format.{Bytes, Printer, trim_text, truncate_at_sentence}
use brand_pulse.Briefer.Limit.{NeverLengthens, truncate_at_sentence-le_limit}
use brand_pulse.Briefer.Render.{render_whatsapp, whatsapp_text}

-- The actions of a brief, told at once: the first four that are not blank, trimmed.
abbrev pub spoken : {R : Type 0} → Printer R → List String → List String
spoken t actions = keep (λ a. not (is_empty a)) (map (trim_text t) actions)

clean_actions_from-eq :
    {R : Type 0} (t : Printer R) (left : ℕ) (actions : List String)
    → clean_actions_from t left actions ≡ take left (spoken t actions)
unfolding clean_actions_from
clean_actions_from-eq t zero actions = refl
clean_actions_from-eq t (suc left) [] = refl
clean_actions_from-eq t (suc left) (a ∷ rest) = elim (Bool-cases (is_empty (trim_text t a))) [
  | inl e ↦ rw (e, clean_actions_from) (clean_actions_from-eq t (suc left) rest)
  | inr e ↦
      rw (e, clean_actions_from) (ap (λ l. trim_text t a ∷ l) (clean_actions_from-eq t left rest))
]

-- The loop of cleanActions leaves the first four actions that are not blank, trimmed.
pub clean_actions-eq-take :
    {R : Type 0} (t : Printer R) (actions : List String)
    → clean_actions t actions ≡ take max_suggested_actions (spoken t actions)
unfolding clean_actions
clean_actions-eq-take t actions = clean_actions_from-eq t max_suggested_actions actions

-- What holds of Go's strings: one made of some bytes has as many, and trimming only takes away.
pub record IsFaithful {R : Type 0} (t : Printer R) : Type 0 where
  pub same_length : (text : Bytes) → length (t.bytes (t.of_bytes text)) ≡ length text
  pub trim_shortens : NeverLengthens t.trim

module _ {R W : Type 0} ⦃f : Float R⦄ (t : Tools R W) (g : IsFaithful t.printer) where
  render_whatsapp-le_limit :
      (brief : DailyBrief R)
      → length (t.printer.bytes (render_whatsapp t.printer brief)) ≤ whatsapp_short_limit
  unfolding render_whatsapp
  render_whatsapp-le_limit brief =
      let text = t.printer.trim (t.printer.bytes (whatsapp_text t.printer brief)) in
      omega (
        arith,
        g.same_length (truncate_at_sentence t.printer text whatsapp_short_limit),
        truncate_at_sentence-le_limit t.printer text whatsapp_short_limit g.trim_shortens,
      )

  rendered_brief-IsValid :
      (input : BriefInput R) (written : BriefResponse)
      → input.brand_id ≢ ""
      → validate_brief t.printer.bytes (rendered_brief t input written) ≡ none
  unfolding rendered_brief marked_brief draft_brief validate_brief
  rendered_brief-IsValid input written h =
      let named = is_empty_of_ne input.brand_id h in
      let short = render_whatsapp-le_limit (marked_brief t input written) in ground arith

  -- For input with a brand, a brief that the model has written is never refused: what comes back
  -- has the numbers that came in, at most four actions, and a short text of at most 600 bytes.
  pub handle_keeps_limit :
      (input : BriefInput R) (w : W) (written : BriefResponse)
      → input.brand_id ≢ ""
      → (write t input w).0 ≡ ok written
      → ((handle t input w).0 ≡ ok (rendered_brief t input written))
        × ((rendered_brief t input written).numbers ≡ input.numbers)
        × (length (rendered_brief t input written).suggested_actions ≤ 4)
        × (length (t.printer.bytes (rendered_brief t input written).whatsapp_short) ≤ 600)
  unfolding handle rendered_brief marked_brief draft_brief
  handle_keeps_limit input w written h q = (
    rw (is_empty_of_ne input.brand_id h, handle)
        (rw q (rw (rendered_brief-IsValid input written h) refl)),
    refl,
    omega (
      arith,
      ap length (clean_actions-eq-take t.printer written.suggested_actions),
      length-take max_suggested_actions (spoken t.printer written.suggested_actions),
    ),
    render_whatsapp-le_limit (marked_brief t input written),
  )
