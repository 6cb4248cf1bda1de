-- ===== src/Responder/Calls.antt =====
-- How often the responder asks the model.
use brand_pulse.Prelude.{
  ℕ, suc, ◌+◌, ◌≤◌, ◌≡◌, refl, inl, inr, true, String, List, ◌∷◌, Reply-cases, List-cases,
  Option-cases, arith,
}
use brand_pulse.Models.Alert.{validate_draft}
use brand_pulse.Orchestrator.Env.{RespondInput}
use brand_pulse.Responder.{
  Drafted-cases, ask, draft_within_guardrails, violations_of, assemble, build_reply_draft,
  validate_subject, handle,
}
use brand_pulse.Responder.Prompt.{
  DraftResponse, PromptData, Tools, banned_phrases, build_prompt_data,
}

module _ {R W : Type 0} (t : Tools R W) where
  -- the same tools on a world that counts the calls of the model
  abbrev pub counted : Tools R (W × ℕ)
  counted = record {
    chat = λ prompt opt s. let (answer, w) = t.chat prompt opt s.0 in (answer, (w, suc s.1));
    render = t.render;
    decode = t.decode;
    redact = t.redact;
    show = t.show;
    bytes = t.bytes;
    lower = t.lower;
    trim = t.trim;
    tidy = t.tidy;
    guardrails = t.guardrails;
    new_id = λ s. let (id, w) = t.new_id s.0 in (id, (w, s.1));
  }

  ask_calls : (p : PromptData) (s : W × ℕ) → (ask counted p s).1.1 ≤ suc s.1
  unfolding ask
  ask_calls p s = elim (Reply-cases (t.render p)) [
    | inl (_, e) ↦ rw (e, ask) omega arith
    | inr (_, e) ↦ rw (e, ask) omega arith
  ]

  draft_calls :
      (p : PromptData) (banned : List String) (s : W × ℕ)
      → (draft_within_guardrails counted p banned s).1.1 ≤ s.1 + 2
  unfolding draft_within_guardrails
  draft_calls p banned s =
      let once = ask_calls p s in
      elim (Reply-cases (ask counted p s).0) [
        | inl (e, q) ↦ rw (q, draft_within_guardrails) omega arith
        | inr (first, q) ↦ elim (List-cases (violations_of t first.text banned)) [
          | inl e ↦ rw (q, draft_within_guardrails) (rw e omega arith)
          | inr (v, vs, e) ↦
              let again = record p { retry = true; violations = v ∷ vs } in
              let twice = ask_calls again (ask counted p s).1 in
              rw (q, draft_within_guardrails) (rw e omega arith)
        ]
      ]

  build_calls :
      (input : RespondInput R) (d : DraftResponse) (stripped banned : List String) (s : W × ℕ)
      → (build_reply_draft counted input d stripped banned s).1.1 ≡ s.1
  unfolding build_reply_draft
  build_calls input d stripped banned s =
      elim (Option-cases
        (validate_draft (assemble counted (t.new_id s.0).0 input d stripped banned))) [
          | inl e ↦ rw (e, build_reply_draft) refl
          | inr (_, e) ↦ rw (e, build_reply_draft) refl
        ]

  -- A reply takes at most two calls of the model, however it ends.
  pub handle_calls :
      (input : RespondInput R) (w : W) (n : ℕ) → (handle counted input (w, n)).1.1 ≤ n + 2
  unfolding handle
  handle_calls input w n = elim (Option-cases (validate_subject input)) [
    | inr (x, e) ↦ rw (e, handle) omega arith
    | inl e ↦
        let banned = banned_phrases t input.profile in
        let p = build_prompt_data t input in
        let drafted = draft_within_guardrails counted p banned (w, n) in
        let calls = draft_calls p banned (w, n) in
        elim (Drafted-cases drafted.0) [
          | inl (d, q) ↦
              let built = build_calls input d.0 d.1 banned drafted.1 in
              rw (e, handle) (rw q omega arith)
          | inr (inl (_, q)) ↦ rw (e, handle) (rw q omega arith)
          | inr (inr q) ↦ rw (e, handle) (rw q omega arith)
        ]
  ]
