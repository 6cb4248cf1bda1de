-- ===== src/Responder.antt =====
-- agents/bp-responder/main.go: the agent that drafts a reply and never posts it. `chat` is the
-- model, `render` the template, `decode` json.Unmarshal, `redact` redact.PII, `show` Sprintf's %v,
-- and `tidy` the regular expressions that tidy a text that was cut.
pub mod Guardrails
pub mod Removal
pub mod Violations
pub mod Prompt
pub mod Drafts
pub mod Answers
pub mod Calls
use brand_pulse.Prelude.{
  ◌≡◌, refl, ◌⊎◌, inl, inr, ℕ, Bool, true, false, ◌||◌, String, List, [], ◌∷◌, ◌++◌, Option, none,
  some, is_empty, str_eq, join, ◌^^◌, Reply, ok, err, if◌then◌else◌,
}
use brand_pulse.Models.Labels.{alert_crisis, alert_review_bomb, alert_competitor_move}
use brand_pulse.Models.Brand.{BrandProfile}
use brand_pulse.Models.Mention.{Mention}
use brand_pulse.Models.Alert.{
  Alert, AlertEvidence, ReplyDraft, new_reply_draft, DraftError, no_draft_id, no_subject, no_text,
  validate_draft,
}
use brand_pulse.Orchestrator.Env.{RespondInput}
use brand_pulse.Llm.Usage.{Chat, Usage}
use brand_pulse.Responder.Prompt.{
  DraftResponse, PromptData, Tools, banned_phrases, build_prompt_data,
}
use brand_pulse.Responder.Guardrails.{
  Bytes, Cut, kept, panicked, out_of_fuel, violations_in, strip_each,
}

abbrev responder_model : String
responder_model = "bp-responder-default"

abbrev responder_max_tokens : ℕ
responder_max_tokens = 700

abbrev stripped_tone_note : String
stripped_tone_note = "guardrail phrase removed, re-read before sending"

-- A handler gives a value or an error, or its cut panics. A loop without fuel is `crash` too, which
-- does not happen (Removal.strip_each_ends).
pub data Drafted (A : Type 0) : Type 0 where
  done : A → Drafted A
  failed : String → Drafted A
  crash : Drafted A

pub Drafted-cases :
    {A : Type 0} (x : Drafted A)
    → ((a : A) × (x ≡ done a)) ⊎ (((e : String) × (x ≡ failed e)) ⊎ (x ≡ crash))
Drafted-cases (done a) = inl (a, refl)
Drafted-cases (failed e) = inr (inl (e, refl))
Drafted-cases crash = inr (inr refl)

-- validateSubject, whose error is of malformed input
unfoldable pub validate_subject : {R : Type 0} → RespondInput R → Option String
validate_subject input = elim input.alert [
  | none ↦ elim input.mention [
    | none ↦
        some
          "bp-responder: RespondInput has neither an alert nor a mention, there is nothing to reply to"
    | some _ ↦ none
  ]
  | some _ ↦ elim input.mention [
    | none ↦ none
    | some _ ↦
        some "bp-responder: RespondInput has both an alert and a mention, exactly one is allowed"
  ]
]

unfoldable draft_error_text : ReplyDraft → DraftError → String
draft_error_text d no_draft_id = "models: ReplyDraft.id is required"
draft_error_text d no_subject =
    "models: ReplyDraft \"" ^^ d.id ^^ "\" must reference an alert or a mention"
draft_error_text d no_text = "models: ReplyDraft \"" ^^ d.id ^^ "\" has no text"

module _ {R W : Type 0} (t : Tools R W) where
  -- what ask makes of the model's answer
  unfoldable pub read_answer : Reply String → Reply DraftResponse
  read_answer (err e) = err ("bp-responder: drafting: " ^^ e)
  read_answer (ok body) = elim (t.decode body) [
    | err e ↦ err ("bp-responder: the model did not return the draft shape: " ^^ e)
    | ok draft ↦
        if is_empty (t.trim draft.text)
        then err "bp-responder: the model returned an empty draft"
        else ok draft
  ]

  unfoldable pub ask : PromptData → W → Reply DraftResponse × W
  unfolding read_answer
  ask prompt_data w = elim (t.render prompt_data) [
    | err e ↦ (err ("bp-responder: rendering the prompt: " ^^ e), w)
    | ok prompt ↦
        let (answer, w') =
          t.chat prompt (record { model = responder_model; max_tokens = responder_max_tokens }) w in
        (read_answer answer.0, w')
  ]

  abbrev pub violations_of : String → List String → List String
  violations_of = violations_in t.bytes t.lower t.trim

  -- The end of draftWithinGuardrails: the second draft, with what it still violates.
  unfoldable pub settle_retry :
      String → List String → Reply DraftResponse → Drafted (DraftResponse × List String)
  unfolding strip_each violations_in
  settle_retry first banned (err e) =
      failed ("bp-responder: regenerating after \"" ^^ first ^^ "\": " ^^ e)
  settle_retry first banned (ok retried) =
      let still = violations_of retried.text banned in
      elim still [
        | [] ↦ done (retried, [])
        | v ∷ vs ↦ elim (strip_each t.bytes t.lower t.trim (t.bytes retried.text) (v ∷ vs)) [
          | kept rest ↦ done (record retried { text = t.tidy rest }, v ∷ vs)
          | panicked ↦ crash
          | out_of_fuel ↦ crash
        ]
      ]

  unfoldable pub draft_within_guardrails :
      PromptData → List String → W → Drafted (DraftResponse × List String) × W
  unfolding ask violations_in settle_retry
  draft_within_guardrails prompt_data banned w =
      let (first, w') = ask prompt_data w in
      elim first [
        | err e ↦ (failed e, w')
        | ok draft ↦ elim (violations_of draft.text banned) [
          | [] ↦ (done (draft, []), w')
          | v ∷ vs ↦
              let (retried, w'') =
                ask (record prompt_data { retry = true; violations = v ∷ vs }) w' in
              (settle_retry v banned retried, w'')
        ]
      ]

  -- the tone, with a note on what was cut
  unfoldable pub tone_with_note : String → List String → String
  unfolding join
  tone_with_note tone [] = tone
  tone_with_note tone (v ∷ vs) =
      t.trim (tone ^^ "; " ^^ stripped_tone_note ^^ ": " ^^ join ", " (v ∷ vs))

  abbrev alert_id_of : RespondInput R → String
  alert_id_of input = elim input.alert [ some a ↦ a.id | none ↦ "" ]

  abbrev mention_id_of : RespondInput R → String
  mention_id_of input = elim input.alert [
    | some _ ↦ ""
    | none ↦ elim input.mention [ some m ↦ m.id | none ↦ "" ]
  ]

  -- the draft of buildReplyDraft, before Validate
  unfoldable pub assemble :
      String → RespondInput R → DraftResponse → List String → List String → ReplyDraft
  unfolding new_reply_draft tone_with_note
  assemble id input drafted stripped banned = record (new_reply_draft id input.channel) {
    text = t.trim drafted.text;
    tone = tone_with_note drafted.tone stripped;
    do_not_say = banned;
    alert_id = alert_id_of input;
    mention_id = mention_id_of input;
  }

  unfoldable pub build_reply_draft :
      RespondInput R → DraftResponse → List String → List String → W → Drafted ReplyDraft × W
  unfolding assemble validate_draft draft_error_text
  build_reply_draft input drafted stripped banned w =
      let (id, w') = t.new_id w in
      let draft = assemble id input drafted stripped banned in
      elim (validate_draft draft) [
        | none ↦ (done draft, w')
        | some e ↦ (failed ("bp-responder: " ^^ draft_error_text draft e), w')
      ]

  -- Handle
  unfoldable pub handle : RespondInput R → W → Drafted ReplyDraft × W
  unfolding validate_subject banned_phrases build_prompt_data draft_within_guardrails
      build_reply_draft
  handle input w = elim (validate_subject input) [
    | some e ↦ (failed e, w)
    | none ↦
        let banned = banned_phrases t input.profile in
        let (drafted, w') = draft_within_guardrails (build_prompt_data t input) banned w in
        elim drafted [
          | failed e ↦ (failed e, w')
          | crash ↦ (crash, w')
          | done d ↦ build_reply_draft input d.0 d.1 banned w'
        ]
  ]
