-- ===== src/Responder/Prompt.antt =====
-- agents/bp-responder/main.go: what the model is asked with.
use brand_pulse.Prelude.{
  Bool, false, ◌||◌, String, List, [], ◌∷◌, ◌++◌, none, some, str_eq, ◌^^◌, Reply, if◌then◌else◌,
}
use brand_pulse.Models.Labels.{alert_crisis, alert_review_bomb, alert_competitor_move}
use brand_pulse.Models.Brand.{BrandProfile}
use brand_pulse.Models.Mention.{Mention}
use brand_pulse.Models.Alert.{AlertEvidence}
use brand_pulse.Orchestrator.Env.{RespondInput}
use brand_pulse.Llm.Usage.{Chat}
use brand_pulse.Responder.Guardrails.{Bytes}

abbrev intent_holding_statement : String
intent_holding_statement = "holding_statement"

abbrev intent_factual_correction : String
intent_factual_correction = "factual_correction"

abbrev intent_acknowledge : String
intent_acknowledge = "acknowledge_and_route"

pub record DraftResponse : Type 0 where
  pub text : String
  pub tone : String

pub record PromptData : Type 0 where
  pub brand : String
  pub tone : String
  pub language : String
  pub signature : String
  pub channel : String
  pub intent : String
  pub subject : String
  pub situation : String
  pub do_not_say : List String
  pub guardrails : List String
  pub retry : Bool
  pub violations : List String

-- What the agent asks of others.
pub record Tools (R W : Type 0) : Type 0 where
  pub chat : Chat R W
  pub render : PromptData → Reply String
  pub decode : String → Reply DraftResponse
  pub redact : String → String
  pub show : R → String
  pub bytes : String → Bytes
  pub lower : Bytes → Bytes
  pub trim : String → String
  pub tidy : Bytes → String
  pub guardrails : List String
  pub new_id : W → String × W

unfoldable pub reply_intent_for : {R : Type 0} → RespondInput R → String
reply_intent_for input = elim input.alert [
  | none ↦ intent_acknowledge
  | some a ↦
      if str_eq a.kind alert_crisis || str_eq a.kind alert_review_bomb
      then intent_holding_statement
      else if str_eq a.kind alert_competitor_move
      then intent_factual_correction
      else intent_acknowledge
]

module _ {R W : Type 0} (t : Tools R W) where
  unfoldable pub banned_phrases : BrandProfile → List String
  banned_phrases profile = t.guardrails ++ profile.voice.do_not_say

  -- the lines of subjectAndContext's two loops
  unfoldable evidence_lines : List (AlertEvidence R) → String
  evidence_lines [] = ""
  evidence_lines (e ∷ es) =
      "\n- "
      ^^ e.metric
      ^^ ": "
      ^^ t.show e.value
      ^^ " (fires at "
      ^^ t.show e.threshold
      ^^ ", over "
      ^^ e.window
      ^^ ")"
      ^^ evidence_lines es

  unfoldable sample_lines : List (Mention R) → String
  sample_lines [] = ""
  sample_lines (m ∷ ms) = "- (" ^^ m.source ^^ ") " ^^ t.redact m.text ^^ "\n" ^^ sample_lines ms

  -- subjectAndContext. With neither an alert nor a mention, which validateSubject refuses, it would
  -- dereference nil.
  unfoldable pub subject_and_context : RespondInput R → String × String
  unfolding evidence_lines sample_lines
  subject_and_context input = elim input.mention [
    | some m ↦ ("A " ^^ m.source ^^ " mention: " ^^ t.redact m.text, "")
    | none ↦ elim input.alert [
      | none ↦ ("", "")
      | some a ↦ (
        t.trim ("What people are actually saying:\n" ^^ sample_lines a.sample_mentions),
        a.title ^^ ". " ^^ a.why ^^ evidence_lines a.evidence,
      )
    ]
  ]

  unfoldable pub build_prompt_data : RespondInput R → PromptData
  unfolding subject_and_context reply_intent_for
  build_prompt_data input =
      let (subject, situation) = subject_and_context input in
      record {
        brand = input.profile.name;
        tone = input.profile.voice.tone;
        language = input.profile.voice.language;
        signature = input.profile.voice.signature;
        channel = input.channel;
        intent = reply_intent_for input;
        subject = subject;
        situation = situation;
        do_not_say = input.profile.voice.do_not_say;
        guardrails = t.guardrails;
        retry = false;
        violations = [];
      }
