-- ===== src/Responder/Answers.antt =====
-- What the responder hands over, and why it hands over nothing.
use brand_pulse.Prelude.{◌≡◌, ◌≢◌, ◌⊎◌, String, List, ◌++◌, none, some}
use brand_pulse.Models.Mention.{Mention}
use brand_pulse.Models.Alert.{Alert, ReplyDraft}
use brand_pulse.Orchestrator.Env.{RespondInput}
use brand_pulse.Responder.{Drafted, done, failed, crash, alert_id_of, mention_id_of}
use brand_pulse.Responder.Prompt.{DraftResponse, Tools, banned_phrases, build_prompt_data}
use brand_pulse.Responder.Drafts.{IsGuarded, IsOutcome, CutPanics}

module _ {R W : Type 0} (t : Tools R W) where
  -- The draft replies to the one subject of the input: its alert or its mention, never both.
  abbrev pub RepliesTo : RespondInput R → ReplyDraft → Type 0
  RepliesTo input draft =
      ((a : Alert R) × (input.alert ≡ some a)
        × (input.mention ≡ none)
        × (draft.alert_id ≡ a.id)
        × (draft.mention_id ≡ ""))
      ⊎ ((m : Mention R) × (input.alert ≡ none)
          × (input.mention ≡ some m)
          × (draft.alert_id ≡ "")
          × (draft.mention_id ≡ m.id))

  -- why there is no draft to hand over
  pub data Refusal (input : RespondInput R) (w : W) : Type 0 where
    no_alert_or_mention : input.alert ≡ none → input.mention ≡ none → Refusal input w
    alert_and_mention :
        (a : Alert R) (m : Mention R)
        → input.alert ≡ some a
        → input.mention ≡ some m
        → Refusal input w
    not_drafted :
        IsOutcome t (build_prompt_data t input) (banned_phrases t input.profile) w (failed "")
        → Refusal input w
    not_valid :
        (id : String) (d : DraftResponse × List String)
        → IsGuarded t (build_prompt_data t input) (banned_phrases t input.profile) w d
        → (id ≡ "")
          ⊎ ((alert_id_of t input ≡ "") × (mention_id_of t input ≡ ""))
          ⊎ (t.trim d.0.text ≡ "")
        → Refusal input w

  -- what stands behind a draft that is handed over
  abbrev pub IsAnswer : RespondInput R → W → Drafted ReplyDraft → Type 0
  IsAnswer input w (done draft) =
      RepliesTo input draft
      × (draft.id ≢ "")
      × (draft.text ≢ "")
      × (draft.channel ≡ input.channel)
      × (draft.do_not_say ≡ t.guardrails ++ input.profile.voice.do_not_say)
      × (d : DraftResponse × List String) × IsGuarded t (build_prompt_data t input) draft.do_not_say
          w d
      × (draft.text ≡ t.trim d.0.text)
  IsAnswer input w (failed _) = Refusal input w
  IsAnswer input w crash =
      CutPanics t (build_prompt_data t input) (banned_phrases t input.profile) w
