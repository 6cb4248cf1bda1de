-- ===== src/Briefer.antt =====
-- agents/bp-briefer/main.go: the agent that writes the brief. `chat` is the model, `render` the
-- template and `decode` json.Unmarshal.
pub mod Format
pub mod Limit
pub mod Prompt
pub mod Render
pub mod Commas
pub mod Contract
use brand_pulse.Prelude.{
  ℕ, zero, suc, true, false, String, List, [], ◌∷◌, ◌++◌, map, Option, none, some, length, take,
  lookup_or, keep, sort_stable, str_lt, join, itoa, is_empty, Float, Reply, ok, err, ◌^^◌,
  if◌then◌else◌,
}
use brand_pulse.Models.Alert.{Alert}
use brand_pulse.Models.Mention.{Mention}
use brand_pulse.Models.Topic.{
  Topic, BriefNumbers, DailyBrief, new_daily_brief, BriefError, no_brand_id, too_long,
  validate_brief,
}
use brand_pulse.Orchestrator.Env.{BriefInput}
use brand_pulse.Llm.Usage.{Chat}
use brand_pulse.Briefer.Format.{Printer, trim_text, format_numbers_line, format_trend}
use brand_pulse.Briefer.Render.{
  most_severe, first_n, numbered, lines_of, evidence_line, render_whatsapp, render_markdown,
}
use brand_pulse.Briefer.Prompt.{
  BriefResponse, Tools, period_of, competitor_watch, build_prompt_data,
}

abbrev briefer_model : String
briefer_model = "bp-briefer-default"

abbrev briefer_max_tokens : ℕ
briefer_max_tokens = 1400

abbrev pub max_suggested_actions : ℕ
max_suggested_actions = 4

module _ {R : Type 0} where
  -- cleanActions: the loop stops at the fourth action that is not blank, here with `left` to go
  unfoldable pub clean_actions_from : Printer R → ℕ → List String → List String
  unfolding trim_text
  clean_actions_from t zero actions = []
  clean_actions_from t (suc left) [] = []
  clean_actions_from t (suc left) (a ∷ rest) = elim (is_empty (trim_text t a)) [
    | true ↦ clean_actions_from t (suc left) rest
    | false ↦ trim_text t a ∷ clean_actions_from t left rest
  ]

  unfoldable pub clean_actions : Printer R → List String → List String
  unfolding clean_actions_from
  clean_actions t actions = clean_actions_from t max_suggested_actions actions

module _ {R W : Type 0} ⦃f : Float R⦄ (t : Tools R W) where
  -- what write makes of the model's answer
  unfoldable pub read_brief : Reply String → Reply BriefResponse
  unfolding trim_text
  read_brief (err e) = err ("bp-briefer: writing the brief: " ^^ e)
  read_brief (ok body) = elim (t.decode body) [
    | err e ↦ err ("bp-briefer: the model did not return the brief shape: " ^^ e)
    | ok written ↦
        if is_empty (trim_text t.printer written.headline)
        then err "bp-briefer: the model returned no headline"
        else ok written
  ]

  unfoldable pub write : BriefInput R → W → Reply BriefResponse × W
  unfolding build_prompt_data read_brief
  write input w = elim (t.render (build_prompt_data t input)) [
    | err e ↦ (err ("bp-briefer: rendering the prompt: " ^^ e), w)
    | ok prompt ↦
        let (answer, w') =
          t.chat prompt (record { model = briefer_model; max_tokens = briefer_max_tokens }) w in
        (read_brief answer.0, w')
  ]

  -- the brief, before its two renderings
  unfoldable pub draft_brief : BriefInput R → BriefResponse → DailyBrief R
  unfolding new_daily_brief competitor_watch trim_text clean_actions
  draft_brief input written =
      record (new_daily_brief input.numbers input.brand_id input.period_start input.period_end) {
        top_topics = input.topics;
        alerts = input.alerts;
        competitor_watch = competitor_watch input;
        headline = trim_text t.printer written.headline;
        suggested_actions = clean_actions t.printer written.suggested_actions;
      }

  -- with the markdown
  unfoldable pub marked_brief : BriefInput R → BriefResponse → DailyBrief R
  unfolding draft_brief render_markdown period_of
  marked_brief input written =
      let brief = draft_brief input written in
      record brief {
        markdown =
            render_markdown t.printer brief (period_of input) input.profile.name written.narrative;
      }

  unfoldable pub rendered_brief : BriefInput R → BriefResponse → DailyBrief R
  unfolding marked_brief render_whatsapp
  rendered_brief input written =
      let brief = marked_brief input written in
      record brief { whatsapp_short = render_whatsapp t.printer brief }

  unfoldable brief_error_text : BriefError → String
  unfolding itoa
  brief_error_text no_brand_id = "models: DailyBrief.brand_id is required"
  brief_error_text (too_long n) =
      "models: DailyBrief.whatsapp_short is " ^^ itoa n ^^ " chars, limit is 600"

  -- Handle
  unfoldable pub handle : BriefInput R → W → Reply (DailyBrief R) × W
  unfolding write rendered_brief validate_brief brief_error_text
  handle input w =
      if is_empty input.brand_id
      then (err "bp-briefer: BriefInput.brand_id is required", w)
      else let (written, w') = write input w in
        elim written [
          | err e ↦ (err e, w')
          | ok response ↦
              let brief = rendered_brief input response in
              elim (validate_brief t.printer.bytes brief) [
                | none ↦ (ok brief, w')
                | some e ↦ (err ("bp-briefer: " ^^ brief_error_text e), w')
              ]
        ]
