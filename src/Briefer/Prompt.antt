-- ===== src/Briefer/Prompt.antt =====
-- agents/bp-briefer/main.go: what the briefer hands to its prompt.
use brand_pulse.Prelude.{
  ℕ, suc, String, List, [], ◌∷◌, map, length, take, lookup_or, keep, sort_stable, str_lt, join,
  itoa, is_empty, Float, Reply, ◌^^◌, if◌then◌else◌,
}
use brand_pulse.Models.Alert.{Alert}
use brand_pulse.Models.Mention.{Mention}
use brand_pulse.Models.Topic.{Topic}
use brand_pulse.Orchestrator.Env.{BriefInput}
use brand_pulse.Llm.Usage.{Chat}
use brand_pulse.Briefer.Format.{Printer, trim_text, format_numbers_line, format_trend}
use brand_pulse.Briefer.Render.{most_severe, first_n, lines_of, evidence_line}

abbrev prompt_topics : ℕ
prompt_topics = 8

abbrev prompt_examples : ℕ
prompt_examples = 2

pub record BriefResponse : Type 0 where
  pub headline : String
  pub narrative : String
  pub suggested_actions : List String

pub record PromptData : Type 0 where
  pub period : String
  pub brand : String
  pub period_start : String
  pub period_end : String
  pub numbers : String
  pub topics : String
  pub alerts : String
  pub competitors : String
  pub language : String

-- What the agent asks of others.
pub record Tools (R W : Type 0) : Type 0 where
  pub chat : Chat R W
  pub render : PromptData → Reply String
  pub decode : String → Reply BriefResponse
  pub printer : Printer R

module _ {R : Type 0} where
  unfoldable pub period_of : BriefInput R → String
  period_of input = if is_empty input.period then "daily" else input.period

  unfoldable language_of : BriefInput R → String
  language_of input =
      let language = input.profile.voice.language in
      if is_empty language then "English" else language

module _ {R : Type 0} ⦃f : Float R⦄ where
  unfoldable pub competitor_watch : BriefInput R → List String
  unfolding lookup_or
  competitor_watch input = sort_stable str_lt (
      keep (λ name. f.lt (f.of_ℕ 0) (lookup_or (f.of_ℕ 0) name input.sov.competitor_shares))
        input.profile.competitors)

module _ {R W : Type 0} ⦃f : Float R⦄ (t : Tools R W) where
  unfoldable quote_lines : String → List (Mention R) → String
  unfolding lines_of
  quote_lines indent ms = lines_of (
      map
        (λ (m : Mention R). indent ^^ "- (" ^^ m.source ^^ ") " ^^ t.printer.redact m.text ^^ "\n")
        (take prompt_examples ms))

  -- promptTopicList's loop, from the topic numbered `i`
  unfoldable topic_lines : ℕ → List (Topic R) → String
  unfolding quote_lines format_trend itoa
  topic_lines i [] = ""
  topic_lines i (x ∷ xs) =
      itoa i
      ^^ ". "
      ^^ x.label
      ^^ ", "
      ^^ itoa x.size
      ^^ " mentions, "
      ^^ format_trend t.printer x.trend
      ^^ ". "
      ^^ x.summary
      ^^ "\n"
      ^^ quote_lines "   " x.top_examples
      ^^ topic_lines (suc i) xs

  unfoldable prompt_topic_list : List (Topic R) → String
  unfolding topic_lines first_n trim_text
  prompt_topic_list topics = trim_text t.printer (topic_lines 1 (first_n topics prompt_topics))

  unfoldable prompt_alert_list : List (Alert R) → String
  unfolding most_severe lines_of evidence_line quote_lines trim_text
  prompt_alert_list alerts = trim_text t.printer (
      lines_of (
        map
          (λ (a : Alert R).
            "- "
            ^^ a.kind
            ^^ " ("
            ^^ a.severity
            ^^ "): "
            ^^ a.why
            ^^ "\n"
            ^^ lines_of (map (evidence_line t.printer) a.evidence)
            ^^ quote_lines "  " a.sample_mentions)
          (most_severe alerts (length alerts))))

  unfoldable pub build_prompt_data : BriefInput R → PromptData
  unfolding period_of language_of format_numbers_line prompt_topic_list prompt_alert_list
      competitor_watch join
  build_prompt_data input = record {
    period = period_of input;
    brand = input.profile.name;
    period_start = t.printer.minute input.period_start;
    period_end = t.printer.minute input.period_end;
    numbers = format_numbers_line t.printer input.numbers;
    topics = prompt_topic_list input.topics;
    alerts = prompt_alert_list input.alerts;
    competitors = join ", " (competitor_watch input);
    language = language_of input;
  }
