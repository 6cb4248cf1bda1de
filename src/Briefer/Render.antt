-- ===== src/Briefer/Render.antt =====
-- agents/bp-briefer/render.go: the short brief for a phone, and the whole one in markdown.
use brand_pulse.Prelude.{
  ℕ, suc, Bool, ltb, String, List, [], ◌∷◌, map, length, take, sort_stable, join, itoa, is_empty,
  str_eq, Float, ◌^^◌, if◌then◌else◌,
}
use brand_pulse.Models.Labels.{
  Severity, severity_critical, severity_high, severity_medium, severity_low,
}
use brand_pulse.Models.Alert.{Alert, AlertEvidence}
use brand_pulse.Models.Topic.{Topic, BriefNumbers, DailyBrief, whatsapp_short_limit}
use brand_pulse.Briefer.Format.{
  Printer, trim_text, format_percent, format_delta, format_sentiment, format_trend, commas,
  format_numbers_line, format_date_range, plain, truncate_at_sentence,
}

abbrev whatsapp_topics : ℕ
whatsapp_topics = 3

abbrev whatsapp_actions : ℕ
whatsapp_actions = 2

abbrev whatsapp_alerts : ℕ
whatsapp_alerts = 1

abbrev markdown_topics : ℕ
markdown_topics = 8

unfoldable pub severity_rank : Severity → ℕ
severity_rank s =
    if str_eq s severity_critical
    then 4
    else if str_eq s severity_high
    then 3
    else if str_eq s severity_medium
    then 2
    else if str_eq s severity_low
    then 1
    else 0

unfoldable pub is_worse : {R : Type 0} → Alert R → Alert R → Bool
unfolding severity_rank
is_worse a b = ltb (severity_rank b.severity) (severity_rank a.severity)

-- mostSevere
unfoldable pub most_severe : {R : Type 0} → List (Alert R) → ℕ → List (Alert R)
unfolding is_worse
most_severe alerts n = take n (sort_stable is_worse alerts)

-- firstN
unfoldable pub first_n : {R : Type 0} → List (Topic R) → ℕ → List (Topic R)
first_n topics n = take n topics

-- A numbered list, from `i`.
unfoldable pub numbered : ℕ → List String → String
unfolding itoa
numbered i [] = ""
numbered i (line ∷ lines) = itoa i ^^ ". " ^^ line ^^ "\n" ^^ numbered (suc i) lines

unfoldable pub lines_of : List String → String
lines_of [] = ""
lines_of (line ∷ lines) = line ^^ lines_of lines

module _ {R : Type 0} ⦃f : Float R⦄ (t : Printer R) where
  unfoldable short_alerts : List (Alert R) → String
  unfolding most_severe lines_of plain
  short_alerts alerts = lines_of (
      map (λ a. "\nAlert, " ^^ a.severity ^^ ": " ^^ plain t a.why ^^ "\n")
        (most_severe alerts whatsapp_alerts))

  unfoldable short_topics : List (Topic R) → String
  unfolding join plain itoa
  short_topics [] = ""
  short_topics (x ∷ xs) =
      "\nTalked about: "
      ^^ join ", " (map (λ (y : Topic R). plain t y.label ^^ " (" ^^ itoa y.size ^^ ")") (x ∷ xs))
      ^^ ".\n"

  unfoldable short_actions : List String → String
  unfolding numbered plain
  short_actions [] = ""
  short_actions (a ∷ rest) =
      "\nThis week:\n" ^^ numbered 1 (map (plain t) (take whatsapp_actions (a ∷ rest)))

  -- the text of renderWhatsapp, before it is cut
  unfoldable pub whatsapp_text : DailyBrief R → String
  unfolding short_alerts short_topics short_actions format_date_range format_numbers_line plain
      first_n
  whatsapp_text brief =
      "Brief for "
      ^^ format_date_range t brief.period_start brief.period_end
      ^^ "\n"
      ^^ (if is_empty brief.headline then "" else "\n" ^^ plain t brief.headline ^^ "\n")
      ^^ "\n"
      ^^ format_numbers_line t brief.numbers
      ^^ "\n"
      ^^ short_alerts brief.alerts
      ^^ short_topics (first_n brief.top_topics whatsapp_topics)
      ^^ short_actions brief.suggested_actions

  unfoldable pub render_whatsapp : DailyBrief R → String
  unfolding whatsapp_text truncate_at_sentence
  render_whatsapp brief =
      t.of_bytes
        (truncate_at_sentence t (t.trim (t.bytes (whatsapp_text brief))) whatsapp_short_limit)

  unfoldable pub evidence_line : AlertEvidence R → String
  evidence_line e =
      "  - "
      ^^ e.metric
      ^^ ": "
      ^^ t.shortest e.value
      ^^ ", fires at "
      ^^ t.shortest e.threshold
      ^^ ", over "
      ^^ e.window
      ^^ "\n"

  unfoldable markdown_numbers : BriefNumbers R → String
  unfolding commas format_delta format_sentiment format_percent
  markdown_numbers n =
      "## Numbers\n\n| Metric | Value |\n|---|---|\n| Mentions | "
      ^^ commas n.mentions
      ^^ " ("
      ^^ format_delta t n.mentions_delta_pct
      ^^ ") |\n| Average sentiment | "
      ^^ format_sentiment t n.sentiment_avg
      ^^ " |\n| Negative share | "
      ^^ format_percent t n.negative_share
      ^^ " |\n| Share of voice | "
      ^^ format_percent t n.share_of_voice
      ^^ " |\n\n"

  unfoldable markdown_topics_text : List (Topic R) → String
  unfolding numbered format_trend itoa
  markdown_topics_text [] = ""
  markdown_topics_text (x ∷ xs) =
      "## What people talked about\n\n"
      ^^ numbered 1 (
          map
            (λ (y : Topic R).
              "**"
              ^^ y.label
              ^^ "**, "
              ^^ itoa y.size
              ^^ " mentions, "
              ^^ format_trend t y.trend
              ^^ ". "
              ^^ y.summary)
            (x ∷ xs))
      ^^ "\n"

  unfoldable markdown_alerts : List (Alert R) → String
  unfolding most_severe lines_of evidence_line
  markdown_alerts [] = ""
  markdown_alerts (x ∷ xs) =
      "## Alerts\n\n"
      ^^ lines_of (
          map
            (λ (a : Alert R).
              "- **"
              ^^ a.kind
              ^^ "** ("
              ^^ a.severity
              ^^ "): "
              ^^ a.why
              ^^ "\n"
              ^^ lines_of (map evidence_line a.evidence))
            (most_severe (x ∷ xs) (length (x ∷ xs))))
      ^^ "\n"

  unfoldable markdown_watch : List String → String
  unfolding join
  markdown_watch [] = ""
  markdown_watch (x ∷ xs) = "## Competitor watch\n\n" ^^ join ", " (x ∷ xs) ^^ "\n\n"

  unfoldable markdown_actions : List String → String
  unfolding lines_of
  markdown_actions [] = ""
  markdown_actions (x ∷ xs) =
      "## Suggested actions\n\n" ^^ lines_of (map (λ a. "- " ^^ a ^^ "\n") (x ∷ xs))

  unfoldable pub render_markdown : DailyBrief R → String → String → String → String
  unfolding trim_text format_date_range markdown_numbers markdown_topics_text markdown_alerts
      markdown_watch markdown_actions first_n
  render_markdown brief period brand_name narrative =
      trim_text t (
        "# "
        ^^ brand_name
        ^^ ": "
        ^^ period
        ^^ " brief\n\n"
        ^^ format_date_range t brief.period_start brief.period_end
        ^^ "\n\n"
        ^^ (if is_empty brief.headline then "" else "**" ^^ brief.headline ^^ "**\n\n")
        ^^ markdown_numbers brief.numbers
        ^^ (if is_empty narrative then "" else trim_text t narrative ^^ "\n\n")
        ^^ markdown_topics_text (first_n brief.top_topics markdown_topics)
        ^^ markdown_alerts brief.alerts
        ^^ markdown_watch brief.competitor_watch
        ^^ markdown_actions brief.suggested_actions)
      ^^ "\n"
