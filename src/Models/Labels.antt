-- ===== src/Models/Labels.antt =====
-- internal/models/models.go: the enumerations, whose values are the Postgres enum labels.
use brand_pulse.Prelude.{ℕ, String, Bool, ◌||◌, str_eq}

abbrev pub Source : Type 0
Source = String

-- Source.Valid
unfoldable pub source_valid : Source → Bool
source_valid s =
    str_eq s "x"
    || str_eq s "reddit"
    || str_eq s "youtube"
    || str_eq s "news"
    || str_eq s "playstore"
    || str_eq s "appstore"
    || str_eq s "amazon"
    || str_eq s "flipkart"
    || str_eq s "instagram"
    || str_eq s "web"

-- Source.IsReviewSource
unfoldable pub is_review_source : Source → Bool
is_review_source s = str_eq s "amazon" || str_eq s "appstore" || str_eq s "playstore"

abbrev pub SentimentLabel : Type 0
SentimentLabel = String

abbrev pub sentiment_negative : SentimentLabel
sentiment_negative = "negative"

abbrev pub sentiment_neutral : SentimentLabel
sentiment_neutral = "neutral"

abbrev pub AlertKind : Type 0
AlertKind = String

abbrev pub alert_spike : AlertKind
alert_spike = "spike"

abbrev pub alert_crisis : AlertKind
alert_crisis = "crisis"

abbrev pub alert_influencer_mention : AlertKind
alert_influencer_mention = "influencer_mention"

abbrev pub alert_competitor_move : AlertKind
alert_competitor_move = "competitor_move"

abbrev pub alert_review_bomb : AlertKind
alert_review_bomb = "review_bomb"

abbrev pub Severity : Type 0
Severity = String

abbrev pub severity_low : Severity
severity_low = "low"

abbrev pub severity_medium : Severity
severity_medium = "medium"

abbrev pub severity_high : Severity
severity_high = "high"

abbrev pub severity_critical : Severity
severity_critical = "critical"

abbrev pub alert_status_open : String
alert_status_open = "open"

abbrev pub RunKind : Type 0
RunKind = String

abbrev pub run_onboard : RunKind
run_onboard = "onboard"

abbrev pub run_scheduled : RunKind
run_scheduled = "scheduled"

abbrev pub RunStatus : Type 0
RunStatus = String

abbrev pub run_status_running : RunStatus
run_status_running = "running"

abbrev pub run_status_ok : RunStatus
run_status_ok = "ok"

abbrev pub run_status_partial : RunStatus
run_status_partial = "partial"

abbrev pub run_status_failed : RunStatus
run_status_failed = "failed"

-- time.Time in UTC: nanoseconds since the zero time, which is 0.
abbrev pub Time : Type 0
Time = ℕ

abbrev pub hour : ℕ
hour = 3_600_000_000_000
