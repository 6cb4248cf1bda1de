-- ===== src/Models/Alert.antt =====
-- internal/models/models.go: alerts, their evidence, and reply drafts.
use brand_pulse.Prelude.{
  ◌||◌, ◌&&◌, String, List, [], ◌∷◌, Option, none, some, is_empty, if◌then◌else◌,
}
use brand_pulse.Models.Labels.{AlertKind, Severity, Time, alert_status_open}
use brand_pulse.Models.Mention.{Mention}

pub record AlertEvidence (R : Type 0) : Type 0 where
  pub metric : String
  pub value : R
  pub threshold : R
  pub window : String
  pub detail : String

pub record Alert (R : Type 0) : Type 0 where
  pub id : String
  pub brand_id : String
  pub kind : AlertKind
  pub severity : Severity
  pub title : String
  pub why : String
  pub evidence : List (AlertEvidence R)
  pub sample_mentions : List (Mention R)
  pub status : String
  pub dedupe_key : String
  pub created_at : Time

unfoldable pub new_alert_record :
    {R : Type 0} → String → String → AlertKind → Severity → String → Time → Alert R
new_alert_record id brand_id kind severity dedupe_key created_at = record {
  id = id;
  brand_id = brand_id;
  kind = kind;
  severity = severity;
  title = "";
  why = "";
  evidence = [];
  sample_mentions = [];
  status = alert_status_open;
  dedupe_key = dedupe_key;
  created_at = created_at;
}

pub data AlertError : Type 0 where
  no_id no_dedupe_key : AlertError
  no_evidence : String → AlertError

unfoldable pub validate_alert : {R : Type 0} → Alert R → Option AlertError
validate_alert a =
    if is_empty a.id || is_empty a.brand_id
    then some no_id
    else if is_empty a.dedupe_key
    then some no_dedupe_key
    else elim a.evidence [ [] ↦ some (no_evidence a.id) | _ ∷ _ ↦ none ]

pub record ReplyDraft : Type 0 where
  pub id : String
  pub alert_id : String
  pub mention_id : String
  pub channel : String
  pub text : String
  pub tone : String
  pub do_not_say : List String
  pub status : String

unfoldable pub new_reply_draft : String → String → ReplyDraft
new_reply_draft id channel = record {
  id = id;
  alert_id = "";
  mention_id = "";
  channel = channel;
  text = "";
  tone = "";
  do_not_say = [];
  status = "draft";
}

pub data DraftError : Type 0 where
  no_draft_id no_subject no_text : DraftError

unfoldable pub validate_draft : ReplyDraft → Option DraftError
validate_draft d =
    if is_empty d.id
    then some no_draft_id
    else if is_empty d.alert_id && is_empty d.mention_id
    then some no_subject
    else if is_empty d.text
    then some no_text
    else none
