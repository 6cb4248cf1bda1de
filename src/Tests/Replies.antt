-- ===== src/Tests/Replies.antt =====
-- A reply to an alert whose first draft promises a refund, and whose second draft does again.
use brand_pulse.Prelude.{
  ℕ, suc, ◌+◌, ◌≤◌, ◌≡◌, refl, ◌↔◌, String, List, [], ◌∷◌, none, some, All, codes, ok, Thousandths,
  thousandths,
}
use brand_pulse.Orchestrator.Env.{RespondInput}
use brand_pulse.Responder.{handle, done, draft_within_guardrails}
use brand_pulse.Responder.Prompt.{DraftResponse, Tools, build_prompt_data}
use brand_pulse.Responder.Guardrails.{Bytes, remove_fold, violations_in}
use brand_pulse.Responder.Removal.{IsClear, remove_fold_ends}
use brand_pulse.Responder.Violations.{IsAbsent, violations_in-empty_iff}
use brand_pulse.Responder.Drafts.{IsOutcome, draft_within_guardrails-IsOutcome}
use brand_pulse.Responder.Calls.{counted, handle_calls}
use brand_pulse.Tests.Data.{profile, crisis_alert}

abbrev same_bytes : Bytes → Bytes
same_bytes text = text

abbrev same_text : String → String
same_text text = text

abbrev tools : Tools Thousandths ℕ
tools = record {
  chat = λ prompt opt n.
      ((ok "raw", record { prompt_tokens = 1; completion_tokens = 1; cost_paise = 1 }), suc n);
  render = λ fields. ok "prompt";
  decode = λ raw. ok (record { text = "a full refund now"; tone = "warm" });
  redact = same_text;
  show = λ r. "1";
  bytes = codes;
  lower = same_bytes;
  trim = same_text;
  tidy = λ text. "a now";
  guardrails = "full refund" ∷ [];
  new_id = λ n. ("drf_1", suc n);
}

abbrev input : RespondInput Thousandths
input = record { alert = some crisis_alert; mention = none; profile = profile; channel = "x" }

abbrev cut : DraftResponse × List String
cut = (record { text = "a now"; tone = "warm" }, "full refund" ∷ [])

draft_within_guardrails-IsOutcome_example :
    let prompt_data = build_prompt_data tools input in
    IsOutcome tools prompt_data
      ("full refund" ∷ [])
      0
      (draft_within_guardrails tools prompt_data ("full refund" ∷ []) 0).0
draft_within_guardrails-IsOutcome_example =
    draft_within_guardrails-IsOutcome tools (build_prompt_data tools input) ("full refund" ∷ []) 0

draft_test :
    (draft_within_guardrails tools (build_prompt_data tools input) ("full refund" ∷ []) 0).0
    ≡ done cut
unfolding draft_within_guardrails codes
draft_test = refl

handle_calls_example : (handle (counted tools) input (0, 0)).1.1 ≤ 0 + 2
handle_calls_example = handle_calls tools input 0 0

remove_fold_ends_example :
    IsClear same_bytes (97 ∷ []) (remove_fold same_bytes (98 ∷ 97 ∷ 97 ∷ []) (97 ∷ []))
remove_fold_ends_example = remove_fold_ends same_bytes (98 ∷ 97 ∷ 97 ∷ []) (97 ∷ []) (λ q. cc q)

violations_in-empty_iff_example :
    (violations_in codes same_bytes same_text "a refund" ("cures" ∷ []) ≡ [])
    ↔ All (IsAbsent codes same_bytes same_text (same_bytes (codes "a refund"))) ("cures" ∷ [])
violations_in-empty_iff_example =
    violations_in-empty_iff codes same_bytes same_text "a refund" ("cures" ∷ [])
