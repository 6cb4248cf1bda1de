-- ===== src/Tests/Topics.antt =====
-- A window of three mentions about one thing and one about another.
use Prim.Native.Char.{Char}
use brand_pulse.Prelude.{
  ℕ, suc, ◌+◌, ◌≡◌, ◌≢◌, refl, Bool, true, String, [], ◌∷◌, pos, count, sum_map, ok, err,
  Thousandths, thousandths, str_eq,
}
use brand_pulse.Models.Topic.{Topic}
use brand_pulse.Orchestrator.Env.{ClusterInput}
use brand_pulse.Cluster.Tfidf.{tfidf}
use brand_pulse.Cluster.Tfidf.Shape.{IsMatrixOf, tfidf-IsMatrixOf}
use brand_pulse.Clusterer.{handle}
use brand_pulse.Clusterer.Label.{Tools}
use brand_pulse.Clusterer.Topics.{on_brand_mentions}
use brand_pulse.Clusterer.Accounts.{handle_accounts}
use brand_pulse.Clusterer.Silence.{handle_says_why}
use brand_pulse.Tests.Data.{noon, enriched_post}

abbrev same : Thousandths → Thousandths
same r = r

abbrev same_text : String → String
same_text s = s

abbrev any_char : Char → Bool
any_char c = true

abbrev tools : Tools Thousandths ℕ
tools = record {
  chat = λ prompt opt n.
      ((ok "raw", record { prompt_tokens = 3; completion_tokens = 2; cost_paise = 1 }), suc n);
  render = λ mentions. ok "prompt";
  decode = λ raw. ok (record { label = "late delivery"; summary = "" });
  redact = same_text;
  trim = same_text;
  show = λ r. "1";
  log = same;
  sqrt = same;
  lower = same_text;
  is_word = any_char;
  new_id = λ n. ("top_1", suc n);
}

abbrev broken : Tools Thousandths ℕ
broken = record tools { decode = λ raw. err "no json" }

abbrev input : ClusterInput Thousandths
input = record {
  enriched = enriched_post "m1" "x" noon ∷ enriched_post "m2" "x" noon ∷ [];
  brand_id = "boat";
  window_start = noon;
  window_end = noon;
  prior_window_counts = [];
  min_cluster_size = pos 1;
}

abbrev quiet : ClusterInput Thousandths
quiet = record input { enriched = [] }

abbrev is_first : String → Bool
is_first id = str_eq id "m1"

handle_accounts_example :
    sum_map
        (λ (x : Topic Thousandths). count is_first x.mention_ids)
        (handle tools input 0).0.topics
      + count is_first (handle tools input 0).0.unclustered
    ≡ count (λ m. is_first m.mention.id) (on_brand_mentions input.enriched)
handle_accounts_example = handle_accounts tools input is_first 0

handle_says_why_example : (handle tools quiet 0).0.errors ≢ []
unfolding handle
handle_says_why_example = handle_says_why tools quiet 0 refl

tfidf-IsMatrixOf_example :
    IsMatrixOf same same same_text any_char
      ("late again" ∷ "very late" ∷ [])
      (tfidf same same same_text any_char ("late again" ∷ "very late" ∷ []))
tfidf-IsMatrixOf_example =
    tfidf-IsMatrixOf same same same_text any_char ("late again" ∷ "very late" ∷ [])
