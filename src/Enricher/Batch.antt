-- ===== src/Enricher/Batch.antt =====
-- agents/bp-enricher/batch.go: one call of the model. `encode` is json.MarshalIndent, `render` the
-- template, `decode` json.Unmarshal and `show` Sprintf's %v.
use brand_pulse.Prelude.{
  ℕ, min, Bool, false, String, List, [], ◌∷◌, ◌++◌, Option, none, some, Dict, lookup, lookup_or,
  insert_key, length, join, itoa, ◌^^◌, Float, ℤ, pos, negsuc, Reply, ok, err, join_errors, ◌==◌,
  if◌then◌else◌,
}
use brand_pulse.Models.Labels.{SentimentLabel, sentiment_neutral}
use brand_pulse.Models.Brand.{BrandProfile}
use brand_pulse.Models.Mention.{
  Mention, Enrichment, EnrichmentError, no_mention_id, sentiment_out_of_range, validate_enrichment,
}

abbrev pub default_batch_size : ℕ
default_batch_size = 50

-- batchSize, which stands in handler.go
unfoldable pub batch_size : ℤ → ℕ
batch_size (pos n) = if n == 0 then default_batch_size else min n default_batch_size
batch_size (negsuc n) = default_batch_size

pub record PromptMention : Type 0 where
  pub mention_id : String
  pub text : String

-- what the template is given
pub record PromptFields : Type 0 where
  pub brand_name : String
  pub products : String
  pub keywords : String
  pub negative_keywords : String
  pub competitors : String
  pub count : ℕ
  pub mentions : String

-- A missing list is nil, which is `none`.
pub record ReplyEnrichment (R : Type 0) : Type 0 where
  pub mention_id : String
  pub sentiment : R
  pub sentiment_label : SentimentLabel
  pub emotion : String
  pub intent : String
  pub aspects : Option (List String)
  pub is_about_brand : Bool
  pub about_competitor : String

unfoldable pub list : List String → String
unfolding join
list [] = "(none)"
list (v ∷ vs) = join ", " (v ∷ vs)

-- What parseReply returns.
pub record Parsed (R : Type 0) : Type 0 where
  pub enrichments : List (Enrichment R)
  pub unanswered : List (Mention R)
  pub error : Option String

-- The state of parseReply's loop.
pub record Parsing (R : Type 0) : Type 0 where
  pub enrichments : List (Enrichment R)
  pub unanswered : List (Mention R)
  pub omitted : List String
  pub problems : List String

-- the line for all omitted ids, and the report
unfoldable pub with_omitted : List String → List String → List String
unfolding list itoa
with_omitted [] problems = problems
with_omitted (id ∷ ids) problems =
    problems
    ++ ("reply omits " ^^ itoa (length (id ∷ ids)) ^^ " mention(s): " ^^ list (id ∷ ids)) ∷ []

module _ {R : Type 0} where
  -- buildPrompt's loop
  unfoldable pub prompt_mentions : List (Mention R) → Dict String → List PromptMention
  unfolding lookup_or
  prompt_mentions [] redacted = []
  prompt_mentions (m ∷ ms) redacted =
      record { mention_id = m.id; text = lookup_or "" m.id redacted } ∷ prompt_mentions ms redacted

  unfoldable pub build_prompt :
      (List PromptMention → Reply String)
      → (PromptFields → Reply String)
      → List (Mention R)
      → Dict String
      → BrandProfile
      → Reply String
  unfolding prompt_mentions list
  build_prompt encode render batch redacted profile =
      elim (encode (prompt_mentions batch redacted)) [
        | err e ↦ err ("encode mentions for prompt: " ^^ e)
        | ok encoded ↦
            elim (render (record {
              brand_name = profile.name;
              products = list profile.products;
              keywords = list profile.keywords;
              negative_keywords = list profile.negative_keywords;
              competitors = list profile.competitors;
              count = length batch;
              mentions = encoded;
            })) [ err e ↦ err ("render enricher prompt: " ^^ e) | ok prompt ↦ ok prompt ]
      ]

  -- byID, in which a later object takes the place of an earlier one
  unfoldable pub replies_by_id :
      List (ReplyEnrichment R) → Dict (ReplyEnrichment R) → Dict (ReplyEnrichment R)
  replies_by_id [] m = m
  replies_by_id (e ∷ es) m = replies_by_id es (insert_key e.mention_id e m)

module _ {R : Type 0} ⦃f : Float R⦄ where
  -- the enrichment that parseReply makes of an answer, before any price
  unfoldable pub enrichment_of : String → ReplyEnrichment R → Enrichment R
  enrichment_of id got = record {
    mention_id = id;
    sentiment = got.sentiment;
    sentiment_label = got.sentiment_label;
    emotion = got.emotion;
    intent = got.intent;
    aspects = elim got.aspects [ none ↦ [] | some aspects ↦ aspects ];
    is_about_brand = got.is_about_brand;
    about_competitor = got.about_competitor;
    model = "";
    cost_paise = f.of_ℕ 0;
  }

  unfoldable error_text : (R → String) → EnrichmentError R → String
  error_text show no_mention_id = "models: Enrichment.mention_id is required"
  error_text show (sentiment_out_of_range s) =
      "models: Enrichment.sentiment must be within [-1, 1], got " ^^ show s

  -- one turn of the loop
  unfoldable pub sort_reply :
      (R → String) → Dict (ReplyEnrichment R) → Mention R → Parsing R → Parsing R
  unfolding enrichment_of error_text
  sort_reply show by_id m s = elim (lookup m.id by_id) [
    | none ↦ record s { unanswered = s.unanswered ++ m ∷ []; omitted = s.omitted ++ m.id ∷ [] }
    | some got ↦ elim (validate_enrichment (enrichment_of m.id got)) [
      | some e ↦ record s {
        unanswered = s.unanswered ++ m ∷ [];
        problems = s.problems ++ ("mention \"" ^^ m.id ^^ "\": " ^^ error_text show e) ∷ [];
      }
      | none ↦ record s { enrichments = s.enrichments ++ enrichment_of m.id got ∷ [] }
    ]
  ]

  unfoldable pub sort_replies :
      (R → String) → Dict (ReplyEnrichment R) → List (Mention R) → Parsing R → Parsing R
  unfolding sort_reply
  sort_replies show by_id [] s = s
  sort_replies show by_id (m ∷ ms) s = sort_replies show by_id ms (sort_reply show by_id m s)

  abbrev pub new_parsing : Parsing R
  new_parsing = record { enrichments = []; unanswered = []; omitted = []; problems = [] }

  unfoldable pub parse_reply :
      (String → Reply (List (ReplyEnrichment R)))
      → (R → String)
      → String
      → List (Mention R)
      → Parsed R
  unfolding replies_by_id sort_replies with_omitted join_errors
  parse_reply decode show raw batch = elim (decode raw) [
    | err e ↦ record { enrichments = []; unanswered = batch; error = some ("decode reply: " ^^ e) }
    | ok reply ↦
        let s = sort_replies show (replies_by_id reply []) batch new_parsing in
        record {
          enrichments = s.enrichments;
          unanswered = s.unanswered;
          error = join_errors (with_omitted s.omitted s.problems);
        }
  ]

  unfoldable pub neutral_enrichments : List (Mention R) → List (Enrichment R)
  neutral_enrichments [] = []
  neutral_enrichments (m ∷ ms) =
      record {
        mention_id = m.id;
        sentiment = f.of_ℕ 0;
        sentiment_label = sentiment_neutral;
        emotion = "neutral";
        intent = "other";
        aspects = [];
        is_about_brand = false;
        about_competitor = "";
        model = "";
        cost_paise = f.of_ℕ 0;
      }
      ∷ neutral_enrichments ms
