-- ===== src/Tests/Enricher.antt =====
-- A request of three mentions, one remembered, of which the model answers one of the others.
use brand_pulse.Prelude.{
  ◌^^◌, map, ℕ, suc, ◌≡◌, refl, ◌↔◌, Bool, true, String, List, [], ◌∷◌, none, some, pos, count,
  lookup_or, insert_key, Memᴰ, All, Dict, Reply, ok, Thousandths, thousandths, str_eq, eq_iff,
  if◌then◌else◌,
}
use mathlib.Core.Bool.{false≢true}
use brand_pulse.Models.Brand.{BrandProfile}
use brand_pulse.Models.Mention.{Mention, Enrichment}
use brand_pulse.Orchestrator.Env.{EnrichInput}
use brand_pulse.Enricher.{Asking, handle, classify, redacted_by_id}
use brand_pulse.Enricher.Batch.{ReplyEnrichment, prompt_mentions}
use brand_pulse.Enricher.Cache.{cache_key, keys_of, store, recall}
use brand_pulse.Enricher.Requests.{handle_answers_each, classify_reports}
use brand_pulse.Enricher.Memory.{recall-store}
use brand_pulse.Enricher.Privacy.{IsRedactionOf, reworded, prompt_mentions-redacted}
use brand_pulse.Tests.Data.{noon, profile, post, reading}

abbrev first : Mention Thousandths
first = post "m1" "h1" "x" noon

abbrev second : Mention Thousandths
second = post "m2" "h2" "x" noon

abbrev third : Mention Thousandths
third = post "m3" "h3" "x" noon

abbrev said : ReplyEnrichment Thousandths
said = record {
  mention_id = "m1";
  sentiment = 500;
  sentiment_label = "negative";
  emotion = "anger";
  intent = "complaint";
  aspects = none;
  is_about_brand = true;
  about_competitor = "";
}

abbrev decode : String → Reply (List (ReplyEnrichment Thousandths))
decode raw = if str_eq raw "[]" then ok [] else ok (said ∷ [])

abbrev show : Thousandths → String
show r = "0.5"

abbrev hide : String → String
hide text = "(hidden)"

-- the model answers for m1 alone, at every call
abbrev asking : Dict String → BrandProfile → Asking Thousandths ℕ
asking redacted profile = record {
  chat = λ prompt opt n.
      ((ok "m1", record { prompt_tokens = 10; completion_tokens = 5; cost_paise = 7 }), suc n);
  encode = λ ms. ok "json";
  render = λ fields. ok "prompt";
  decode = decode;
  show = show;
  redacted = redacted;
  profile = profile;
}

abbrev input : EnrichInput Thousandths
input = record { mentions = first ∷ second ∷ third ∷ []; profile = profile; batch_size = pos 0 }

abbrev remembered : Dict (Enrichment Thousandths)
remembered = insert_key "boat\0h2" (reading "m0") []

abbrev is_first : String → Bool
is_first id = str_eq id "m1"

handle_answers_each_example :
    count (λ e. is_first e.mention_id) (handle hide asking input remembered 0).out.enrichments
    ≡ count (λ (m : Mention Thousandths). is_first m.id) input.mentions
handle_answers_each_example = handle_answers_each hide asking input remembered 0 is_first

abbrev asked : Asking Thousandths ℕ
asked = asking (redacted_by_id hide input.mentions []) profile

classify_reports_example :
    ((classify asked (first ∷ third ∷ []) 0).0.error ≡ none)
    ↔ ((classify asked (first ∷ third ∷ []) 0).0.unanswered ≡ [])
classify_reports_example = classify_reports asked (first ∷ third ∷ []) 0 (λ q. cc q)

recall-store_example :
    (hit : Enrichment Thousandths) × Memᴰ hit (reading "m1" ∷ [])
    × (lookup_or "" hit.mention_id (keys_of (first ∷ third ∷ []) []) ≡ cache_key first)
    × (recall (post "m9" "h1" "reddit" noon) (store (first ∷ third ∷ []) (reading "m1" ∷ []) [])
        ≡ some (record hit { mention_id = "m9"; cost_paise = 0 }))
recall-store_example =
    recall-store (first ∷ third ∷ []) (reading "m1" ∷ []) [] first (post "m9" "h1" "reddit" noon)
      (reading "m1") ((λ q. false≢true ((eq_iff "m1" "m3").1 q), tt), (tt, tt)) (Memᴰ.head refl)
      (λ q. cc q) (Memᴰ.head refl) refl refl refl

abbrev shouted : String → String
shouted text = text ^^ "!"

prompt_mentions-redacted_example :
    All
      (λ q. IsRedactionOf hide input.mentions q.mention_id q.text)
      (prompt_mentions (third ∷ []) (redacted_by_id hide input.mentions []))
    × (prompt_mentions
          (map (reworded shouted) (third ∷ []))
          (redacted_by_id hide (map (reworded shouted) input.mentions) [])
        ≡ prompt_mentions (third ∷ []) (redacted_by_id hide input.mentions []))
prompt_mentions-redacted_example =
    prompt_mentions-redacted hide input.mentions (third ∷ []) shouted
      (Memᴰ.tail (Memᴰ.tail (Memᴰ.head refl)), tt) (λ text. refl)
