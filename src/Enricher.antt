-- ===== src/Enricher.antt =====
-- agents/bp-enricher/handler.go: the agent that classifies mentions in batches and remembers what
-- it has classified. `chat` is the model, `redact` redact.PII, and the memory is passed on; between
-- the calls of one request, those of another may change it, which is not modelled.
pub mod Batch
pub mod Cache
pub mod Answers
pub mod Requests
pub mod Memory
pub mod Privacy
use brand_pulse.Prelude.{
  ℕ, zero, suc, ◌+◌, ◌-◌, String, List, [], ◌∷◌, ◌++◌, Option, none, some, Dict, insert_key, length,
  itoa, ◌^^◌, Float, Reply, ok, err, chunk,
}
use brand_pulse.Models.Brand.{BrandProfile}
use brand_pulse.Models.Mention.{Mention, Enrichment}
use brand_pulse.Models.Wire.{EnrichmentBatch}
use brand_pulse.Orchestrator.Env.{EnrichInput}
use brand_pulse.Llm.Usage.{Usage, no_usage, Opt, Chat}
use brand_pulse.Enricher.Batch.{
  PromptMention, PromptFields, ReplyEnrichment, Parsed, batch_size, build_prompt, parse_reply,
  neutral_enrichments,
}
use brand_pulse.Enricher.Cache.{store, recall}

abbrev pub max_attempts : ℕ
max_attempts = 2

-- What classify returns.
pub record Classified (R : Type 0) : Type 0 where
  pub answered : List (Enrichment R)
  pub unanswered : List (Mention R)
  pub usage : Usage R
  pub error : Option String

-- Whether a turn of classify's loop returns.
pub data Attempt (R : Type 0) : Type 0 where
  returned retry : Classified R → Attempt R

-- What a request leaves behind: its answer so far, the memory and the world.
pub record Session (R W : Type 0) : Type 0 where
  pub out : EnrichmentBatch R
  pub cached : Dict (Enrichment R)
  pub world : W

-- Go prints a missing error so. It never is missing where this is used (parse_reply_reports).
unfoldable reason : Option String → String
reason none = "%!w(<nil>)"
reason (some e) = e

unfoldable attempt_text : ℕ → ℕ → String → String
unfolding itoa
attempt_text asked attempt e = "asked " ^^ itoa asked ^^ ", attempt " ^^ itoa attempt ^^ ": " ^^ e

module _ {R : Type 0} where
  -- redacted
  unfoldable pub redacted_by_id : (String → String) → List (Mention R) → Dict String → Dict String
  redacted_by_id redact [] m = m
  redacted_by_id redact (x ∷ xs) m = redacted_by_id redact xs (insert_key x.id (redact x.text) m)

  unfoldable pub set_cost : R → List (Enrichment R) → List (Enrichment R)
  set_cost paise [] = []
  set_cost paise (e ∷ es) = record e { cost_paise = paise } ∷ set_cost paise es

module _ {R : Type 0} ⦃f : Float R⦄ where
  unfoldable pub price : List (Enrichment R) → Usage R → List (Enrichment R)
  unfolding set_cost
  price [] usage = []
  price (e ∷ es) usage = set_cost (f.div usage.cost_paise (f.of_ℕ (length (e ∷ es)))) (e ∷ es)

  unfoldable pub add_total : Usage R → Usage R → Usage R
  add_total a b = record {
    prompt_tokens = a.prompt_tokens + b.prompt_tokens;
    completion_tokens = a.completion_tokens + b.completion_tokens;
    cost_paise = f.add a.cost_paise b.cost_paise;
  }

  abbrev pub new_classified : List (Mention R) → Classified R
  new_classified batch = record {
    answered = [];
    unanswered = batch;
    usage = no_usage;
    error = none;
  }

-- What a handler is made of, the request's texts and profile with it.
pub record Asking (R W : Type 0) : Type 0 where
  pub chat : Chat R W
  pub encode : List PromptMention → Reply String
  pub render : PromptFields → Reply String
  pub decode : String → Reply (List (ReplyEnrichment R))
  pub show : R → String
  pub redacted : Dict String
  pub profile : BrandProfile

module _ {R W : Type 0} ⦃f : Float R⦄ (a : Asking R W) where
  abbrev pub prompt_for : List (Mention R) → Reply String
  prompt_for batch = build_prompt a.encode a.render batch a.redacted a.profile

  -- what a reply that came back changes
  unfoldable pub take_reply : ℕ → Classified R → Usage R → Parsed R → Attempt R
  unfolding attempt_text reason
  take_reply attempt c usage parsed =
      let answered = c.answered ++ parsed.enrichments in
      elim parsed.unanswered [
        | [] ↦
            returned (record { answered = answered; unanswered = []; usage = usage; error = none })
        | m ∷ ms ↦ retry (record {
          answered = answered;
          unanswered = m ∷ ms;
          usage = usage;
          error = some (attempt_text (length c.unanswered) attempt (reason parsed.error));
        })
      ]

  -- the part of a turn after the call
  unfoldable pub take_answer : ℕ → Classified R → Reply String × Usage R → Attempt R
  unfolding add_total parse_reply take_reply attempt_text
  take_answer attempt c (err e, usage) = retry (record c {
    usage = add_total c.usage usage;
    error = some (attempt_text (length c.unanswered) attempt e);
  })
  take_answer attempt c (ok raw, usage) =
      take_reply attempt c (add_total c.usage usage) (parse_reply a.decode a.show raw c.unanswered)

  -- classify, with `left` attempts to make. `error` is that of the attempt before.
  unfoldable pub classify_from : ℕ → Classified R → W → Classified R × W
  unfolding build_prompt take_answer
  classify_from zero c w = (c, w)
  classify_from (suc left) c w = elim (prompt_for c.unanswered) [
    | err e ↦ (record c { error = some e }, w)
    | ok prompt ↦
        let (answer, w') = a.chat prompt (record { model = ""; max_tokens = 0 }) w in
        elim (take_answer (max_attempts - left) c answer) [
          | returned c' ↦ (c', w')
          | retry c' ↦ classify_from left c' w'
        ]
  ]

  unfoldable pub classify : List (Mention R) → W → Classified R × W
  unfolding classify_from no_usage
  classify batch w = classify_from max_attempts (new_classified batch) w

  -- the loop over the batches
  unfoldable pub absorb : List (Mention R) → Classified R → Session R W → W → Session R W
  unfolding store price neutral_enrichments
  absorb batch c s w = record {
    out = record s.out {
      errors = elim c.error [ none ↦ s.out.errors | some e ↦ s.out.errors ++ e ∷ [] ];
      tokens_used = s.out.tokens_used + (c.usage.prompt_tokens + c.usage.completion_tokens);
      cost_paise = f.add s.out.cost_paise c.usage.cost_paise;
      enrichments =
          (s.out.enrichments ++ price c.answered c.usage) ++ neutral_enrichments c.unanswered;
    };
    cached = store batch (price c.answered c.usage) s.cached;
    world = w;
  }

  unfoldable pub enrich_batches : List (List (Mention R)) → Session R W → Session R W
  unfolding classify absorb
  enrich_batches [] s = s
  enrich_batches (batch ∷ rest) s =
      let (c, w) = classify batch s.world in enrich_batches rest (absorb batch c s w)

-- What the memory answers, and what is left to ask about.
unfoldable pub split_cached :
    {R : Type 0} ⦃f : Float R⦄
    → Dict (Enrichment R)
    → List (Mention R)
    → List (Enrichment R) × List (Mention R)
unfolding recall
split_cached cached [] = ([], [])
split_cached cached (m ∷ ms) =
    let (hits, uncached) = split_cached cached ms in
    elim (recall m cached) [ none ↦ (hits, m ∷ uncached) | some hit ↦ (hit ∷ hits, uncached) ]

-- Handle: `asking` is the handler, given the redacted texts and the profile.
unfoldable pub handle :
    {R W : Type 0} ⦃f : Float R⦄
    → (String → String)
    → (Dict String → BrandProfile → Asking R W)
    → EnrichInput R
    → Dict (Enrichment R)
    → W
    → Session R W
unfolding redacted_by_id split_cached enrich_batches batch_size chunk
handle ⦃f⦄ redact asking input cached w =
    let (hits, uncached) = split_cached cached input.mentions in
    enrich_batches (asking (redacted_by_id redact input.mentions []) input.profile)
      (chunk (batch_size input.batch_size) uncached)
      (record {
        out = record {
          enrichments = hits;
          tokens_used = 0;
          cost_paise = f.of_ℕ 0;
          cache_hits = length hits;
          errors = [];
        };
        cached = cached;
        world = w;
      })
