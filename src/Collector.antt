-- ===== src/Collector.antt =====
-- agents/bp-collector/collector.go: one source collected for one window. The adapter, the client
-- and the stored hashes are arguments, and `W` is the state of what they talk to.
pub mod Dedupe
use brand_pulse.Prelude.{
  ℕ, Bool, false, not, String, List, [], ◌∷◌, ◌++◌, map, Option, none, some, keep, contains,
  unique_by, ◌^^◌, if◌then◌else◌,
}
use brand_pulse.Models.Labels.{Source, Time}
use brand_pulse.Models.Brand.{BrandProfile}
use brand_pulse.Models.Mention.{Mention}
use brand_pulse.Models.Wire.{CollectInput, MentionBatch}
use brand_pulse.Anakin.Fetch.{Stats}

-- An error of an adapter, and whether errors.Is finds ErrBudgetExceeded in it.
pub record FetchError : Type 0 where
  pub is_budget_exceeded : Bool
  pub message : String

-- CollectorHandler's fields, and the client's Stats.
pub record Deps (R W : Type 0) : Type 0 where
  pub has_adapter : Source → Bool
  pub new_client : CollectInput → W → Option String × W
  pub fetch : CollectInput → W → (List (Mention R) × Option FetchError) × W
  pub seen_hashes : String → List String → W → (List String × Option String) × W
  pub stats : W → Stats

abbrev pub errors_of : String → Option String → List String
errors_of doing none = []
errors_of doing (some e) = (doing ^^ ": " ^^ e) ∷ []

abbrev message_of : Option FetchError → Option String
message_of none = none
message_of (some e) = some e.message

abbrev pub stopped_on_budget : Option FetchError → Bool
stopped_on_budget none = false
stopped_on_budget (some e) = e.is_budget_exceeded

module _ {R : Type 0} where
  abbrev pub hash_of : Mention R → String
  hash_of m = m.content_hash

  -- dedupe keeps the first mention of each hash
  unfoldable pub dedupe : List (Mention R) → List (Mention R)
  dedupe collected = unique_by hash_of collected

  unfoldable pub unstored : List String → List (Mention R) → List (Mention R)
  unstored stored batch = keep (λ m. not (contains m.content_hash stored)) batch

  abbrev empty_batch : Source → List String → MentionBatch R
  empty_batch source errors = record {
    mentions = [];
    credits_used = 0;
    cache_hits = 0;
    source = source;
    truncated = false;
    errors = errors;
  }

module _ {R W : Type 0} (deps : Deps R W) where
  -- withoutStored: an empty batch asks nothing, and a failed lookup filters nothing
  unfoldable pub without_stored :
      String → List (Mention R) → W → (List (Mention R) × Option String) × W
  unfolding unstored
  without_stored brand_id [] w = (([], none), w)
  without_stored brand_id (m ∷ ms) w =
      let (reply, w₁) = deps.seen_hashes brand_id (map hash_of (m ∷ ms)) w in
      elim reply.1 [
        | some e ↦ ((m ∷ ms, some e), w₁)
        | none ↦ ((unstored reply.0 (m ∷ ms), none), w₁)
      ]

  -- Handle, once there is a client
  unfoldable handle_with_client : CollectInput → W → MentionBatch R × W
  unfolding dedupe without_stored
  handle_with_client input w =
      let (fetched, w₁) = deps.fetch input w in
      let (kept, w₂) = without_stored input.profile.brand_id (dedupe fetched.0) w₁ in
      (
        record {
          mentions = kept.0;
          credits_used = (deps.stats w₂).credits_used;
          cache_hits = (deps.stats w₂).cache_hits;
          source = input.source;
          truncated = stopped_on_budget fetched.1;
          errors =
              errors_of input.source (message_of fetched.1)
              ++ errors_of "checking stored hashes" kept.1;
        },
        w₂,
      )

  -- Handle never fails: every failure is in the batch
  unfoldable pub handle : CollectInput → W → MentionBatch R × W
  unfolding handle_with_client
  handle input w =
      if deps.has_adapter input.source
      then (let (failed, w₁) = deps.new_client input w in
          elim failed [
            | some e ↦
                (empty_batch input.source (errors_of "building the anakin client" (some e)), w₁)
            | none ↦ handle_with_client input w₁
          ])
      else (
        empty_batch input.source
            (("no adapter is registered for source \"" ^^ input.source ^^ "\"") ∷ []),
        w,
      )
