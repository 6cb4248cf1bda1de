-- ===== src/Clusterer/Label.antt =====
-- agents/bp-clusterer/label.go: the naming of a cluster. `render` is the template, `decode`
-- json.Unmarshal, `redact` redact.PII and `trim` strings.TrimSpace.
use Prim.Native.Char.{Char, code}
use brand_pulse.Prelude.{
  ℕ, ◌==◌, Bool, String, List, [], ◌∷◌, take, ◌^^◌, is_empty, Float, Reply, ok, err, if◌then◌else◌,
}
use brand_pulse.Models.Mention.{EnrichedMention}
use brand_pulse.Llm.Usage.{Usage, no_usage, Chat}

pub record LabelReply : Type 0 where
  pub label : String
  pub summary : String

abbrev pub examples_in_prompt : ℕ
examples_in_prompt = 12

-- strings.ReplaceAll(text, "\n", " ")
unfoldable on_one_line : String → String
on_one_line String.[] = ""
on_one_line (String.◌∷◌ c s) =
    (if code c == 10 then " " else String.◌∷◌ c String.[]) ^^ on_one_line s

-- What the agent asks of others.
pub record Tools (R W : Type 0) : Type 0 where
  pub chat : Chat R W
  pub render : String → Reply String
  pub decode : String → Reply LabelReply
  pub redact : String → String
  pub trim : String → String
  pub show : R → String
  pub log : R → R
  pub sqrt : R → R
  pub lower : String → String
  pub is_word : Char → Bool
  pub new_id : W → String × W

module _ {R W : Type 0} (t : Tools R W) where
  unfoldable pub mention_lines : List (EnrichedMention R) → String
  unfolding on_one_line
  mention_lines [] = ""
  mention_lines (m ∷ ms) = "- " ^^ on_one_line (t.redact m.mention.text) ^^ "\n" ^^ mention_lines ms

  unfoldable pub build_label_prompt : List (EnrichedMention R) → Reply String
  unfolding mention_lines
  build_label_prompt ranked = elim (t.render (mention_lines (take examples_in_prompt ranked))) [
    | err e ↦ err ("render clusterer prompt: " ^^ e)
    | ok prompt ↦ ok prompt
  ]

  -- what labelCluster makes of the model's answer
  unfoldable pub read_label : Reply String → Reply LabelReply
  read_label (err e) = err ("label call: " ^^ e)
  read_label (ok raw) = elim (t.decode raw) [
    | err e ↦ err ("decode label reply: " ^^ e)
    | ok reply ↦
        if is_empty (t.trim reply.label)
        then err "label reply has an empty label"
        else ok (record { label = t.trim reply.label; summary = t.trim reply.summary })
  ]

  unfoldable pub label_cluster :
      ⦃f : Float R⦄ → List (EnrichedMention R) → W → (Reply LabelReply × Usage R) × W
  unfolding build_label_prompt read_label no_usage
  label_cluster ranked w = elim (build_label_prompt ranked) [
    | err e ↦ ((err e, no_usage), w)
    | ok prompt ↦
        let (answer, w') = t.chat prompt (record { model = ""; max_tokens = 0 }) w in
        ((read_label answer.0, answer.1), w')
  ]
