-- ===== src/Llm/Router.antt =====
-- internal/llm/llm.go: ChatJSON, on a router of which nothing is known. `reflect` makes the JSON
-- schema of a value and `type_name` its type's name.
use Prim.Native.Char.{code}
use brand_pulse.Prelude.{
  ℕ, zero, suc, ◌+◌, Bool, true, false, ◌&&◌, ◌||◌, leb, ltb, ◌==◌, String, List, [], ◌∷◌, ◌++◌,
  Option, none, some, Dict, Float, is_empty, Reply, ok, err, ◌^^◌, if◌then◌else◌,
}
use brand_pulse.Llm.Usage.{Usage, no_usage, Opt}
use brand_pulse.Llm.Prices.{UsdPerMtok, cost_paise}

abbrev pub json_nudge : String
json_nudge =
    "That reply was not valid JSON. Return only valid JSON matching the schema, with no prose and no code fence."

-- resolveModel, with the value of OPENAI_MODEL
unfoldable pub resolve_model : String → String → String
resolve_model model_env requested = if is_empty model_env then requested else model_env

unfoldable is_name_char : ℕ → Bool
is_name_char c =
    (leb 97 c && leb c 122)
    || (leb 65 c && leb c 90)
    || (leb 48 c && leb c 57)
    || c == 95
    || c == 45

-- strings.Map with -1 for any other character
unfoldable name_chars : String → String
unfolding is_name_char
name_chars String.[] = ""
name_chars (String.◌∷◌ c s) =
    let rest = name_chars s in if is_name_char (code c) then String.◌∷◌ c rest else rest

-- schemaName, of the name of the type
unfoldable pub schema_name : String → String
unfolding name_chars
schema_name type_name =
    let name = name_chars type_name in if is_empty name then "response" else name

pub record Format (F : Type 0) : Type 0 where
  pub name : String
  pub schema : F

-- responseFormat, which refuses a nil schema
unfoldable pub response_format :
    {S F : Type 0} → (S → String) → (S → F) → Option S → Reply (Format F)
unfolding schema_name
response_format type_name reflect none =
    err "llm: ChatJSON needs a schema value; a nil schema is an unconstrained reply"
response_format type_name reflect (some s) =
    ok (record { name = schema_name (type_name s); schema = reflect s })

pub data Message : Type 0 where
  user assistant : String → Message

-- A field that is left out is `none`.
pub record Params (F : Type 0) : Type 0 where
  pub messages : List Message
  pub format : Format F
  pub model : Option String
  pub max_tokens : Option ℕ

pub record Completion : Type 0 where
  pub model : String
  pub choices : List String
  pub prompt_tokens : ℕ
  pub completion_tokens : ℕ

unfoldable pub only_choice : Completion → Reply String
only_choice c = elim c.choices [
  | [] ↦ err ("llm: the router returned no choices for model " ^^ c.model)
  | content ∷ _ ↦ ok content
]

-- The environment, the router, and the rows of the price table in the order they are ranged over.
pub record Router (R F W : Type 0) : Type 0 where
  pub base_url : String
  pub model_env : String
  pub complete : Params F → W → Reply Completion × W
  pub is_json : String → Bool
  pub rows : Dict (UsdPerMtok R)

module _ {R : Type 0} ⦃f : Float R⦄ where
  unfoldable pub add_usage : Dict (UsdPerMtok R) → Usage R → Completion → Usage R
  unfolding cost_paise
  add_usage rows spent c = record {
    prompt_tokens = spent.prompt_tokens + c.prompt_tokens;
    completion_tokens = spent.completion_tokens + c.completion_tokens;
    cost_paise =
        f.add spent.cost_paise (cost_paise rows c.model c.prompt_tokens c.completion_tokens);
  }

module _ {R F W : Type 0} ⦃f : Float R⦄ (r : Router R F W) where
  unfoldable pub params_for : List Message → Format F → Opt → Params F
  unfolding resolve_model
  params_for messages format opt =
      let model = resolve_model r.model_env opt.model in
      record {
        messages = messages;
        format = format;
        model = if is_empty model then none else some model;
        max_tokens = if ltb 0 opt.max_tokens then some opt.max_tokens else none;
      }

  -- what a turn makes of the router's answer; `again` is the next turn, after an unparseable reply
  unfoldable pub settle_attempt :
      Reply Completion
      → Usage R
      → W
      → (String → Usage R → (Reply String × Usage R) × W)
      → (Reply String × Usage R) × W
  unfolding only_choice add_usage
  settle_attempt (err e) spent w again = ((err ("llm: chat completion: " ^^ e), spent), w)
  settle_attempt (ok c) spent w again = elim (only_choice c) [
    | err e ↦ ((err e, spent), w)
    | ok reply ↦
        let spent' = add_usage r.rows spent c in
        elim (r.is_json reply) [ true ↦ ((ok reply, spent'), w) | false ↦ again reply spent' ]
  ]

  -- ChatJSON's loop, with `left` attempts to make
  unfoldable pub attempt_from :
      ℕ → List Message → Format F → Opt → Usage R → W → (Reply String × Usage R) × W
  unfolding params_for settle_attempt
  attempt_from zero messages format opt spent w = (
    (
      err "llm: the model returned unparseable JSON twice, with the schema attached both times",
      spent,
    ),
    w,
  )
  attempt_from (suc left) messages format opt spent w =
      let (answer, w') = r.complete (params_for messages format opt) w in
      settle_attempt answer spent w' (λ reply spent'.
        attempt_from left (messages ++ assistant reply ∷ user json_nudge ∷ []) format opt spent' w')

  -- ChatJSON
  unfoldable pub chat_json :
      {S : Type 0}
      → (S → String)
      → (S → F)
      → String
      → Option S
      → Opt
      → W
      → (Reply String × Usage R) × W
  unfolding response_format attempt_from no_usage
  chat_json type_name reflect prompt schema opt w =
      if is_empty r.base_url
      then (
        (
          err
              "llm: OPENAI_BASE_URL is unset; every model call goes through the Nasiko router and there is no direct-to-provider fallback",
          no_usage,
        ),
        w,
      )
      else elim (response_format type_name reflect schema) [
        | err e ↦ ((err e, no_usage), w)
        | ok format ↦ attempt_from 2 (user prompt ∷ []) format opt no_usage w
      ]
