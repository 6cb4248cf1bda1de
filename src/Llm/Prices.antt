-- ===== src/Llm/Prices.antt =====
-- internal/llm/cost.go: the one place where a token count becomes money. A map is ranged over in no
-- certain order, so the loops take the rows in the order given.
use Prim.Native.Char.{code}
use Prim.Native.String.{String}
use brand_pulse.Prelude.{
  ℕ, ◌==◌, [], ◌∷◌, Option, none, some, Dict, lookup, Float, str_eq, if◌then◌else◌,
}

pub record UsdPerMtok (R : Type 0) : Type 0 where
  pub input : R
  pub output : R

-- What stands after the last "/": `from` is the text after the last one so far.
unfoldable after_last_slash : String → String → String
after_last_slash from String.[] = from
after_last_slash from (String.◌∷◌ c s) = after_last_slash (if code c == 47 then s else from) s

unfoldable pub bare_name : String → String
unfolding after_last_slash
bare_name model = after_last_slash model model

module _ {R : Type 0} where
  -- the loop of priceFor
  unfoldable pub price_by_bare_name : String → Dict (UsdPerMtok R) → Option (UsdPerMtok R)
  unfolding bare_name
  price_by_bare_name bare [] = none
  price_by_bare_name bare ((name, price) ∷ rest) =
      if str_eq (bare_name name) bare then some price else price_by_bare_name bare rest

  unfoldable pub price_for : Dict (UsdPerMtok R) → String → Option (UsdPerMtok R)
  unfolding price_by_bare_name
  price_for rows model = elim (lookup model rows) [
    | some price ↦ some price
    | none ↦ price_by_bare_name (bare_name model) rows
  ]

module _ {R : Type 0} ⦃f : Float R⦄ where
  abbrev usd : R → R → UsdPerMtok R
  usd input output = record { input = input; output = output }

  abbrev pub model_prices : Dict (UsdPerMtok R)
  model_prices =
      ("openai/gpt-4o", usd (f.decimal 250 2) (f.decimal 1000 2))
      ∷ ("openai/gpt-4o-mini", usd (f.decimal 15 2) (f.decimal 60 2))
      ∷ ("anthropic/claude-3-5-sonnet-20241022", usd (f.decimal 300 2) (f.decimal 1500 2))
      ∷ ("gemini/gemini-1.5-pro", usd (f.decimal 350 2) (f.decimal 1050 2))
      ∷ []

  abbrev rupees_per_usd : R
  rupees_per_usd = f.decimal 95885 3

  abbrev pub total : UsdPerMtok R → R
  total p = f.add p.input p.output

  -- the loop of mostExpensivePrice
  unfoldable pub dearest_from : UsdPerMtok R → Dict (UsdPerMtok R) → UsdPerMtok R
  dearest_from worst [] = worst
  dearest_from worst ((name, price) ∷ rest) =
      dearest_from (if f.lt (total worst) (total price) then price else worst) rest

  unfoldable pub most_expensive_price : Dict (UsdPerMtok R) → UsdPerMtok R
  unfolding dearest_from
  most_expensive_price rows = dearest_from (usd (f.of_ℕ 0) (f.of_ℕ 0)) rows

  unfoldable pub paise_at : UsdPerMtok R → ℕ → ℕ → R
  paise_at price prompt_tokens completion_tokens =
      let million = f.decimal 1_000_000 0 in
      let spent =
        f.add (f.mul (f.div (f.of_ℕ prompt_tokens) million) price.input)
          (f.mul (f.div (f.of_ℕ completion_tokens) million) price.output) in
      f.mul (f.mul spent rupees_per_usd) (f.of_ℕ 100)

  unfoldable pub cost_paise : Dict (UsdPerMtok R) → String → ℕ → ℕ → R
  unfolding price_for most_expensive_price paise_at
  cost_paise rows model prompt_tokens completion_tokens =
      paise_at
        (elim (price_for rows model) [ none ↦ most_expensive_price rows | some price ↦ price ])
        prompt_tokens completion_tokens
