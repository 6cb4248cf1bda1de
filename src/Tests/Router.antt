-- ===== src/Tests/Router.antt =====
-- A call of the model whose first reply is no JSON, and the price table in another order.
use brand_pulse.Prelude.{
  ℕ, suc, ◌≡◌, refl, String, [], ◌∷◌, some, Dict, ok, Thousandths, thousandths, str_eq,
}
use mathlib.Core.List.{Permᴰ}
use brand_pulse.Llm.Prices.{UsdPerMtok, model_prices, price_for, bare_name}
use brand_pulse.Llm.Router.{Router, Completion, chat_json}
use brand_pulse.Llm.Billing.{IsBilled, logged, chat_json_bills}
use brand_pulse.Llm.Rates.{price_for_order_free}

abbrev rows : Dict (UsdPerMtok Thousandths)
rows = model_prices

abbrev gemini : String × UsdPerMtok Thousandths
gemini = ("gemini/gemini-1.5-pro", record { input = 3500; output = 10500 })

abbrev mini : String × UsdPerMtok Thousandths
mini = ("openai/gpt-4o-mini", record { input = 150; output = 600 })

abbrev completion : Completion
completion = record {
  model = "gpt-4o";
  choices = "no json" ∷ [];
  prompt_tokens = 100;
  completion_tokens = 20;
}

abbrev router : Router Thousandths String ℕ
router = record {
  base_url = "http://router";
  model_env = "";
  complete = λ params n. (ok completion, suc n);
  is_json = λ text. str_eq text "{}";
  rows = rows;
}

abbrev same : String → String
same s = s

chat_json_bills_example : IsBilled router 2 (
    chat_json
      (logged router)
      same
      same
      "name this"
      (some "labelReply")
      (record { model = ""; max_tokens = 0 })
      (0, []))
chat_json_bills_example =
    chat_json_bills router same same "name this" (some "labelReply")
      (record { model = ""; max_tokens = 0 }) 0

price_for_order_free_example :
    price_for (gemini ∷ mini ∷ []) "gpt-4o-mini" ≡ price_for (mini ∷ gemini ∷ []) "gpt-4o-mini"
unfolding bare_name
price_for_order_free_example =
    price_for_order_free (gemini ∷ mini ∷ []) (mini ∷ gemini ∷ []) "gpt-4o-mini"
      (Permᴰ.swap refl refl) ((λ q. cc q, tt), (tt, tt))
