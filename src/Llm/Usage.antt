-- ===== src/Llm/Usage.antt =====
-- internal/llm/llm.go: what a call of the model cost, and its options. `Chat` is the type of
-- ChatJSON, with the schema fixed by the caller, on a world of which nothing is known.
use brand_pulse.Prelude.{ℕ, String, Float, Reply}

pub record Usage (R : Type 0) : Type 0 where
  pub prompt_tokens : ℕ
  pub completion_tokens : ℕ
  pub cost_paise : R

unfoldable pub no_usage : {R : Type 0} ⦃f : Float R⦄ → Usage R
no_usage ⦃f⦄ = record { prompt_tokens = 0; completion_tokens = 0; cost_paise = f.of_ℕ 0 }

-- A maximum of 0 leaves the provider's default.
pub record Opt : Type 0 where
  pub model : String
  pub max_tokens : ℕ

abbrev pub Chat : Type 0 → Type 0 → Type 0
Chat R W = String → Opt → W → (Reply String × Usage R) × W
