-- ===== src/Orchestrator/Step.antt =====
-- The steps of a run: each reads and changes the world, the log and the spend.
use brand_pulse.Prelude.{ℕ, ◌+◌, String, List, [], ◌∷◌, ◌++◌, Option, none, some, Float, ◌^^◌, map}
use brand_pulse.Orchestrator.Env.{Progress}

abbrev pub Step : Type 0 → Type 0 → Type 0 → Type 0
Step R W A = Progress R W → A × Progress R W

module _ {R W : Type 0} where
  infixl 5 ◌>>=◌ ◌>>◌
  abbrev pub ◌>>=◌ : {A B : Type 0} → Step R W A → (A → Step R W B) → Step R W B
  ◌>>=◌ m f p = let (a, p') = m p in f a p'

  abbrev pub ◌>>◌ : {A B : Type 0} → Step R W A → Step R W B → Step R W B
  m >> n = m >>= λ _. n

  abbrev pub pure : {A : Type 0} → A → Step R W A
  pure a p = (a, p)

  -- an operation on the world
  abbrev pub ask : {A : Type 0} → (W → A × W) → Step R W A
  ask f p = let (a, w) = f p.world in (a, record p { world = w })

  -- runLog.addf, once and for a list
  abbrev pub addf : String → Step R W (Unit {0})
  addf e p = (tt, record p { log = p.log ++ e ∷ [] })

  abbrev pub addf_all : String → List String → Step R W (Unit {0})
  addf_all prefix es p = (tt, record p { log = p.log ++ map (λ e. prefix ^^ ": " ^^ e) es })

  -- an error that is logged with what was being done
  abbrev pub addf_error : String → Option String → Step R W (Unit {0})
  addf_error doing none = pure tt
  addf_error doing (some e) = addf (doing ^^ ": " ^^ e)

  abbrev pub spend_tokens : ⦃f : Float R⦄ → ℕ → R → Step R W (Unit {0})
  spend_tokens ⦃f⦄ tokens paise p =
      (tt, record p { tokens = p.tokens + tokens; paise = f.add p.paise paise })
