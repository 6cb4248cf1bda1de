-- ===== src/Anakin/Budget.antt =====
-- internal/anakin/budget.go: the credit ceiling of one brand-day. A method holds the mutex for its
-- whole body, so it is one step on the record. What Postgres answers is an argument, one reply for
-- each query that the call can make, in order; `none` is a query that fails.
pub mod Ceiling
pub mod Headroom
use brand_pulse.Prelude.{
  ℕ, ◌+◌, ◌-◌, Bool, true, false, Option, none, some, ltb, leb, if◌then◌else◌,
}

-- `pool != nil` is `has_pool`; the brand and the day only key the queries.
pub record Budget : Type 0 where
  pub has_pool : Bool
  pub ceiling : ℕ
  pub persisted : ℕ
  pub in_process : ℕ
  pub loaded : Bool

pub data BudgetError : Type 0 where
  no_ceiling ceiling_unread total_unread : BudgetError
  exceeded : ℕ → ℕ → BudgetError

-- daily_credit_budget, the sum of runs.credits_used, and that sum read once more
pub record Reads : Type 0 where
  pub daily_budget : Option ℕ
  pub spent : Option ℕ
  pub spent_again : Option ℕ

unfoldable pub new_budget : Bool → ℕ → Budget
new_budget has_pool ceiling = record {
  has_pool = has_pool;
  ceiling = ceiling;
  persisted = 0;
  in_process = 0;
  loaded = false;
}

unfoldable read_persisted : Option ℕ → Budget → Option BudgetError × Budget
read_persisted reply b =
    if b.has_pool
    then elim reply [
      | none ↦ (some total_unread, b)
      | some total ↦ (none, record b { persisted = total })
    ]
    else (none, b)

-- the ceiling that is set already, or the brand's own
unfoldable read_ceiling : Option ℕ → Budget → Option BudgetError × Budget
read_ceiling reply b =
    if leb b.ceiling 0
    then elim reply [
      | none ↦ (some ceiling_unread, b)
      | some ceiling ↦ (none, record b { ceiling = ceiling })
    ]
    else (none, b)

-- the two reads of `load`, the second only if the first succeeds
load_from_pool : Reads → Budget → Option BudgetError × Budget
unfolding read_persisted read_ceiling
load_from_pool r b =
    let (e, b₁) = read_ceiling r.daily_budget b in
    elim e [
      | some e ↦ (some e, b₁)
      | none ↦
          let (e', b₂) = read_persisted r.spent b₁ in
          elim e' [ some e' ↦ (some e', b₂) | none ↦ (none, record b₂ { loaded = true }) ]
    ]

unfoldable load : Reads → Budget → Option BudgetError × Budget
unfolding load_from_pool
load r b =
    if b.loaded
    then (none, b)
    else if b.has_pool
    then load_from_pool r b
    else if leb b.ceiling 0
    then (some no_ceiling, b)
    else (none, record b { loaded = true })

breaches : ℕ → Budget → Bool
breaches n b = ltb b.ceiling (b.persisted + b.in_process + n)

reserve : ℕ → Budget → Option BudgetError × Budget
reserve n b = (none, record b { in_process = b.in_process + n })

-- the second look at the persisted total, before saying no
spend_after_reread : ℕ → Option ℕ → Budget → Option BudgetError × Budget
unfolding read_persisted breaches reserve
spend_after_reread n reply b =
    let (e, b₁) = read_persisted reply b in
    elim e [
      | some e ↦ (some e, b₁)
      | none ↦
          if breaches n b₁
          then (some (exceeded (b₁.persisted + b₁.in_process + n) b₁.ceiling), b₁)
          else reserve n b₁
    ]

spend_loaded : ℕ → Reads → Budget → Option BudgetError × Budget
unfolding breaches reserve spend_after_reread
spend_loaded n r b = if breaches n b then spend_after_reread n r.spent_again b else reserve n b

-- Budget.Spend
unfoldable pub spend : ℕ → Reads → Budget → Option BudgetError × Budget
unfolding load spend_loaded
spend n r b =
    let (e, b₁) = load r b in elim e [ some e ↦ (some e, b₁) | none ↦ spend_loaded n r b₁ ]

-- Budget.Remaining: `none` is its error
unfoldable pub remaining : Reads → Budget → Option ℕ × Budget
unfolding load
remaining r b =
    let (e, b₁) = load r b in
    elim e [ some _ ↦ (none, b₁) | none ↦ (some (b₁.ceiling - b₁.persisted - b₁.in_process), b₁) ]
