-- ===== src/Anakin/Budget/Ceiling.antt =====
-- The ceiling holds whatever Postgres answers and however the collectors' calls interleave.
use brand_pulse.Prelude.{ℕ, ◌+◌, ◌≤◌, ◌<◌, ◌≡◌, refl, Bool, true, none, some, List, [], ◌∷◌, arith}
use brand_pulse.Anakin.Budget.{Budget, BudgetError, exceeded, Reads, new_budget, spend}

-- Spend that succeeds leaves the persisted and the in-process credits together within the
-- ceiling, and has added exactly the credits that were asked for.
pub spend_within :
    (n : ℕ) (r : Reads) (b : Budget)
    → (spend n r b).0 ≡ none
    → ((spend n r b).1.persisted + (spend n r b).1.in_process ≤ (spend n r b).1.ceiling)
      × ((spend n r b).1.in_process ≡ b.in_process + n)
unfolding spend
spend_within n r b h = ground arith

-- Spend that fails, for whatever reason, has reserved nothing.
spend_error_reserves_nothing :
    (n : ℕ) (r : Reads) (b : Budget) {e : BudgetError}
    → (spend n r b).0 ≡ some e
    → (spend n r b).1.in_process ≡ b.in_process
unfolding spend
spend_error_reserves_nothing n r b h = ground arith

-- With a pool, a refusal rests on the total that Postgres gave in this very call: the re-read
-- answered `total`, and with it the credits would pass the ceiling. A stale cache never refuses.
pub refusal_is_fresh :
    (n : ℕ) (r : Reads) (b : Budget) {would limit : ℕ}
    → b.has_pool ≡ true
    → (spend n r b).0 ≡ some (exceeded would limit)
    → (r.spent_again ≡ some (spend n r b).1.persisted)
      × (would ≡ (spend n r b).1.persisted + b.in_process + n)
      × (limit ≡ (spend n r b).1.ceiling)
      × (limit < would)
unfolding spend
refusal_is_fresh n r b h k = ground arith

-- One call of the fan-out: the credits that it asks for, and what Postgres answers it.
pub record SpendCall : Type 0 where
  pub credits : ℕ
  pub reads : Reads

-- The mutex makes a run of the parallel collectors a sequence of calls.
unfoldable spend_all : List SpendCall → Budget → Budget
spend_all [] b = b
spend_all (c ∷ cs) b = spend_all cs (spend c.credits c.reads b).1

-- The credits of the calls that succeeded.
unfoldable pub granted : List SpendCall → Budget → ℕ
granted [] b = 0
granted (c ∷ cs) b =
    let later = granted cs (spend c.credits c.reads b).1 in
    elim (spend c.credits c.reads b).0 [ none ↦ c.credits + later | some _ ↦ later ]

-- What this process has reserved never passes the ceiling it knows.
abbrev IsCapped : Budget → Type 0
IsCapped b = b.in_process ≤ b.ceiling

pub spend-IsCapped : (n : ℕ) (r : Reads) (b : Budget) → IsCapped b → IsCapped (spend n r b).1
unfolding spend
spend-IsCapped n r b h = ground arith

spend_all-IsCapped : (cs : List SpendCall) (b : Budget) → IsCapped b → IsCapped (spend_all cs b)
unfolding spend_all
spend_all-IsCapped [] b h = h
spend_all-IsCapped (c ∷ cs) b h =
    spend_all-IsCapped cs (spend c.credits c.reads b).1 (spend-IsCapped c.credits c.reads b h)

pub spend-in_process :
    (n : ℕ) (r : Reads) (b : Budget)
    → (spend n r b).1.in_process
      ≡ elim (spend n r b).0 [ none ↦ b.in_process + n | some _ ↦ b.in_process ]
unfolding spend
spend-in_process n r b = ground arith

in_process-spend_all :
    (cs : List SpendCall) (b : Budget) → (spend_all cs b).in_process ≡ b.in_process + granted cs b
unfolding spend_all granted
in_process-spend_all [] b = omega arith
in_process-spend_all (c ∷ cs) b = ground (
  arith,
  spend-in_process c.credits c.reads b,
  in_process-spend_all cs (spend c.credits c.reads b).1,
)

-- A ceiling that is given is never replaced by the brand's own.
pub spend-ceiling :
    (n : ℕ) (r : Reads) (b : Budget) → 0 < b.ceiling → (spend n r b).1.ceiling ≡ b.ceiling
unfolding spend
spend-ceiling n r b h = ground arith

ceiling-spend_all :
    (cs : List SpendCall) (b : Budget) → 0 < b.ceiling → (spend_all cs b).ceiling ≡ b.ceiling
unfolding spend_all
ceiling-spend_all [] b h = refl
ceiling-spend_all (c ∷ cs) b h =
    ground
      (arith, spend-ceiling c.credits c.reads b, ceiling-spend_all cs (spend c.credits c.reads b).1)

-- Of a fresh budget with an explicit ceiling, the credits granted to any sequence of calls,
-- interleaved in any way and whatever Postgres answers, add up to at most that ceiling.
pub granted-le-ceiling :
    (has_pool : Bool) (ceiling : ℕ) (cs : List SpendCall)
    → 0 < ceiling
    → granted cs (new_budget has_pool ceiling) ≤ ceiling
unfolding new_budget
granted-le-ceiling has_pool ceiling cs h = omega (
  arith,
  in_process-spend_all cs (new_budget has_pool ceiling),
  spend_all-IsCapped cs (new_budget has_pool ceiling) (omega arith),
  ceiling-spend_all cs (new_budget has_pool ceiling) h,
)
