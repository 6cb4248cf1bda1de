-- ===== src/Anakin/Budget/Headroom.antt =====
-- What Remaining reports can be spent.
use brand_pulse.Prelude.{ℕ, ◌+◌, ◌≤◌, ◌<◌, ◌≡◌, none, some, arith}
use brand_pulse.Anakin.Budget.{Budget, Reads, spend, remaining}

-- After Remaining has reported `left`, a call for some credits succeeds at once if they are at
-- most `left`, whatever Postgres would answer it.
pub remaining_can_be_spent :
    (n left : ℕ) (r r' : Reads) (b : Budget)
    → (remaining r b).0 ≡ some left
    → 0 < n
    → n ≤ left
    → (spend n r' (remaining r b).1).0 ≡ none
unfolding remaining spend
remaining_can_be_spent n left r r' b h pos k = ground arith

-- What Remaining reports and what is spent make up the ceiling, unless more than the ceiling is
-- spent already.
remaining_exact :
    (left : ℕ) (r : Reads) (b : Budget)
    → (remaining r b).0 ≡ some left
    → (remaining r b).1.persisted + (remaining r b).1.in_process ≤ (remaining r b).1.ceiling
    → left + (remaining r b).1.persisted + (remaining r b).1.in_process ≡ (remaining r b).1.ceiling
unfolding remaining
remaining_exact left r b h k = ground arith
