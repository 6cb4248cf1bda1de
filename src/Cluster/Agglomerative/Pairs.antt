-- ===== src/Cluster/Agglomerative/Pairs.antt =====
-- Sums over the slots, the slots that closestPair finds, and what a merge does to a sum.
use brand_pulse.Prelude.{
  ℕ, zero, suc, ◌+◌, ◌≤◌, ◌<◌, ◌≡◌, ◌≢◌, refl, inl, inr, Bool, true, false, ◌&&◌, Option, none,
  some, Float, ◌==◌, arith, Bool-cases,
}
use brand_pulse.Cluster.Agglomerative.{Slots, Pair, is_closer, scan_row, scan_rows, closest_pair}

-- the sum of `g` over `left` slots from `k`
unfoldable pub sum_from : (ℕ → ℕ) → (left k : ℕ) → ℕ
sum_from g zero k = 0
sum_from g (suc left) k = g k + sum_from g left (suc k)

sum_from-ext :
    (g h : ℕ → ℕ) (left k : ℕ)
    → ((m : ℕ) → k ≤ m → m < k + left → g m ≡ h m)
    → sum_from g left k ≡ sum_from h left k
unfolding sum_from
sum_from-ext g h zero k e = refl
sum_from-ext g h (suc left) k e = omega (
  arith,
  e k (omega arith) (omega arith),
  sum_from-ext g h left (suc k) (λ m a b. e m (omega arith) (omega arith)),
)

-- Two functions that differ at one slot at most.
pub sum_from-change :
    (g h : ℕ → ℕ) (i left k : ℕ)
    → ((m : ℕ) → m ≢ i → g m ≡ h m)
    → k ≤ i
    → i < k + left
    → sum_from g left k + h i ≡ sum_from h left k + g i
unfolding sum_from
sum_from-change g h i zero k e low high = absurd (omega arith)
sum_from-change g h i (suc left) k e low high = elim (Bool-cases (k == i)) [
  | inl q ↦
      let same : k ≡ i = ground arith in
      rw same (omega (arith, sum_from-ext g h left (suc i) (λ m a b. e m (λ p. omega (arith, p)))))
  | inr q ↦
      let apart : k ≢ i = ground arith in
      omega (
        arith,
        apart,
        e k apart,
        sum_from-change g h i left (suc k) e (omega (arith, apart)) (omega arith),
      )
]

abbrev pub one_if : Bool → ℕ
one_if true = 1
one_if false = 0

module _ {R : Type 0} ⦃f : Float R⦄ where
  -- A pair of two active slots, in order and below `n`.
  pub record IsPair (n : ℕ) (s : Slots R) (p : Pair R) : Type 0 where
    pub ordered : p.low < p.high
    pub below : p.high < n
    pub low_active : s.active p.low ≡ true
    pub high_active : s.active p.high ≡ true

  abbrev pub AllPair : ℕ → Slots R → Option (Pair R) → Type 0
  AllPair n s none = Unit
  AllPair n s (some p) = IsPair n s p

  scan_row-IsPair :
      (n : ℕ) (s : Slots R) (i left j : ℕ) (best : Option (Pair R))
      → s.active i ≡ true
      → i < j
      → j + left ≡ n
      → AllPair n s best
      → AllPair n s (scan_row s i left j best)
  unfolding scan_row
  scan_row-IsPair n s i zero j best a h e b = b
  scan_row-IsPair n s i (suc left) j best a h e b =
      elim (Bool-cases (s.active j && is_closer (s.distance i j) best)) [
        | inl q ↦
            rw (q, scan_row)
              (scan_row-IsPair n s i left (suc j) _ a (omega arith) (omega arith) (record {
                ordered = h;
                below = omega arith;
                low_active = a;
                high_active = ground arith;
              }))
        | inr q ↦
            rw (q, scan_row)
              (scan_row-IsPair n s i left (suc j) best a (omega arith) (omega arith) b)
      ]

  scan_rows-IsPair :
      (n : ℕ) (s : Slots R) (left i : ℕ) (best : Option (Pair R))
      → i + left ≡ n
      → AllPair n s best
      → AllPair n s (scan_rows s left i best)
  unfolding scan_rows
  scan_rows-IsPair n s zero i best e b = b
  scan_rows-IsPair n s (suc left) i best e b = elim (Bool-cases (s.active i)) [
    | inl q ↦
        rw (q, scan_rows)
          (scan_rows-IsPair n s left (suc i) (scan_row s i left (suc i) best) (omega arith)
            (scan_row-IsPair n s i left (suc i) best q (omega arith) (omega arith) b))
    | inr q ↦ rw (q, scan_rows) (scan_rows-IsPair n s left (suc i) best (omega arith) b)
  ]

  pub closest_pair-IsPair : (n : ℕ) (s : Slots R) → AllPair n s (closest_pair n s)
  unfolding closest_pair
  closest_pair-IsPair n s = scan_rows-IsPair n s n 0 none (omega arith) tt
