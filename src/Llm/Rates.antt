-- ===== src/Llm/Rates.antt =====
-- What the price of a model depends on.
use brand_pulse.Prelude.{
  ℕ, ◌≡◌, refl, sym, ap, ◌∙◌, ◌≢◌, inl, inr, true, false, String, [], ◌∷◌, none, some, Dict, lookup,
  All, All-mem, Memᴰ, HasUniqueKeys, HasUniqueKeys-perm, All-lookup, All-of_mem, All-of_perm, Float,
  IsOrdered, str_eq, Option-cases, Bool-cases, eq_iff, arith, ltb, thousandths, Thousandths,
  if◌then◌else◌,
}
use mathlib.Core.Path.{subst}
use mathlib.Core.List.{Permᴰ}
use mathlib.Core.List.Permᴰ
use mathlib.Core.List.Memᴰ
use brand_pulse.Llm.Prices.{
  UsdPerMtok, model_prices, bare_name, price_by_bare_name, price_for, total, dearest_from,
  most_expensive_price, cost_paise, paise_at,
}

module _ {R : Type 0} ⦃f : Float R⦄ (o : IsOrdered f) where
  -- the price costs at least as much as the row, input and output together
  abbrev pub IsAtLeast : UsdPerMtok R → String × UsdPerMtok R → Type 0
  IsAtLeast p row = f.lt (total p) (total row.1) ≡ false

  dearest_from-least :
      (rows : Dict (UsdPerMtok R)) (worst p : UsdPerMtok R)
      → f.lt (total worst) (total p) ≡ false
      → f.lt (total (dearest_from worst rows)) (total p) ≡ false
  unfolding dearest_from
  dearest_from-least [] worst p h = h
  dearest_from-least ((n, q) ∷ rows) worst p h = elim (Bool-cases (f.lt (total worst) (total q))) [
    | inl e ↦
        rw (e, dearest_from)
          (dearest_from-least rows q p (
            o.lt_weak.neg_trans (total q) (total worst) (total p)
              (o.lt_weak.asym (total worst) (total q) e) h))
    | inr e ↦ rw (e, dearest_from) (dearest_from-least rows worst p h)
  ]

  next-least :
      (worst q : UsdPerMtok R)
      → f.lt (total (if f.lt (total worst) (total q) then q else worst)) (total q) ≡ false
  next-least worst q = elim (Bool-cases (f.lt (total worst) (total q))) [
    | inl e ↦ rw e (elim (Bool-cases (f.lt (total q) (total q))) [
      | inl r ↦ o.lt_weak.asym (total q) (total q) r
      | inr r ↦ r
    ])
    | inr e ↦ rw e e
  ]

  dearest_from-covers :
      (rows : Dict (UsdPerMtok R)) (worst : UsdPerMtok R)
      → All (IsAtLeast (dearest_from worst rows)) rows
  unfolding dearest_from
  dearest_from-covers [] worst = tt
  dearest_from-covers ((n, q) ∷ rows) worst =
      let next = if f.lt (total worst) (total q) then q else worst in
      (dearest_from-least rows next q (next-least worst q), dearest_from-covers rows next)

  -- Whatever the order of the table, no row costs more, input and output together, than the price
  -- of a model that is not in it.
  pub unknown_model_is_dearest :
      (rows : Dict (UsdPerMtok R)) (model : String) (prompt_tokens completion_tokens : ℕ)
      → price_for rows model ≡ none
      → (p : UsdPerMtok R) × All (IsAtLeast p) rows
        × (cost_paise rows model prompt_tokens completion_tokens
            ≡ paise_at p prompt_tokens completion_tokens)
  unfolding cost_paise most_expensive_price
  unknown_model_is_dearest rows model prompt_tokens completion_tokens h =
      (most_expensive_price rows, dearest_from-covers rows _, rw (h, cost_paise) refl)

abbrev bare_of : {R : Type 0} → String × UsdPerMtok R → String
bare_of row = bare_name row.0

module _ {R : Type 0} where
  price_by_bare_name-mem :
      (bare : String) (rows : Dict (UsdPerMtok R)) {p : UsdPerMtok R}
      → price_by_bare_name bare rows ≡ some p
      → (name : String) × Memᴰ (name, p) rows × (bare_name name ≡ bare)
  unfolding price_by_bare_name
  price_by_bare_name-mem bare [] h = absurd (cc h)
  price_by_bare_name-mem bare ((n, q) ∷ rows) h = elim (Bool-cases (str_eq (bare_name n) bare)) [
    | inl e ↦
        (n, Memᴰ.head (ap (λ r. (n, r)) (sym (cc (rw e at h)))), (eq_iff (bare_name n) bare).0 e)
    | inr e ↦
        let (name, m, r) = price_by_bare_name-mem bare rows (rw e at h) in (name, Memᴰ.tail m, r)
  ]

  price_by_bare_name-of_mem :
      (rows : Dict (UsdPerMtok R)) (name : String) (p : UsdPerMtok R)
      → HasUniqueKeys bare_of rows
      → Memᴰ (name, p) rows
      → price_by_bare_name (bare_name name) rows ≡ some p
  unfolding price_by_bare_name
  price_by_bare_name-of_mem [] name p u m = elim m [ ]
  price_by_bare_name-of_mem ((n, q) ∷ rows) name p u m = elim (Memᴰ.cases_cons m) [
    | inl e ↦
        let same_name : name ≡ n = ap (λ r. r.0) e in
        let same_price : p ≡ q = ap (λ r. r.1) e in
        ground (arith, eq_iff (bare_name n) (bare_name name))
    | inr m' ↦
        let differs : bare_name n ≢ bare_name name =
          All-mem (λ r. bare_of (n, q) ≢ bare_of r) rows u.0 (name, p) m' in
        ground (
          arith,
          eq_iff (bare_name n) (bare_name name),
          price_by_bare_name-of_mem rows name p u.1 m',
        )
  ]

  -- In a table whose bare names differ, the exact name is found by its bare name too.
  price_for-by_bare_name :
      (rows : Dict (UsdPerMtok R)) (model : String)
      → HasUniqueKeys bare_of rows
      → price_for rows model ≡ price_by_bare_name (bare_name model) rows
  unfolding price_for
  price_for-by_bare_name rows model u = elim (Option-cases (lookup model rows)) [
    | inl e ↦ rw (e, price_for) refl
    | inr (p, e) ↦
        let listed =
          All-lookup (λ r. Memᴰ r rows) model p rows (All-of_mem (λ r. Memᴰ r rows) rows (λ r m. m))
            e in
        rw (e, price_for) (sym (price_by_bare_name-of_mem rows model p u listed))
  ]

  price_by_bare_name-perm :
      (bare : String) {rows other : Dict (UsdPerMtok R)}
      → Permᴰ rows other
      → HasUniqueKeys bare_of rows
      → {p : UsdPerMtok R} → price_by_bare_name bare rows ≡ some p
      → price_by_bare_name bare other ≡ some p
  price_by_bare_name-perm bare {rows} {other} d u {p} h =
      let (name, m, e) = price_by_bare_name-mem bare rows h in
      let m' =
        All-mem (λ r. Memᴰ r other) rows
          (All-of_perm (λ r. Memᴰ r other) (Permᴰ.symm d)
            (All-of_mem (λ r. Memᴰ r other) other (λ r i. i)))
          (name, p) m in
      subst (λ b. price_by_bare_name b other ≡ some p) e
        (price_by_bare_name-of_mem other name p (HasUniqueKeys-perm bare_of d u) m')

  -- The order in which Go ranges over a table whose bare names differ changes no price that is
  -- found, and no model that is not.
  pub price_for_order_free :
      (rows other : Dict (UsdPerMtok R)) (model : String)
      → Permᴰ rows other
      → HasUniqueKeys bare_of rows
      → price_for rows model ≡ price_for other model
  price_for_order_free rows other model d u =
      let bare = bare_name model in
      price_for-by_bare_name rows model u
      ∙ elim (Option-cases (price_by_bare_name bare rows)) [
        | inr (p, e) ↦ e ∙ sym (price_by_bare_name-perm bare d u e)
        | inl e ↦ elim (Option-cases (price_by_bare_name bare other)) [
          | inl e' ↦ e ∙ sym e'
          | inr (p, e') ↦ absurd (
              cc (
                e,
                price_by_bare_name-perm bare (Permᴰ.symm d) (HasUniqueKeys-perm bare_of d u) e',
              ))
        ]
      ]
      ∙ sym (price_for-by_bare_name other model (HasUniqueKeys-perm bare_of d u))

-- A model that is not in the table can cost less than one that is, where there are few completion
-- tokens: the dearest row by the sum is not the one with the dearest input.
cheap_unknown_model :
    ltb
      (cost_paise (model_prices {R = Thousandths}) "unheard-of" 1_000_000 0)
      (cost_paise (model_prices {R = Thousandths}) "gemini/gemini-1.5-pro" 1_000_000 0)
    ≡ true
unfolding cost_paise paise_at price_for price_by_bare_name bare_name most_expensive_price
    dearest_from lookup
cheap_unknown_model = refl
