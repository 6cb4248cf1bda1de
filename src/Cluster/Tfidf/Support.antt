-- ===== src/Cluster/Tfidf/Support.antt =====
-- A row is zero outside the columns of its document's terms.
use brand_pulse.Prelude.{
  ℕ, zero, suc, ◌-◌, ◌≤◌, ◌≡◌, ◌≢◌, refl, sym, ap, ◌∙◌, inl, inr, true, false, Bool-cases, String,
  List, [], ◌∷◌, ◌++◌, Dict, lookup_or, insert_key, str_eq, eq_iff, contains, HasUniqueKeys, All,
  All-append, Float, arith,
}
use brand_pulse.Cluster.Tfidf.Vocabulary.{lookup_or-insert_key, contains-absent, same_term}
use brand_pulse.Cluster.Tfidf.{
  columns_from, entry, change_at, zeros, count_terms, weigh, scale, normalise_at, row_of,
}

columns_from-other :
    (s : String) (k : ℕ) (ts : List String) (columns : Dict ℕ)
    → contains s ts ≡ false
    → lookup_or 0 s (columns_from k ts columns) ≡ lookup_or 0 s columns
unfolding columns_from contains
columns_from-other s k [] columns h = refl
columns_from-other s k (t ∷ ts) columns h = ground (
  arith,
  lookup_or-insert_key t s k columns,
  columns_from-other s (suc k) ts (insert_key t k columns),
)

-- The column of a term holds the term.
pub entry-columns_from :
    (s : String) (k : ℕ) (ts : List String) (columns : Dict ℕ)
    → HasUniqueKeys same_term ts
    → contains s ts ≡ true
    → (k ≤ lookup_or 0 s (columns_from k ts columns))
      × (entry "" ts (lookup_or 0 s (columns_from k ts columns) - k) ≡ s)
unfolding columns_from contains entry
entry-columns_from s k [] columns u h = absurd (cc h)
entry-columns_from s k (t ∷ ts) columns u h = elim (Bool-cases (str_eq t s)) [
  | inl e ↦
      let same = (eq_iff t s).0 e in
      let here : lookup_or 0 s (columns_from (suc k) ts (insert_key t k columns)) ≡ k =
        columns_from-other s (suc k) ts (insert_key t k columns)
          (rw (sym same) (contains-absent t ts u.0))
        ∙ lookup_or-insert_key t s k columns
        ∙ ground arith in
      let none_left : k - k ≡ 0 = omega arith in (omega (arith, here), rw here (rw none_left same))
  | inr e ↦
      let (past, found) =
        entry-columns_from s (suc k) ts (insert_key t k columns) u.1 (ground arith) in
      let column = lookup_or 0 s (columns_from (suc k) ts (insert_key t k columns)) in
      let next : column - k ≡ suc (column - suc k) = omega (arith, past) in
      (omega (arith, past), rw next found)
]

entry-change_at :
    {R : Type 0} (d : R) (j k : ℕ) (g : R → R) (row : List R)
    → j ≢ k
    → entry d (change_at j g row) k ≡ entry d row k
unfolding entry change_at
entry-change_at d j k g [] h = refl
entry-change_at d zero zero g (v ∷ vs) h = absurd (h refl)
entry-change_at d zero (suc k) g (v ∷ vs) h = refl
entry-change_at d (suc j) zero g (v ∷ vs) h = refl
entry-change_at d (suc j) (suc k) g (v ∷ vs) h = entry-change_at d j k g vs (λ e. h (ap suc e))

abbrev Avoids : ℕ → List ℕ → Type 0
Avoids k present = All (λ j. j ≢ k) present

module _ {R : Type 0} ⦃f : Float R⦄ (k : ℕ) where
  entry-zeros : (terms : List String) (i : ℕ) → entry (f.of_ℕ 0) (zeros terms) i ≡ f.of_ℕ 0
  unfolding entry zeros
  entry-zeros [] i = refl
  entry-zeros (t ∷ ts) zero = refl
  entry-zeros (t ∷ ts) (suc i) = entry-zeros ts i

  count_terms-Avoids :
      (columns : Dict ℕ) (tokens : List String) (row : List R) (present : List ℕ)
      → All (λ s. lookup_or 0 s columns ≢ k) tokens
      → Avoids k present
      → (entry (f.of_ℕ 0) (count_terms columns tokens row present).0 k ≡ entry (f.of_ℕ 0) row k)
        × Avoids k (count_terms columns tokens row present).1
  unfolding count_terms
  count_terms-Avoids columns [] row present h a = (refl, a)
  count_terms-Avoids columns (t ∷ ts) row present h a =
      let j = lookup_or 0 t columns in
      let row' = change_at j (λ v. f.add v (f.of_ℕ 1)) row in
      let same = entry-change_at (f.of_ℕ 0) j k (λ v. f.add v (f.of_ℕ 1)) row h.0 in
      elim (Bool-cases (f.eq (entry (f.of_ℕ 0) row j) (f.of_ℕ 0))) [
        | inl e ↦
            let rest =
              count_terms-Avoids columns ts row' (present ++ j ∷ []) h.1
                (All-append (λ i. i ≢ k) present (j ∷ []) a (h.0, tt)) in
            rw (e, count_terms) (rest.0 ∙ same, rest.1)
        | inr e ↦
            let rest = count_terms-Avoids columns ts row' present h.1 a in
            rw (e, count_terms) (rest.0 ∙ same, rest.1)
      ]

  weigh-Avoids :
      (idf : List R) (present : List ℕ) (row : List R) (squares : R)
      → Avoids k present
      → entry (f.of_ℕ 0) (weigh idf present row squares).0 k ≡ entry (f.of_ℕ 0) row k
  unfolding weigh
  weigh-Avoids idf [] row squares a = refl
  weigh-Avoids idf (j ∷ js) row squares a =
      weigh-Avoids idf js _ _ a.1 ∙ entry-change_at (f.of_ℕ 0) j k _ row a.0

  scale-Avoids :
      (size : R) (present : List ℕ) (row : List R)
      → Avoids k present
      → entry (f.of_ℕ 0) (scale size present row) k ≡ entry (f.of_ℕ 0) row k
  unfolding scale
  scale-Avoids size [] row a = refl
  scale-Avoids size (j ∷ js) row a =
      scale-Avoids size js _ a.1 ∙ entry-change_at (f.of_ℕ 0) j k _ row a.0

  normalise_at-Avoids :
      (sqrt : R → R) (row : List R) (present : List ℕ) (idf : List R)
      → Avoids k present
      → entry (f.of_ℕ 0) (normalise_at sqrt row present idf) k ≡ entry (f.of_ℕ 0) row k
  unfolding normalise_at
  normalise_at-Avoids sqrt row present idf a =
      let (weighed, squares) = weigh idf present row (f.of_ℕ 0) in
      let same = weigh-Avoids idf present row (f.of_ℕ 0) a in
      elim (Bool-cases (f.eq squares (f.of_ℕ 0))) [
        | inl e ↦ rw (e, normalise_at) same
        | inr e ↦ rw (e, normalise_at) (scale-Avoids (sqrt squares) present weighed a ∙ same)
      ]

  -- A column that no token has stays zero.
  pub row_of-Avoids :
      (sqrt : R → R) (columns : Dict ℕ) (terms : List String) (idf : List R) (tokens : List String)
      → All (λ s. lookup_or 0 s columns ≢ k) tokens
      → entry (f.of_ℕ 0) (row_of sqrt columns terms idf tokens) k ≡ f.of_ℕ 0
  unfolding row_of
  row_of-Avoids sqrt columns terms idf tokens h =
      let (row, present) = count_terms columns tokens (zeros terms) [] in
      let (same, avoids) = count_terms-Avoids columns tokens (zeros terms) [] h tt in
      normalise_at-Avoids sqrt row present idf avoids ∙ same ∙ entry-zeros terms k
