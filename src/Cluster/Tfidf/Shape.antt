-- ===== src/Cluster/Tfidf/Shape.antt =====
-- The rows, the columns and the terms of the matrix, and where it is zero.
use brand_pulse.Prelude.{
  ap, true, ◌-◌, ◌≢◌, ◌⊎◌, contains, lookup_or, All-of_mem, All-mem, HasUniqueKeys, ltb, count, ℕ,
  zero, suc, ◌≡◌, refl, ◌∙◌, Bool, String, List, [], ◌∷◌, map, Dict, length, length-map, All,
  All-map, Float, str_lt, str_lt-IsWeakOrder, sort_stable-IsSorted, IsSorted, Bool-cases, inl, inr,
  arith,
}
use Prim.Native.Char.{Char}
use brand_pulse.Cluster.Tokens.{tokenize}
use brand_pulse.Cluster.Tfidf.Vocabulary.{
  contains-of_mem, contains-terms, terms-HasUniqueKeys, count-of_mem, lookup_or-document_frequency,
}
use brand_pulse.Cluster.Tfidf.Support.{entry-columns_from, row_of-Avoids}
use brand_pulse.Cluster.Tfidf.{
  entry, columns_from, document_frequency, Matrix, change_at, zeros, count_terms, weigh, scale,
  normalise_at, row_of, sorted_terms, tfidf,
}

length-change_at :
    {R : Type 0} (k : ℕ) (g : R → R) (row : List R) → length (change_at k g row) ≡ length row
unfolding change_at
length-change_at k g [] = refl
length-change_at zero g (v ∷ vs) = refl
length-change_at (suc k) g (v ∷ vs) = omega (arith, length-change_at k g vs)

length-zeros :
    (R : Type 0) ⦃f : Float R⦄ (terms : List String) → length (zeros {R = R} terms) ≡ length terms
unfolding zeros
length-zeros R [] = refl
length-zeros R (t ∷ ts) = omega (arith, length-zeros R ts)

module _ {R : Type 0} ⦃f : Float R⦄ where
  length-count_terms :
      (columns : Dict ℕ) (tokens : List String) (row : List R) (present : List ℕ)
      → length (count_terms columns tokens row present).0 ≡ length row
  unfolding count_terms
  length-count_terms columns [] row present = refl
  length-count_terms columns (t ∷ ts) row present =
      length-count_terms columns ts _ _ ∙ length-change_at _ _ row

  length-weigh :
      (idf : List R) (present : List ℕ) (row : List R) (squares : R)
      → length (weigh idf present row squares).0 ≡ length row
  unfolding weigh
  length-weigh idf [] row squares = refl
  length-weigh idf (k ∷ ks) row squares = length-weigh idf ks _ _ ∙ length-change_at k _ row

  length-scale :
      (size : R) (present : List ℕ) (row : List R) → length (scale size present row) ≡ length row
  unfolding scale
  length-scale size [] row = refl
  length-scale size (k ∷ ks) row = length-scale size ks _ ∙ length-change_at k _ row

  length-normalise_at :
      (sqrt : R → R) (row : List R) (present : List ℕ) (idf : List R)
      → length (normalise_at sqrt row present idf) ≡ length row
  unfolding normalise_at
  length-normalise_at sqrt row present idf =
      let (weighed, squares) = weigh idf present row (f.of_ℕ 0) in
      elim (Bool-cases (f.eq squares (f.of_ℕ 0))) [
        | inl e ↦ rw (e, normalise_at) (length-weigh idf present row (f.of_ℕ 0))
        | inr e ↦
            rw (e, normalise_at)
              (length-scale (sqrt squares) present weighed
                ∙ length-weigh idf present row (f.of_ℕ 0))
      ]

  length-row_of :
      (sqrt : R → R) (columns : Dict ℕ) (terms : List String) (idf : List R) (tokens : List String)
      → length (row_of sqrt columns terms idf tokens) ≡ length terms
  unfolding row_of
  length-row_of sqrt columns terms idf tokens =
      let (row, present) = count_terms columns tokens (zeros terms) [] in
      length-normalise_at sqrt row present idf
      ∙ length-count_terms columns tokens (zeros terms) []
      ∙ length-zeros R terms

All-of : {A : Type 0} {P : A → Type 0} → ((a : A) → P a) → (xs : List A) → All P xs
All-of h [] = tt
All-of h (x ∷ xs) = (h x, All-of h xs)

module _ {R : Type 0} ⦃f : Float R⦄ (log sqrt : R → R) (lower : String → String)
    (is_word : Char → Bool) where
  pub length-tfidf_rows :
      (docs : List String) → length (tfidf log sqrt lower is_word docs).rows ≡ length docs
  unfolding tfidf
  length-tfidf_rows docs =
      length-map _ (map (tokenize lower is_word) docs) ∙ length-map (tokenize lower is_word) docs

  row_of-support :
      (docs : List (List String)) (idf : List R) (tokens : List String) (k : ℕ)
      → let terms = sorted_terms (document_frequency docs []) in
        All (λ s. contains s terms ≡ true) tokens
        → (contains (entry "" terms k) tokens ≡ true)
          ⊎ (entry (f.of_ℕ 0) (row_of sqrt (columns_from 0 terms []) terms idf tokens) k ≡ f.of_ℕ 0)
  row_of-support docs idf tokens k known =
      let terms = sorted_terms (document_frequency docs []) in
      let columns = columns_from 0 terms [] in
      elim (Bool-cases (contains (entry "" terms k) tokens)) [
        | inl q ↦ inl q
        | inr q ↦ inr (
            row_of-Avoids k sqrt columns terms idf tokens (
              All-of_mem (λ s. lookup_or 0 s columns ≢ k) tokens
                (λ s m same.
                  let (_, held) =
                    entry-columns_from s 0 terms [] (terms-HasUniqueKeys docs)
                      (All-mem (λ s. contains s terms ≡ true) tokens known s m) in
                  let back : k ≡ lookup_or 0 s columns - 0 = omega (arith, same) in
                  let at_k = ap (entry "" terms) back ∙ held in
                  cc (q, at_k, contains-of_mem s tokens m))))
      ]

  tokens-known :
      (docs : List (List String))
      → All (λ d. All (λ s. contains s (sorted_terms (document_frequency docs [])) ≡ true) d) docs
  tokens-known docs =
      All-of_mem (λ d. All (λ s. contains s (sorted_terms (document_frequency docs [])) ≡ true) d)
        docs
        (λ d i.
          All-of_mem (λ s. contains s (sorted_terms (document_frequency docs [])) ≡ true) d
            (λ s m. contains-terms s docs ∙ count-of_mem s docs d i (contains-of_mem s d m)))

  -- The entry of each row in each column: zero, unless the row's document has the column's term.
  abbrev pub IsSupported : List String → List (List String) → List (List R) → ℕ → ℕ → Type 0
  IsSupported terms docs rows i k =
      (contains (entry "" terms k) (entry [] docs i) ≡ true)
      ⊎ (entry (f.of_ℕ 0) (entry [] rows i) k ≡ f.of_ℕ 0)

  rows-IsSupported :
      (docs rest : List (List String)) (idf : List R) (i k : ℕ)
      → let terms = sorted_terms (document_frequency docs []) in
        All (λ d. All (λ s. contains s terms ≡ true) d) rest
        → IsSupported terms rest (map (row_of sqrt (columns_from 0 terms []) terms idf) rest) i k
  unfolding entry
  rows-IsSupported docs [] idf i k known = inr refl
  rows-IsSupported docs (d ∷ ds) idf zero k known = row_of-support docs idf d k known.0
  rows-IsSupported docs (d ∷ ds) idf (suc i) k known = rows-IsSupported docs ds idf i k known.1

  -- What a matrix of the weights of these documents is.
  pub record IsMatrixOf (docs : List String) (m : Matrix R) : Type 0 where
    pub row_for_each : length m.rows ≡ length docs
    pub columns_agree : All (λ row. length row ≡ length m.terms) m.rows
    pub terms_in_order : IsSorted str_lt m.terms
    pub terms_once : HasUniqueKeys (λ t. t) m.terms
    pub terms_of_docs :
        (t : String)
        → contains t m.terms ≡ ltb 0 (count (contains t) (map (tokenize lower is_word) docs))
    pub frequencies :
        (t : String)
        → lookup_or 0 t (document_frequency (map (tokenize lower is_word) docs) [])
          ≡ count (contains t) (map (tokenize lower is_word) docs)
    pub zero_elsewhere :
        (i k : ℕ) → IsSupported m.terms (map (tokenize lower is_word) docs) m.rows i k

  -- TFIDF gives one row for each document, with one column for each term. Its terms are the tokens
  -- that the documents have, each once and in order; the frequency of a term is the number of the
  -- documents that have it; and an entry is zero unless the row's document has the column's term.
  pub tfidf-IsMatrixOf : (docs : List String) → IsMatrixOf docs (tfidf log sqrt lower is_word docs)
  unfolding tfidf
  tfidf-IsMatrixOf docs =
      let tokenized = map (tokenize lower is_word) docs in
      record {
        row_for_each = length-tfidf_rows docs;
        columns_agree =
            All-map (λ row. length row ≡ _) _ tokenized
              (All-of (λ tokens. length-row_of sqrt _ _ _ tokens) tokenized);
        terms_in_order = unfold sorted_terms in sort_stable-IsSorted str_lt str_lt-IsWeakOrder _;
        terms_once = terms-HasUniqueKeys tokenized;
        terms_of_docs = λ t. contains-terms t tokenized;
        frequencies =
            λ t. unfold lookup_or in (lookup_or-document_frequency t tokenized [] ∙ omega arith);
        zero_elsewhere = λ i k. rows-IsSupported tokenized tokenized _ i k (tokens-known tokenized);
      }
