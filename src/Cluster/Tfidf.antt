-- ===== src/Cluster/Tfidf.antt =====
-- internal/cluster/tfidf.go: the weights of the terms of each document. `log` and `sqrt` are those
-- of Go's math.
pub mod Vocabulary
pub mod Support
pub mod Shape
use Prim.Native.Char.{Char}
use brand_pulse.Prelude.{
  ℕ, zero, suc, ◌+◌, Bool, String, List, [], ◌∷◌, ◌++◌, map, Option, none, some, Dict, lookup_or,
  insert_key, length, Float, sort_stable, str_lt, unique_by, if◌then◌else◌,
}
use brand_pulse.Cluster.Tokens.{tokenize}

pub record Matrix (R : Type 0) : Type 0 where
  pub rows : List (List R)
  pub terms : List String

-- documentFrequency after one document: its terms are counted once each
unfoldable pub add_terms : List String → Dict ℕ → Dict ℕ
unfolding lookup_or insert_key
add_terms [] counts = counts
add_terms (t ∷ ts) counts = add_terms ts (insert_key t (suc (lookup_or 0 t counts)) counts)

unfoldable pub document_frequency : List (List String) → Dict ℕ → Dict ℕ
unfolding add_terms unique_by
document_frequency [] counts = counts
document_frequency (tokens ∷ rest) counts =
    document_frequency rest (add_terms (unique_by (λ t. t) tokens) counts)

-- the keys of the map, sorted
unfoldable pub sorted_terms : Dict ℕ → List String
sorted_terms counts = sort_stable str_lt (map (λ e. e.0) counts)

-- columnOf, from column `k`
unfoldable pub columns_from : ℕ → List String → Dict ℕ → Dict ℕ
columns_from k [] columns = columns
columns_from k (t ∷ ts) columns = columns_from (suc k) ts (insert_key t k columns)

-- row[k], which is never read past the end, and row[k] = change(row[k])
unfoldable pub entry : {R : Type 0} → R → List R → ℕ → R
entry d [] k = d
entry d (v ∷ vs) zero = v
entry d (v ∷ vs) (suc k) = entry d vs k

unfoldable pub change_at : {R : Type 0} → ℕ → (R → R) → List R → List R
change_at k change [] = []
change_at zero change (v ∷ vs) = change v ∷ vs
change_at (suc k) change (v ∷ vs) = v ∷ change_at k change vs

module _ {R : Type 0} ⦃f : Float R⦄ (log : R → R) where
  unfoldable pub idf_of : ℕ → Dict ℕ → String → R
  unfolding lookup_or
  idf_of corpus_size counts term =
      log (f.div (f.of_ℕ corpus_size) (f.add (f.of_ℕ 1) (f.of_ℕ (lookup_or 0 term counts))))

module _ {R : Type 0} ⦃f : Float R⦄ where
  unfoldable pub zeros : List String → List R
  zeros [] = []
  zeros (t ∷ ts) = f.of_ℕ 0 ∷ zeros ts

  -- the counts of one document, with the columns that it has in the order of their first sighting
  unfoldable pub count_terms : Dict ℕ → List String → List R → List ℕ → List R × List ℕ
  unfolding lookup_or entry change_at
  count_terms columns [] row present = (row, present)
  count_terms columns (t ∷ ts) row present =
      let k = lookup_or 0 t columns in
      let first = f.eq (entry (f.of_ℕ 0) row k) (f.of_ℕ 0) in
      count_terms columns ts (change_at k (λ v. f.add v (f.of_ℕ 1)) row)
        (if first then present ++ k ∷ [] else present)

  -- the first loop of normaliseAt
  unfoldable pub weigh : List R → List ℕ → List R → R → List R × R
  unfolding entry change_at
  weigh idf [] row squares = (row, squares)
  weigh idf (k ∷ ks) row squares =
      let row' = change_at k (λ v. f.mul v (entry (f.of_ℕ 0) idf k)) row in
      let v = entry (f.of_ℕ 0) row' k in weigh idf ks row' (f.add squares (f.mul v v))

  -- the second loop
  unfoldable pub scale : R → List ℕ → List R → List R
  unfolding change_at
  scale size [] row = row
  scale size (k ∷ ks) row = scale size ks (change_at k (λ v. f.div v size) row)

module _ {R : Type 0} ⦃f : Float R⦄ (sqrt : R → R) where
  unfoldable pub normalise_at : List R → List ℕ → List R → List R
  unfolding weigh scale
  normalise_at row present idf =
      let (weighed, squares) = weigh idf present row (f.of_ℕ 0) in
      if f.eq squares (f.of_ℕ 0) then weighed else scale (sqrt squares) present weighed

  unfoldable pub row_of : Dict ℕ → List String → List R → List String → List R
  unfolding count_terms zeros normalise_at
  row_of columns terms idf tokens =
      let (row, present) = count_terms columns tokens (zeros terms) [] in
      normalise_at row present idf

module _ {R : Type 0} ⦃f : Float R⦄ (log sqrt : R → R) where
  -- TFIDF
  unfoldable pub tfidf : (String → String) → (Char → Bool) → List String → Matrix R
  unfolding tokenize document_frequency sorted_terms columns_from idf_of row_of
  tfidf lower is_word docs =
      let tokenized = map (tokenize lower is_word) docs in
      let counts = document_frequency tokenized [] in
      let terms = sorted_terms counts in
      let columns = columns_from 0 terms [] in
      let idf = map (idf_of log (length docs) counts) terms in
      record { rows = map (row_of sqrt columns terms idf) tokenized; terms = terms }
