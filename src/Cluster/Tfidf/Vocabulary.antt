-- ===== src/Cluster/Tfidf/Vocabulary.antt =====
-- Which terms the documents have, in how many of them, and in which columns.
use brand_pulse.Prelude.{
  ℕ, suc, ◌+◌, ◌≡◌, ◌≢◌, refl, sym, ap, ◌∙◌, inl, inr, true, false, ◌||◌, Bool-cases, ltb, String,
  List, [], ◌∷◌, map, Dict, lookup_or, insert_key, lookup-insert_key, str_eq, eq_iff, contains,
  unique_by, unique_by-HasUniqueKeys, unique_by-mem, unique_by-covers, HasUniqueKeys,
  HasUniqueKeys-perm, All, All-insert_key, Memᴰ, str_lt, sort_stable-permᴰ, count, arith,
  if◌then◌else◌,
}
use mathlib.Core.List.{Permᴰ}
use mathlib.Core.List.Memᴰ
use mathlib.Core.List.Permᴰ
use brand_pulse.Cluster.Tfidf.{add_terms, document_frequency, sorted_terms}

abbrev pub same_term : String → String
same_term t = t

pub contains-of_mem : (t : String) (ts : List String) → Memᴰ t ts → contains t ts ≡ true
unfolding contains
contains-of_mem t [] m = elim m [ ]
contains-of_mem t (x ∷ xs) m = elim (Memᴰ.cases_cons m) [
  | inl e ↦ ground (arith, (eq_iff x t).1 (sym e))
  | inr m' ↦ ground (arith, contains-of_mem t xs m')
]

pub mem-of_contains : (t : String) (ts : List String) → contains t ts ≡ true → Memᴰ t ts
unfolding contains
mem-of_contains t [] h = absurd (cc h)
mem-of_contains t (x ∷ xs) h = elim (Bool-cases (str_eq x t)) [
  | inl e ↦ Memᴰ.head (sym ((eq_iff x t).0 e))
  | inr e ↦ Memᴰ.tail (mem-of_contains t xs (ground arith))
]

pub contains-absent : (t : String) (ts : List String) → All (λ y. t ≢ y) ts → contains t ts ≡ false
unfolding contains
contains-absent t [] h = refl
contains-absent t (x ∷ xs) h = elim (Bool-cases (str_eq x t)) [
  | inl e ↦ absurd (h.0 (sym ((eq_iff x t).0 e)))
  | inr e ↦ ground (arith, contains-absent t xs h.1)
]

contains-unique_by :
    (t : String) (ts : List String) → contains t (unique_by same_term ts) ≡ contains t ts
contains-unique_by t ts = elim (Bool-cases (contains t ts)) [
  | inl e ↦
      let (a, m, q) = unique_by-covers same_term ts t (mem-of_contains t ts e) in
      contains-of_mem t _ (rw q at m) ∙ sym e
  | inr e ↦ elim (Bool-cases (contains t (unique_by same_term ts))) [
    | inl q ↦
        absurd (cc (e, contains-of_mem t ts (unique_by-mem same_term ts t (mem-of_contains t _ q))))
    | inr q ↦ q ∙ sym e
  ]
]

pub lookup_or-insert_key :
    (k t : String) (v : ℕ) (m : Dict ℕ)
    → lookup_or 0 t (insert_key k v m) ≡ (if str_eq k t then v else lookup_or 0 t m)
unfolding lookup_or
lookup_or-insert_key k t v m = ground (arith, lookup-insert_key k t v m)

-- A document's terms, each of them once, are counted once each.
lookup_or-add_terms :
    (t : String) (ts : List String) (counts : Dict ℕ)
    → HasUniqueKeys same_term ts
    → lookup_or 0 t (add_terms ts counts) ≡ (if contains t ts then 1 else 0) + lookup_or 0 t counts
unfolding add_terms contains
lookup_or-add_terms t [] counts h = omega arith
lookup_or-add_terms t (x ∷ xs) counts h = elim (Bool-cases (str_eq x t)) [
  | inl e ↦ ground (
    arith,
    (eq_iff x t).0 e,
    contains-absent x xs h.0,
    lookup_or-insert_key x t (suc (lookup_or 0 x counts)) counts,
    lookup_or-add_terms t xs (insert_key x (suc (lookup_or 0 x counts)) counts) h.1,
  )
  | inr e ↦ ground (
    arith,
    lookup_or-insert_key x t (suc (lookup_or 0 x counts)) counts,
    lookup_or-add_terms t xs (insert_key x (suc (lookup_or 0 x counts)) counts) h.1,
  )
]

pub lookup_or-document_frequency :
    (t : String) (docs : List (List String)) (counts : Dict ℕ)
    → lookup_or 0 t (document_frequency docs counts)
      ≡ count (contains t) docs + lookup_or 0 t counts
unfolding document_frequency
lookup_or-document_frequency t [] counts = omega arith
lookup_or-document_frequency t (d ∷ ds) counts =
    let once = unique_by same_term d in
    ground (
      arith,
      contains-unique_by t d,
      lookup_or-add_terms t once counts (unique_by-HasUniqueKeys same_term d),
      lookup_or-document_frequency t ds (add_terms once counts),
    )

abbrev pub keys : Dict ℕ → List String
keys m = map (λ e. e.0) m

contains-insert_key :
    (t k : String) (v : ℕ) (m : Dict ℕ)
    → contains t (keys (insert_key k v m)) ≡ (str_eq k t || contains t (keys m))
unfolding contains insert_key
contains-insert_key t k v [] = refl
contains-insert_key t k v ((j, w) ∷ m) =
    ground (arith, eq_iff j k, eq_iff j t, eq_iff k t, contains-insert_key t k v m)

contains-add_terms :
    (t : String) (ts : List String) (m : Dict ℕ)
    → contains t (keys (add_terms ts m)) ≡ (contains t ts || contains t (keys m))
unfolding contains add_terms
contains-add_terms t [] m = refl
contains-add_terms t (x ∷ xs) m = ground (
  arith,
  contains-insert_key t x (suc (lookup_or 0 x m)) m,
  contains-add_terms t xs (insert_key x (suc (lookup_or 0 x m)) m),
)

pub contains-document_frequency :
    (t : String) (docs : List (List String)) (m : Dict ℕ)
    → contains t (keys (document_frequency docs m))
      ≡ (ltb 0 (count (contains t) docs) || contains t (keys m))
unfolding document_frequency
contains-document_frequency t [] m = refl
contains-document_frequency t (d ∷ ds) m =
    let once = unique_by same_term d in
    ground (
      arith,
      contains-unique_by t d,
      contains-add_terms t once m,
      contains-document_frequency t ds (add_terms once m),
    )

insert_key-HasUniqueKeys :
    (k : String) (v : ℕ) (m : Dict ℕ)
    → HasUniqueKeys (λ e. e.0) m
    → HasUniqueKeys (λ e. e.0) (insert_key k v m)
unfolding insert_key
insert_key-HasUniqueKeys k v [] h = (tt, tt)
insert_key-HasUniqueKeys k v ((j, w) ∷ m) h = elim (Bool-cases (str_eq j k)) [
  | inl e ↦ rw (e, insert_key) (rw (sym ((eq_iff j k).0 e)) h)
  | inr e ↦
      rw (e, insert_key)
        (
          All-insert_key (λ x. j ≢ x.0) k v m h.0 (λ q. cc (e, (eq_iff j k).1 q)),
          insert_key-HasUniqueKeys k v m h.1,
        )
]

add_terms-HasUniqueKeys :
    (ts : List String) (m : Dict ℕ)
    → HasUniqueKeys (λ e. e.0) m
    → HasUniqueKeys (λ e. e.0) (add_terms ts m)
unfolding add_terms
add_terms-HasUniqueKeys [] m h = h
add_terms-HasUniqueKeys (x ∷ xs) m h =
    add_terms-HasUniqueKeys xs _ (insert_key-HasUniqueKeys x (suc (lookup_or 0 x m)) m h)

pub document_frequency-HasUniqueKeys :
    (docs : List (List String)) (m : Dict ℕ)
    → HasUniqueKeys (λ e. e.0) m
    → HasUniqueKeys (λ e. e.0) (document_frequency docs m)
unfolding document_frequency
document_frequency-HasUniqueKeys [] m h = h
document_frequency-HasUniqueKeys (d ∷ ds) m h =
    document_frequency-HasUniqueKeys ds _ (add_terms-HasUniqueKeys (unique_by same_term d) m h)

All-keys : (k : String) (m : Dict ℕ) → All (λ e. k ≢ e.0) m → All (λ t. k ≢ t) (keys m)
All-keys k [] h = tt
All-keys k (e ∷ m) h = (h.0, All-keys k m h.1)

pub keys-HasUniqueKeys :
    (m : Dict ℕ) → HasUniqueKeys (λ e. e.0) m → HasUniqueKeys same_term (keys m)
keys-HasUniqueKeys [] h = tt
keys-HasUniqueKeys ((k, v) ∷ m) h = (All-keys k m h.0, keys-HasUniqueKeys m h.1)

contains-perm : (t : String) {xs ys : List String} → Permᴰ xs ys → contains t xs ≡ contains t ys
unfolding contains
contains-perm t Permᴰ.nil = refl
contains-perm t {ys = b ∷ ys} (Permᴰ.cons e d) =
    rw e (ap (λ r. str_eq b t || r) (contains-perm t d))
contains-perm t (Permᴰ.swap e₁ e₂) = rw e₁ (rw e₂ (ground arith))
contains-perm t (Permᴰ.trans d₁ d₂) = contains-perm t d₁ ∙ contains-perm t d₂

-- The terms are those that a document has.
pub contains-terms :
    (t : String) (docs : List (List String))
    → contains t (sorted_terms (document_frequency docs [])) ≡ ltb 0 (count (contains t) docs)
unfolding sorted_terms contains
contains-terms t docs =
    contains-perm t (sort_stable-permᴰ str_lt (keys (document_frequency docs [])))
    ∙ contains-document_frequency t docs []
    ∙ ground arith

-- Each of them is there once.
pub terms-HasUniqueKeys :
    (docs : List (List String))
    → HasUniqueKeys same_term (sorted_terms (document_frequency docs []))
unfolding sorted_terms
terms-HasUniqueKeys docs =
    let counts = document_frequency docs [] in
    HasUniqueKeys-perm same_term (Permᴰ.symm (sort_stable-permᴰ str_lt (keys counts)))
      (keys-HasUniqueKeys counts (document_frequency-HasUniqueKeys docs [] tt))

pub count-of_mem :
    (t : String) (docs : List (List String)) (d : List String)
    → Memᴰ d docs
    → contains t d ≡ true
    → ltb 0 (count (contains t) docs) ≡ true
count-of_mem t [] d m h = elim m [ ]
count-of_mem t (x ∷ xs) d m h = elim (Memᴰ.cases_cons m) [
  | inl e ↦ ground (arith, ap (contains t) (sym e) ∙ h)
  | inr m' ↦ ground (arith, count-of_mem t xs d m' h)
]
