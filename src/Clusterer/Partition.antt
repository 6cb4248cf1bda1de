-- ===== src/Clusterer/Partition.antt =====
-- What the marking of a cluster's members leaves of the unclustered.
use brand_pulse.Prelude.{
  ℕ, zero, suc, ◌+◌, ◌<◌, ◌≤◌, ◌≡◌, refl, sym, ap, ◌∙◌, Bool, false, String, List, [], ◌∷◌, none,
  some, map, length, get_elem?, count, ltb, sum_map, arith,
}
use brand_pulse.Models.Mention.{EnrichedMention}
use brand_pulse.Models.Topic.{Topic}
use brand_pulse.Cluster.Agglomerative.Pairs.{one_if}
use brand_pulse.Cluster.Agglomerative.Rows.{occurrences, occurrences_in}
use brand_pulse.Clusterer.{mark, mark_all, unclustered_from}
use brand_pulse.Clusterer.Topics.{members_of}

module _ {R : Type 0} (p : String → Bool) where
  abbrev pub left_out : (ℕ → Bool) → ℕ → List (EnrichedMention R) → ℕ
  left_out grouped k ms = count p (unclustered_from k ms grouped)

  mark-below :
      (i k : ℕ) (ms : List (EnrichedMention R)) (grouped : ℕ → Bool)
      → i < k
      → left_out (mark i grouped) k ms ≡ left_out grouped k ms
  unfolding unclustered_from mark
  mark-below i k [] grouped h = refl
  mark-below i k (m ∷ ms) grouped h = ground (arith, mark-below i (suc k) ms grouped)

  mark-one :
      (i j k : ℕ) (ms : List (EnrichedMention R)) (grouped : ℕ → Bool) (m : EnrichedMention R)
      → get_elem? ms i ≡ some m
      → j ≡ k + i
      → grouped j ≡ false
      → left_out (mark j grouped) k ms + one_if (p m.mention.id) ≡ left_out grouped k ms
  unfolding unclustered_from get_elem? mark
  mark-one i j k [] grouped m h e g = absurd (cc h)
  mark-one zero j k (x ∷ xs) grouped m h e g =
      let same_id : p x.mention.id ≡ p m.mention.id =
        ap (λ o. elim o [ none ↦ p x.mention.id | some y ↦ p y.mention.id ]) h in
      let at : j ≡ k = omega arith in
      let here : grouped k ≡ false = ap grouped (sym at) ∙ g in
      ground (arith, mark-below j (suc k) xs grouped)
  mark-one (suc i) j k (x ∷ xs) grouped m h e g =
      ground (arith, mark-one i j (suc k) xs grouped m h)

get_elem?-found :
    {R : Type 0} (xs : List (EnrichedMention R)) (i : ℕ)
    → i < length xs
    → (m : EnrichedMention R) × (get_elem? xs i ≡ some m)
unfolding get_elem?
get_elem?-found [] i h = absurd (omega arith)
get_elem?-found (x ∷ xs) zero h = (x, refl)
get_elem?-found (x ∷ xs) (suc i) h = get_elem?-found xs i (omega arith)

-- A mention that is marked stands in no cluster to come, none stands in two of them or twice in
-- one, and none stands past the last mention.
abbrev pub IsFresh : ℕ → (ℕ → Bool) → List ℕ → List (List ℕ) → Type 0
IsFresh n grouped group rest =
    (r : ℕ) → one_if (grouped r) + (occurrences r group + occurrences_in r rest) ≤ one_if (ltb r n)

IsFresh-mark :
    (n : ℕ) (grouped : ℕ → Bool) (i : ℕ) (group : List ℕ) (rest : List (List ℕ))
    → IsFresh n grouped (i ∷ group) rest
    → IsFresh n (mark i grouped) group rest
unfolding occurrences sum_map mark
IsFresh-mark n grouped i group rest h = λ r. let hr = h r in ground arith

IsFresh-head :
    (n : ℕ) (grouped : ℕ → Bool) (i : ℕ) (group : List ℕ) (rest : List (List ℕ))
    → IsFresh n grouped (i ∷ group) rest
    → (grouped i ≡ false) × (i < n)
unfolding occurrences sum_map
IsFresh-head n grouped i group rest h = let hi = h i in (ground arith, ground arith)

module _ {R : Type 0} (p : String → Bool) where
  abbrev pub ids_in : List (EnrichedMention R) → ℕ
  ids_in ms = count (λ m. p m.mention.id) ms

  pub mark_all-accounts :
      (xs : List (EnrichedMention R)) (group : List ℕ) (rest : List (List ℕ)) (grouped : ℕ → Bool)
      → IsFresh (length xs) grouped group rest
      → (left_out p (mark_all group grouped) 0 xs + ids_in (members_of xs group)
          ≡ left_out p grouped 0 xs)
        × IsFresh (length xs) (mark_all group grouped) [] rest
  unfolding mark_all members_of
  mark_all-accounts xs [] rest grouped h = (omega arith, h)
  mark_all-accounts xs (i ∷ group) rest grouped h =
      let (unmarked, below) = IsFresh-head (length xs) grouped i group rest h in
      let (m, found) = get_elem?-found xs i below in
      let (e, fresh) =
        mark_all-accounts xs group rest (mark i grouped)
          (IsFresh-mark (length xs) grouped i group rest h) in
      let one = mark-one p i i 0 xs grouped m found (omega arith) unmarked in
      (rw (found, members_of) ground arith, fresh)

  pub count-map_ids :
      (ms : List (EnrichedMention R)) → count p (map (λ m. m.mention.id) ms) ≡ ids_in ms
  count-map_ids [] = refl
  count-map_ids (m ∷ ms) = ground (arith, count-map_ids ms)

  abbrev pub in_topics : List (Topic R) → ℕ
  in_topics topics = sum_map (λ t. count p t.mention_ids) topics

pub IsFresh-skip :
    (n : ℕ) (grouped : ℕ → Bool) (group : List ℕ) (rest : List (List ℕ))
    → IsFresh n grouped group rest
    → IsFresh n grouped [] rest
unfolding occurrences sum_map
IsFresh-skip n grouped group rest h = λ r. let hr = h r in omega arith
