-- ===== src/Tests/Clusters.antt =====
-- The clustering of three rows, of which two are the same.
use brand_pulse.Prelude.{
  sort_stable, ◌≡◌, refl, List, [], ◌∷◌, length, ltb, thousandths, Thousandths, arith,
}
use brand_pulse.Cluster.Sparse.{entries, sparse_dot, dense_dot}
use brand_pulse.Cluster.Sparse.Dense.{IsNeutral, sparse_dot-eq-dense_dot}
use brand_pulse.Cluster.Agglomerative.{agglomerative, merge_all, singletons}
use brand_pulse.Cluster.Agglomerative.Pairs.{one_if}
use brand_pulse.Cluster.Agglomerative.Stops.{IsSettled, merge_all_settles}
use brand_pulse.Cluster.Agglomerative.Rows.{occurrences_in, agglomerative_covers}

abbrev rows : List (List Thousandths)
rows = (1000 ∷ 0 ∷ []) ∷ (0 ∷ 1000 ∷ []) ∷ (1000 ∷ 0 ∷ []) ∷ []

agglomerative_covers_example :
    occurrences_in 2 (agglomerative rows 500 1) ≡ one_if (ltb 2 (length rows))
agglomerative_covers_example = agglomerative_covers rows 500 1 2 (omega arith)

merge_all_settles_example : IsSettled 3 500 (merge_all 3 3 500 (singletons rows))
merge_all_settles_example = merge_all_settles 3 500 (singletons rows)

thousandths-IsNeutral : IsNeutral thousandths
thousandths-IsNeutral = record {
  left = λ acc v w h. ground arith;
  right = λ acc v w h. ground arith;
}

abbrev left_row : List Thousandths
left_row = 1000 ∷ 0 ∷ []

abbrev right_row : List Thousandths
right_row = 500 ∷ 7 ∷ []

abbrev inner : Thousandths
inner = sparse_dot (entries 0 left_row) (entries 0 right_row)

sparse_dot-eq-dense_dot_example : inner ≡ dense_dot 0 left_row right_row
sparse_dot-eq-dense_dot_example =
    sparse_dot-eq-dense_dot left_row right_row thousandths-IsNeutral refl

-- the two equal rows are one cluster
two_clusters : agglomerative rows 500 1 ≡ (0 ∷ 2 ∷ []) ∷ (1 ∷ []) ∷ []
unfolding agglomerative sort_stable
two_clusters = refl
