-- ===== src/Clusterer/Accounts.antt =====
-- Each mention that is about the brand ends in one topic, or among the unclustered.
use brand_pulse.Prelude.{
  ℕ, zero, suc, ◌+◌, ◌≤◌, ◌≡◌, refl, sym, ap, ◌∙◌, inl, inr, Bool, false, String, List, [], ◌∷◌,
  map, length, length-map, take, count, ltb, sum_map, sum_map-append, Float, Reply, ok, err,
  List-cases, Option-cases, arith,
}
use brand_pulse.Models.Mention.{EnrichedMention}
use brand_pulse.Models.Topic.{Topic, validate_topic}
use brand_pulse.Models.Wire.{TopicSet}
use brand_pulse.Orchestrator.Env.{ClusterInput}
use brand_pulse.Cluster.Agglomerative.Pairs.{one_if}
use brand_pulse.Cluster.Agglomerative.Rows.{occurrences, occurrences_in, agglomerative_disjoint}
use brand_pulse.Cluster.Tfidf.{tfidf}
use brand_pulse.Cluster.Tfidf.Shape.{length-tfidf_rows}
use brand_pulse.Clusterer.{
  noted, unclustered_from, Labelling, add_topic, take_label, label_group, label_groups, groups_of,
  cluster_on_brand, cluster_window, handle, empty_set, max_labelled_clusters,
}
use brand_pulse.Clusterer.Label.{Tools, LabelReply, label_cluster}
use brand_pulse.Clusterer.Topics.{
  min_cluster_size, members_of, by_engagement, build_topic, assemble, on_brand_mentions,
}
use brand_pulse.Clusterer.Partition.{
  left_out, ids_in, in_topics, IsFresh, IsFresh-skip, mark_all-accounts, count-map_ids,
}

module _ {R W : Type 0} ⦃f : Float R⦄ (t : Tools R W) (input : ClusterInput R)
    (p : String → Bool) where
  build_topic-ids :
      (id : String) (reply : LabelReply) (members ranked : List (EnrichedMention R))
      (topic : Topic R)
      → build_topic t.show id input reply members ranked ≡ ok topic
      → count p topic.mention_ids ≡ ids_in p members
  unfolding build_topic assemble
  build_topic-ids id reply members ranked topic h =
      elim (Option-cases (validate_topic (assemble id input reply members ranked))) [
        | inl e ↦
            ap (λ r. elim r [ ok x ↦ count p x.mention_ids | err _ ↦ 0 ])
              (sym (rw (e, build_topic) at h))
            ∙ count-map_ids p members
        | inr (_, e) ↦ absurd (cc (rw (e, build_topic) at h))
      ]

  -- The loop keeps what topics and left-out mentions add up to, and the clusters to come fresh.
  pub record IsKept (xs : List (EnrichedMention R)) (rest : List (List ℕ)) (s s' : Labelling R W)
      : Type 0 where
    pub same_total :
        in_topics p s'.out.topics + left_out p s'.grouped 0 xs
        ≡ in_topics p s.out.topics + left_out p s.grouped 0 xs
    pub fresh : IsFresh (length xs) s'.grouped [] rest

  add_topic-IsKept :
      (xs : List (EnrichedMention R)) (group : List ℕ) (rest : List (List ℕ))
      (reply : Reply (Topic R)) (s : Labelling R W)
      → IsFresh (length xs) s.grouped group rest
      → ((topic : Topic R)
          → reply ≡ ok topic
          → count p topic.mention_ids ≡ ids_in p (members_of xs group))
      → IsKept xs rest s (add_topic t input group reply s)
  unfolding add_topic sum_map
  add_topic-IsKept xs group rest (err e) s h k = record {
    same_total = refl;
    fresh = IsFresh-skip (length xs) s.grouped group rest h;
  }
  add_topic-IsKept xs group rest (ok topic) s h k =
      let (accounts, fresh) = mark_all-accounts p xs group rest s.grouped h in
      record {
        same_total = omega (
          arith,
          k topic refl,
          accounts,
          sum_map-append (λ (x : Topic R). count p x.mention_ids) s.out.topics (topic ∷ []),
        );
        fresh = fresh;
      }

  take_label-IsKept :
      (xs : List (EnrichedMention R)) (group : List ℕ) (rest : List (List ℕ))
      (reply : Reply LabelReply) (s : Labelling R W)
      → IsFresh (length xs) s.grouped group rest
      → IsKept xs rest s (take_label t input xs group reply s)
  unfolding take_label
  take_label-IsKept xs group rest (err e) s h = record {
    same_total = refl;
    fresh = IsFresh-skip (length xs) s.grouped group rest h;
  }
  take_label-IsKept xs group rest (ok reply) s h =
      let members = members_of xs group in
      let ranked = by_engagement members in
      let (id, w) = t.new_id s.world in
      let kept =
        add_topic-IsKept xs group rest (build_topic t.show id input reply members ranked)
          (record s { world = w }) h (λ topic e. build_topic-ids id reply members ranked topic e) in
      record { same_total = kept.same_total; fresh = kept.fresh }

  label_group-IsKept :
      (xs : List (EnrichedMention R)) (group : List ℕ) (rest : List (List ℕ)) (s : Labelling R W)
      → IsFresh (length xs) s.grouped group rest
      → IsKept xs rest s (label_group t input xs group s)
  unfolding label_group
  label_group-IsKept xs group rest s h =
      let ((reply, usage), w) = label_cluster t (by_engagement (members_of xs group)) s.world in
      let counted = record s {
        out = record s.out {
          tokens_used = s.out.tokens_used + (usage.prompt_tokens + usage.completion_tokens);
          cost_paise = f.add s.out.cost_paise usage.cost_paise;
        };
        world = w;
      } in
      let kept = take_label-IsKept xs group rest reply counted h in
      record { same_total = kept.same_total; fresh = kept.fresh }

  label_groups-total :
      (xs : List (EnrichedMention R)) (groups : List (List ℕ)) (s : Labelling R W)
      → IsFresh (length xs) s.grouped [] groups
      → in_topics p (label_groups t input xs groups s).out.topics
          + left_out p (label_groups t input xs groups s).grouped 0 xs
        ≡ in_topics p s.out.topics + left_out p s.grouped 0 xs
  unfolding label_groups sum_map occurrences
  label_groups-total xs [] s h = refl
  label_groups-total xs (group ∷ rest) s h =
      let kept = label_group-IsKept xs group rest s (λ r. let hr = h r in omega arith) in
      label_groups-total xs rest (label_group t input xs group s) kept.fresh ∙ kept.same_total

  left_out-all :
      (k : ℕ) (xs : List (EnrichedMention R)) → left_out p (λ _. false) k xs ≡ ids_in p xs
  unfolding unclustered_from
  left_out-all k [] = refl
  left_out-all k (x ∷ xs) = ground (arith, left_out-all (suc k) xs)

  occurrences_in-take :
      (r n : ℕ) (groups : List (List ℕ))
      → occurrences_in r (take n groups) ≤ occurrences_in r groups
  unfolding sum_map
  occurrences_in-take r zero groups = omega arith
  occurrences_in-take r (suc n) [] = omega arith
  occurrences_in-take r (suc n) (g ∷ groups) = omega (arith, occurrences_in-take r n groups)

  groups_of-disjoint :
      (xs : List (EnrichedMention R)) (r : ℕ)
      → occurrences_in r (groups_of t input xs) ≤ one_if (ltb r (length xs))
  unfolding groups_of
  groups_of-disjoint xs r =
      let texts = map (λ (m : EnrichedMention R). m.mention.text) xs in
      let rows = (tfidf t.log t.sqrt t.lower t.is_word texts).rows in
      let size : length rows ≡ length xs =
        length-tfidf_rows t.log t.sqrt t.lower t.is_word texts
        ∙ length-map (λ m. m.mention.text) xs in
      omega (
        arith,
        agglomerative_disjoint rows (f.decimal 85 2) (min_cluster_size input.min_cluster_size) r,
        ap (λ n. one_if (ltb r n)) size,
      )

  noted-topics : (a b : ℕ) (out : TopicSet R) → (noted t input a b out).topics ≡ out.topics
  unfolding noted
  noted-topics a b out = ground arith

  cluster_on_brand-accounts :
      (xs : List (EnrichedMention R)) (w : W)
      → in_topics p (cluster_on_brand t input xs w).0.topics
          + count p (cluster_on_brand t input xs w).0.unclustered
        ≡ ids_in p xs
  unfolding cluster_on_brand occurrences
  cluster_on_brand-accounts xs w =
      let groups = groups_of t input xs in
      let start : Labelling R W = record {
        out = noted t input (length xs) (length groups) empty_set;
        grouped = λ _. false;
        world = w;
      } in
      omega (
        arith,
        label_groups-total xs (take max_labelled_clusters groups) start (λ r.
            omega
              (arith, occurrences_in-take r max_labelled_clusters groups, groups_of-disjoint xs r)),
        ap (in_topics p) (noted-topics (length xs) (length groups) empty_set),
        left_out-all 0 xs,
      )

  cluster_window-accounts :
      (xs : List (EnrichedMention R)) (w : W)
      → in_topics p (cluster_window t input xs w).0.topics
          + count p (cluster_window t input xs w).0.unclustered
        ≡ ids_in p xs
  unfolding cluster_window sum_map empty_set
  cluster_window-accounts [] w = omega arith
  cluster_window-accounts (m ∷ ms) w = cluster_on_brand-accounts (m ∷ ms) w

  -- Whatever the model answers, each mention that is about the brand is in one topic, or among the
  -- unclustered: under any set of ids as many are in the topics and the unclustered together as
  -- there are such mentions, and no other id is there.
  pub handle_accounts :
      (w : W)
      → sum_map (λ x. count p x.mention_ids) (handle t input w).0.topics
          + count p (handle t input w).0.unclustered
        ≡ count (λ m. p m.mention.id) (on_brand_mentions input.enriched)
  unfolding handle on_brand_mentions sum_map empty_set
  handle_accounts w = elim (List-cases input.enriched) [
    | inl e ↦ rw (e, handle, on_brand_mentions) omega arith
    | inr (x, xs, e) ↦
        rw (e, handle)
          (cluster_window-accounts (on_brand_mentions input.enriched) w
            ∙ ap (λ l. ids_in p (on_brand_mentions l)) e)
  ]
