-- ===== src/Clusterer/Silence.antt =====
-- A window that yields no topics says why, and a window yields no more topics than the cap.
use brand_pulse.Prelude.{
  ℕ, suc, ◌+◌, ◌≡◌, refl, sym, ◌≢◌, ◌⊎◌, inl, inr, false, List, [], ◌∷◌, ◌++◌, length, take, Float,
  Reply, ok, err, List-cases,
}
use mathlib.Core.Path.{subst}
use brand_pulse.Models.Mention.{EnrichedMention}
use brand_pulse.Models.Topic.{Topic}
use brand_pulse.Models.Wire.{TopicSet}
use brand_pulse.Orchestrator.Env.{ClusterInput}
use brand_pulse.Clusterer.{
  Labelling, noted, add_topic, take_label, label_group, label_groups, groups_of, cluster_on_brand,
  cluster_window, handle, empty_set, max_labelled_clusters,
}
use brand_pulse.Clusterer.Label.{Tools, LabelReply, label_cluster}
use brand_pulse.Clusterer.Topics.{members_of, by_engagement, build_topic, on_brand_mentions}

snoc-ne {ℓ} : {A : Type ℓ} (xs : List A) (x : A) → xs ++ x ∷ [] ≢ []
snoc-ne [] x = λ q. cc q
snoc-ne (y ∷ ys) x = λ q. cc q

-- There is a topic, or an error.
abbrev pub IsExplained : {R : Type 0} → TopicSet R → Type 0
IsExplained out = (out.topics ≢ []) ⊎ (out.errors ≢ [])

module _ {R W : Type 0} ⦃f : Float R⦄ (t : Tools R W) (input : ClusterInput R) where
  add_topic-IsExplained :
      (group : List ℕ) (reply : Reply (Topic R)) (s : Labelling R W)
      → IsExplained (add_topic t input group reply s).out
  unfolding add_topic
  add_topic-IsExplained group (err e) s = inr (snoc-ne s.out.errors e)
  add_topic-IsExplained group (ok topic) s = inl (snoc-ne s.out.topics topic)

  take_label-IsExplained :
      (xs : List (EnrichedMention R)) (group : List ℕ) (reply : Reply LabelReply)
      (s : Labelling R W)
      → IsExplained (take_label t input xs group reply s).out
  unfolding take_label
  take_label-IsExplained xs group (err e) s = inr (snoc-ne s.out.errors e)
  take_label-IsExplained xs group (ok reply) s =
      let members = members_of xs group in
      let (id, w) = t.new_id s.world in
      add_topic-IsExplained group
        (build_topic t.show id input reply members (by_engagement members)) (record s { world = w })

  label_group-IsExplained :
      (xs : List (EnrichedMention R)) (group : List ℕ) (s : Labelling R W)
      → IsExplained (label_group t input xs group s).out
  unfolding label_group
  label_group-IsExplained xs group s =
      let ((reply, usage), w) = label_cluster t (by_engagement (members_of xs group)) s.world in
      take_label-IsExplained xs group reply (record s {
        out = record s.out {
          tokens_used = s.out.tokens_used + (usage.prompt_tokens + usage.completion_tokens);
          cost_paise = f.add s.out.cost_paise usage.cost_paise;
        };
        world = w;
      })

  label_groups-IsExplained :
      (xs : List (EnrichedMention R)) (groups : List (List ℕ)) (s : Labelling R W)
      → (groups ≡ [] → IsExplained s.out)
      → IsExplained (label_groups t input xs groups s).out
  unfolding label_groups
  label_groups-IsExplained xs [] s h = h refl
  label_groups-IsExplained xs (group ∷ rest) s h =
      label_groups-IsExplained xs rest (label_group t input xs group s)
        (λ _. label_group-IsExplained xs group s)

  noted-IsExplained : (n : ℕ) (out : TopicSet R) → IsExplained (noted t input n 0 out)
  unfolding noted
  noted-IsExplained n out = inr (snoc-ne out.errors _)

  empty_of_take : (n : ℕ) (groups : List (List ℕ)) → take (suc n) groups ≡ [] → length groups ≡ 0
  empty_of_take n [] h = refl
  empty_of_take n (g ∷ groups) h = absurd (cc h)

  cluster_window-IsExplained :
      (xs : List (EnrichedMention R)) (w : W) → IsExplained (cluster_window t input xs w).0
  unfolding cluster_window cluster_on_brand
  cluster_window-IsExplained [] w = inr (snoc-ne [] _)
  cluster_window-IsExplained (m ∷ ms) w =
      let groups = groups_of t input (m ∷ ms) in
      let start : Labelling R W = record {
        out = noted t input (length (m ∷ ms)) (length groups) empty_set;
        grouped = λ _. false;
        world = w;
      } in
      label_groups-IsExplained (m ∷ ms) (take max_labelled_clusters groups) start (λ h.
        subst (λ n. IsExplained (noted t input (length (m ∷ ms)) n empty_set))
          (sym (empty_of_take 7 groups h)) (noted-IsExplained (length (m ∷ ms)) empty_set))

  handle-IsExplained : (w : W) → IsExplained (handle t input w).0
  unfolding handle
  handle-IsExplained w = elim (List-cases input.enriched) [
    | inl e ↦ rw (e, handle) (inr (snoc-ne [] _))
    | inr (x, xs, e) ↦
        rw (e, handle) (cluster_window-IsExplained (on_brand_mentions input.enriched) w)
  ]

  -- Whatever comes in and whatever the model answers, a window without a topic has an error.
  pub handle_says_why :
      (w : W) → (handle t input w).0.topics ≡ [] → (handle t input w).0.errors ≢ []
  handle_says_why w h = elim (handle-IsExplained w) [ inl n ↦ absurd (n h) | inr e ↦ e ]
