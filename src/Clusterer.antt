-- ===== src/Clusterer.antt =====
-- agents/bp-clusterer/handler.go: the agent that groups the mentions of a window and names the
-- groups.
pub mod Label
pub mod Topics
pub mod Partition
pub mod Accounts
pub mod Silence
use brand_pulse.Prelude.{
  ℕ, zero, suc, ◌+◌, ◌-◌, ◌==◌, Bool, true, false, String, List, [], ◌∷◌, ◌++◌, map, length, take,
  ltb, itoa, ◌^^◌, Float, Reply, ok, err, if◌then◌else◌,
}
use brand_pulse.Models.Mention.{EnrichedMention}
use brand_pulse.Models.Topic.{Topic}
use brand_pulse.Models.Wire.{TopicSet}
use brand_pulse.Orchestrator.Env.{ClusterInput}
use brand_pulse.Cluster.Tfidf.{tfidf}
use brand_pulse.Cluster.Agglomerative.{agglomerative}
use brand_pulse.Llm.Usage.{Usage}
use brand_pulse.Clusterer.Label.{Tools, LabelReply, label_cluster}
use brand_pulse.Clusterer.Topics.{
  min_cluster_size, on_brand_mentions, members_of, by_engagement, build_topic,
}

abbrev pub max_labelled_clusters : ℕ
max_labelled_clusters = 8

-- grouped[index] = true
unfoldable pub mark : ℕ → (ℕ → Bool) → ℕ → Bool
mark index grouped k = if k == index then true else grouped k

unfoldable pub mark_all : List ℕ → (ℕ → Bool) → ℕ → Bool
unfolding mark
mark_all [] grouped = grouped
mark_all (index ∷ rest) grouped = mark_all rest (mark index grouped)

-- The ids of the mentions that are not grouped, the first of them at `k`.
unfoldable pub unclustered_from :
    {R : Type 0} → ℕ → List (EnrichedMention R) → (ℕ → Bool) → List String
unclustered_from k [] grouped = []
unclustered_from k (m ∷ ms) grouped =
    let rest = unclustered_from (suc k) ms grouped in
    if grouped k then rest else m.mention.id ∷ rest

unfoldable pub empty_set : {R : Type 0} ⦃f : Float R⦄ → TopicSet R
empty_set ⦃f⦄ = record {
  topics = [];
  unclustered = [];
  tokens_used = 0;
  cost_paise = f.of_ℕ 0;
  errors = [];
}

-- What the loop over the clusters has come to.
pub record Labelling (R W : Type 0) : Type 0 where
  pub out : TopicSet R
  pub grouped : ℕ → Bool
  pub world : W

unfoldable none_on_brand : ℕ → String
unfolding itoa
none_on_brand n =
    "no topics: the enricher judged all "
    ^^ itoa n
    ^^ " mentions in this window not about this brand, so nothing reached clustering; check the brand's keyword set"

unfoldable none_grouped : ℕ → ℕ → ℕ → String
unfolding itoa
none_grouped on_brand all min_size =
    "no topics: "
    ^^ itoa on_brand
    ^^ " of "
    ^^ itoa all
    ^^ " mentions were about this brand and none of them formed a group of at least "
    ^^ itoa min_size
    ^^ " at cosine distance 0.85"

unfoldable over_cap : ℕ → String
unfolding itoa
over_cap groups =
    "labelled "
    ^^ itoa max_labelled_clusters
    ^^ " of "
    ^^ itoa groups
    ^^ " clusters; the remaining "
    ^^ itoa (groups - max_labelled_clusters)
    ^^ " went to unclustered at the "
    ^^ itoa max_labelled_clusters
    ^^ "-cluster cap"

-- out.Errors = append(out.Errors, e)
abbrev with_error : {R : Type 0} → String → TopicSet R → TopicSet R
with_error e out = record out { errors = out.errors ++ e ∷ [] }

module _ {R W : Type 0} ⦃f : Float R⦄ (t : Tools R W) (input : ClusterInput R) where
  -- the end of a turn, once a reply has named the cluster
  unfoldable pub add_topic : List ℕ → Reply (Topic R) → Labelling R W → Labelling R W
  unfolding mark_all
  add_topic group (err e) s = record s { out = with_error e s.out }
  add_topic group (ok topic) s = record s {
    out = record s.out { topics = s.out.topics ++ topic ∷ [] };
    grouped = mark_all group s.grouped;
  }

  -- the part of a turn after labelCluster, whose usage is counted before its error is looked at
  unfoldable pub take_label :
      List (EnrichedMention R) → List ℕ → Reply LabelReply → Labelling R W → Labelling R W
  unfolding members_of by_engagement build_topic add_topic
  take_label on_brand group (err e) s = record s { out = with_error e s.out }
  take_label on_brand group (ok reply) s =
      let members = members_of on_brand group in
      let (id, w) = t.new_id s.world in
      add_topic group (build_topic t.show id input reply members (by_engagement members))
        (record s { world = w })

  -- a turn of the loop
  unfoldable pub label_group : List (EnrichedMention R) → List ℕ → Labelling R W → Labelling R W
  unfolding label_cluster take_label
  label_group on_brand group s =
      let ((reply, usage), w) =
        label_cluster t (by_engagement (members_of on_brand group)) s.world in
      take_label on_brand group reply (record s {
        out = record s.out {
          tokens_used = s.out.tokens_used + (usage.prompt_tokens + usage.completion_tokens);
          cost_paise = f.add s.out.cost_paise usage.cost_paise;
        };
        world = w;
      })

  unfoldable pub label_groups :
      List (EnrichedMention R) → List (List ℕ) → Labelling R W → Labelling R W
  unfolding label_group
  label_groups on_brand [] s = s
  label_groups on_brand (group ∷ rest) s = label_groups on_brand rest (label_group on_brand group s)

  -- cluster.Agglomerative over cluster.TFIDF
  unfoldable pub groups_of : List (EnrichedMention R) → List (List ℕ)
  unfolding tfidf agglomerative min_cluster_size
  groups_of on_brand =
      agglomerative (tfidf t.log t.sqrt t.lower t.is_word (map (λ m. m.mention.text) on_brand)).rows
        (f.decimal 85 2) (min_cluster_size input.min_cluster_size)

  -- what is said of the number of groups
  unfoldable pub noted : ℕ → ℕ → TopicSet R → TopicSet R
  unfolding none_grouped over_cap min_cluster_size
  noted on_brand groups out =
      let out' =
        if groups == 0
        then with_error
            (none_grouped on_brand (length input.enriched)
              (min_cluster_size input.min_cluster_size))
            out
        else out in
      if ltb max_labelled_clusters groups then with_error (over_cap groups) out' else out'

  -- Handle, for on-brand mentions that are not empty
  unfoldable pub cluster_on_brand : List (EnrichedMention R) → W → TopicSet R × W
  unfolding groups_of noted label_groups unclustered_from empty_set
  cluster_on_brand on_brand w =
      let groups = groups_of on_brand in
      let s = label_groups on_brand (take max_labelled_clusters groups) (record {
        out = noted (length on_brand) (length groups) empty_set;
        grouped = λ _. false;
        world = w;
      }) in
      (record s.out { unclustered = unclustered_from 0 on_brand s.grouped }, s.world)

  -- Handle, from the mentions that are about the brand
  unfoldable pub cluster_window : List (EnrichedMention R) → W → TopicSet R × W
  unfolding cluster_on_brand empty_set none_on_brand
  cluster_window [] w = (with_error (none_on_brand (length input.enriched)) empty_set, w)
  cluster_window (m ∷ ms) w = cluster_on_brand (m ∷ ms) w

  -- Handle
  unfoldable pub handle : W → TopicSet R × W
  unfolding on_brand_mentions cluster_window empty_set
  handle w = elim input.enriched [
    | [] ↦ (with_error "no topics: the window carried no enriched mentions" empty_set, w)
    | _ ∷ _ ↦ cluster_window (on_brand_mentions input.enriched) w
  ]
