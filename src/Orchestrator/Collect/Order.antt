-- ===== src/Orchestrator/Collect/Order.antt =====
-- The result of the fan-out does not depend on the order in which the goroutines finish.
use mathlib.Core.List.{Permᴰ, Memᴰ}
use mathlib.Core.List.Permᴰ
use mathlib.Core.List.Memᴰ
use brand_pulse.Prelude.{
  ℕ, ◌+◌, ◌≡◌, refl, sym, ap, ◌∙◌, false, String, List, [], length, ltb, str_lt, str_lt-IsWeakOrder,
  str_lt-connex, sort_stable, sort_stable-eq_of_permᴰ, IsWeakOrder, ByFirst-IsWeakOrder, All-of_mem,
  concat_map, concat_map-perm, concat_map-mem, sum_map-perm, arith,
}
use brand_pulse.Models.Labels.{Source}
use brand_pulse.Models.Brand.{BrandProfile}
use brand_pulse.Models.Mention.{Mention}
use brand_pulse.Models.Wire.{CollectInput, MentionBatch}
use brand_pulse.Orchestrator.Env.{Reply, ok, err, SourceRun, Env, Window, Progress}
use brand_pulse.Orchestrator.Collect.{
  Collected, mention_before, source_run_before, collect, collect_input,
}
use brand_pulse.Orchestrator.Collect.Contributions.{
  mentions_of, runs_of, failed_of, errors_of, credits_of, IsSteady, collect_each-extends,
}

module _ {R : Type 0} where
  mention_before-IsWeakOrder : IsWeakOrder (mention_before {R = R})
  unfolding mention_before
  mention_before-IsWeakOrder =
      ByFirst-IsWeakOrder {first = λ a b. ltb a.posted_at b.posted_at}
        {second = λ a b. str_lt a.id b.id}
        (record {
          before = λ a b. ground arith;
          after = λ a b. ground arith;
          level = λ a b. ground arith;
        })
        (record { asym = λ a b. ground arith; neg_trans = λ a b c. ground arith })
        (record {
          asym = λ a b. str_lt-IsWeakOrder.asym a.id b.id;
          neg_trans = λ a b c. str_lt-IsWeakOrder.neg_trans a.id b.id c.id;
        })

  mention_before-level :
      (a b : Mention R)
      → mention_before a b ≡ false
      → mention_before b a ≡ false
      → (a.posted_at ≡ b.posted_at) × (a.id ≡ b.id)
  unfolding mention_before
  mention_before-level a b h k = ground (arith, str_lt-connex a.id b.id)

run-mem :
    {R : Type 0} (s : Source) (r : Reply (MentionBatch R)) (a : SourceRun)
    → Memᴰ a (runs_of s r)
    → (batch : MentionBatch R) × (r ≡ ok batch)
      × (a ≡ record { source = s; mentions = length batch.mentions; credits = batch.credits_used })
run-mem s (err e) a m = elim m [ ]
run-mem s (ok batch) a m = (batch, refl, Memᴰ.eq_of_singleton m)

source_run_before-IsWeakOrder : IsWeakOrder source_run_before
unfolding source_run_before
source_run_before-IsWeakOrder = record {
  asym = λ a b. str_lt-IsWeakOrder.asym a.source b.source;
  neg_trans = λ a b c. str_lt-IsWeakOrder.neg_trans a.source b.source c.source;
}

source_run_before-level :
    (a b : SourceRun)
    → source_run_before a b ≡ false
    → source_run_before b a ≡ false
    → a.source ≡ b.source
unfolding source_run_before
source_run_before-level a b h k = str_lt-connex a.source b.source h k

module _ {R : Type 0} (answers : Source → Reply (MentionBatch R)) where
  -- Two of the collected mentions that were posted at one time under one id are one mention.
  abbrev pub AreIdentified : List Source → Type 0
  AreIdentified sources =
      (a b : Mention R)
      → Memᴰ a (concat_map (λ s. mentions_of (answers s)) sources)
      → Memᴰ b (concat_map (λ s. mentions_of (answers s)) sources)
      → a.posted_at ≡ b.posted_at
      → a.id ≡ b.id
      → a ≡ b

  mentions_order_free :
      {o o' : List Source}
      → AreIdentified o
      → Permᴰ o o'
      → sort_stable mention_before (concat_map (λ s. mentions_of (answers s)) o)
        ≡ sort_stable mention_before (concat_map (λ s. mentions_of (answers s)) o')
  mentions_order_free {o} one d =
      sort_stable-eq_of_permᴰ mention_before mention_before-IsWeakOrder
        (λ a. Memᴰ a (concat_map (λ s. mentions_of (answers s)) o))
        (λ a b i j h k. let (t, e) = mention_before-level a b h k in one a b i j t e)
        (All-of_mem (λ a. Memᴰ a (concat_map (λ s. mentions_of (answers s)) o))
          (concat_map (λ s. mentions_of (answers s)) o) (λ a m. m))
        (concat_map-perm (λ s. mentions_of (answers s)) d)

  run-eq :
      (s s' : Source) (a b : SourceRun)
      → Memᴰ a (runs_of s (answers s))
      → Memᴰ b (runs_of s' (answers s'))
      → a.source ≡ b.source
      → a ≡ b
  run-eq s s' a b i j e =
      let (batch, ra, ea) = run-mem s (answers s) a i in
      let (batch', rb, eb) = run-mem s' (answers s') b j in
      let same : s ≡ s' =
        sym (ap (λ (r : SourceRun). r.source) ea) ∙ e ∙ ap (λ (r : SourceRun). r.source) eb in
      cc (same, ap answers same)

  runs_order_free :
      {o o' : List Source}
      → Permᴰ o o'
      → sort_stable source_run_before (concat_map (λ s. runs_of s (answers s)) o)
        ≡ sort_stable source_run_before (concat_map (λ s. runs_of s (answers s)) o')
  runs_order_free {o} d =
      sort_stable-eq_of_permᴰ source_run_before source_run_before-IsWeakOrder
        (λ a. Memᴰ a (concat_map (λ s. runs_of s (answers s)) o))
        (λ a b i j h k.
          let (s, _, m) = concat_map-mem (λ s. runs_of s (answers s)) o a i in
          let (s', _, m') = concat_map-mem (λ s. runs_of s (answers s)) o b j in
          run-eq s s' a b m m' (source_run_before-level a b h k))
        (All-of_mem (λ a. Memᴰ a (concat_map (λ s. runs_of s (answers s)) o))
          (concat_map (λ s. runs_of s (answers s)) o) (λ a m. m))
        (concat_map-perm (λ s. runs_of s (answers s)) d)

-- runLog.all
unfoldable pub sorted_log : List String → List String
sorted_log log = sort_stable str_lt log

sorted_log_order_free : {xs ys : List String} → Permᴰ xs ys → sorted_log xs ≡ sorted_log ys
unfolding sorted_log
sorted_log_order_free {xs} d =
    sort_stable-eq_of_permᴰ str_lt str_lt-IsWeakOrder (λ _. Unit {0})
      (λ a b _ _ h k. str_lt-connex a b h k) (All-of_mem (λ _. Unit {0}) xs (λ a m. tt)) d

-- Where the collectors answer from their input alone and no two collected mentions share a time
-- and an id, every order in which the goroutines finish gives the same mentions in the same order,
-- the same yields, the same count of dead sources, the same credits and the same sorted log.
pub collect_order_free :
    {R W : Type 0} (env : Env R W) (answer : CollectInput → Reply (MentionBatch R))
    (profile : BrandProfile) (w : Window) (run_id : String) (ceiling : ℕ) (p : Progress R W)
    {o o' : List Source}
    → IsSteady env answer
    → AreIdentified (λ s. answer (collect_input env profile w run_id ceiling s)) o
    → Permᴰ o o'
    → let (r, q) = collect env profile o w run_id ceiling p in
      let (r', q') = collect env profile o' w run_id ceiling p in
      (r.0 ≡ r'.0)
      × (r.1 ≡ r'.1)
      × (r.2 ≡ r'.2)
      × (q.credits ≡ q'.credits)
      × (sorted_log q.log ≡ sorted_log q'.log)
unfolding collect
collect_order_free {R} env answer profile w run_id ceiling p {o} {o'} steady one d =
    let input = collect_input env profile w run_id ceiling in
    let results = λ (s : Source). answer (input s) in
    let start : Collected R = record {
      mentions = [];
      per_source = [];
      failed = 0;
      errors = p.log;
      credits = p.credits;
    } in
    let e = collect_each-extends env answer input ceiling steady o start p.world in
    let e' = collect_each-extends env answer input ceiling steady o' start p.world in
    (
      ap (λ (c : Collected R). sort_stable mention_before c.mentions) e
          ∙ mentions_order_free results one d
          ∙ sym (ap (λ (c : Collected R). sort_stable mention_before c.mentions) e'),
      ap (λ (c : Collected R). sort_stable source_run_before c.per_source) e
          ∙ runs_order_free results d
          ∙ sym (ap (λ (c : Collected R). sort_stable source_run_before c.per_source) e'),
      ap (λ (c : Collected R). c.failed) e
          ∙ ap (λ (n : ℕ). 0 + n) (sum_map-perm (λ s. failed_of (results s)) d)
          ∙ sym (ap (λ (c : Collected R). c.failed) e'),
      ap (λ (c : Collected R). c.credits) e
          ∙ ap (λ (n : ℕ). p.credits + n) (sum_map-perm (λ s. credits_of (results s)) d)
          ∙ sym (ap (λ (c : Collected R). c.credits) e'),
      ap (λ (c : Collected R). sorted_log c.errors) e
          ∙ sorted_log_order_free
              (Permᴰ.append_left p.log (concat_map-perm (λ s. errors_of s ceiling (results s)) d))
          ∙ sym (ap (λ (c : Collected R). sorted_log c.errors) e'),
    )
