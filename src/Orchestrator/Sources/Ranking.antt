-- ===== src/Orchestrator/Sources/Ranking.antt =====
-- The choice keeps the best sources, drops no source unrecorded, and depends on nothing else.
use mathlib.Core.List.{Permᴰ, append-nil}
use brand_pulse.Prelude.{
  All-imp, ◌≡◌, ap, true, false, none, some, lookup, lookup_or, ◌⊎◌, inl, inr, Bool-cases, List, [],
  ◌++◌, All, length-perm, if◌then◌else◌, length, take, drop, take-append-drop, length-take, leb,
  min, str_lt, str_lt-IsWeakOrder, str_lt-connex, Float, IsOrdered, IsWeakOrder, ByFirst,
  ByFirst-IsWeakOrder, Dict, IsSorted-append, unique_by, sort_stable-permᴰ, sort_stable-IsSorted,
  sort_stable-eq_of_permᴰ, All-of_mem, ℤ, pos_part, arith,
}
use brand_pulse.Models.Labels.{Source}
use brand_pulse.Models.Brand.{BrandProfile}
use brand_pulse.Orchestrator.Sources.{yield_of, ranks_before, ranked, choose_sources}

module _ {R : Type 0} ⦃f : Float R⦄ where
  choose_sources-append :
      (profile : BrandProfile) (yields : Dict R) (limit : ℤ)
      → (choose_sources profile yields limit).0 ++ (choose_sources profile yields limit).1
        ≡ ranked profile yields
  unfolding choose_sources
  choose_sources-append profile yields limit = ground (
    arith,
    take-append-drop (pos_part limit) (ranked profile yields),
    append-nil (ranked profile yields),
  )

  -- Every distinct source of the profile is either chosen or recorded as skipped, once, and the
  -- chosen are as many as the limit allows.
  pub choose_sources_partition :
      (profile : BrandProfile) (yields : Dict R) (limit : ℤ)
      → Permᴰ
          ((choose_sources profile yields limit).0 ++ (choose_sources profile yields limit).1)
          (unique_by (λ s. s) profile.sources)
        × (length (choose_sources profile yields limit).0
            ≡ min (pos_part limit) (length (unique_by (λ s. s) profile.sources)))
  unfolding ranked
  choose_sources_partition profile yields limit = (
    rw (choose_sources-append profile yields limit)
        (sort_stable-permᴰ (ranks_before yields) (unique_by (λ s. s) profile.sources)),
    unfold choose_sources in
        ground (
          arith,
          length-take (pos_part limit) (ranked profile yields),
          length-perm
              (sort_stable-permᴰ (ranks_before yields) (unique_by (λ s. s) profile.sources)),
        ),
  )

  ranks_before-ByFirst :
      IsOrdered f
      → (yields : Dict R)
      → ByFirst (ranks_before yields) (λ a b. f.lt (yield_of yields b) (yield_of yields a)) str_lt
  unfolding ranks_before
  ranks_before-ByFirst laws yields = record {
    before = λ a b. ground (arith, laws.eq_when_level (yield_of yields a) (yield_of yields b));
    after = λ a b. ground (
      arith,
      laws.eq_when_level (yield_of yields a) (yield_of yields b),
      laws.lt_weak.asym (yield_of yields a) (yield_of yields b),
    );
    level = λ a b. ground (arith, laws.eq_when_level (yield_of yields a) (yield_of yields b));
  }

  ranks_before-IsWeakOrder : IsOrdered f → (yields : Dict R) → IsWeakOrder (ranks_before yields)
  ranks_before-IsWeakOrder laws yields =
      ByFirst-IsWeakOrder (ranks_before-ByFirst laws yields)
        (record {
          asym = λ a b. laws.lt_weak.asym (yield_of yields b) (yield_of yields a);
          neg_trans = λ a b c h k.
              laws.lt_weak.neg_trans (yield_of yields c) (yield_of yields b) (yield_of yields a) k
                h;
        })
        str_lt-IsWeakOrder

  ranks_before-connex :
      IsOrdered f
      → (yields : Dict R) (a b : Source) → ranks_before yields a b ≡ false
      → ranks_before yields b a ≡ false
      → a ≡ b
  unfolding ranks_before
  ranks_before-connex laws yields a b h k = ground (
    arith,
    laws.eq_when_level (yield_of yields a) (yield_of yields b),
    laws.eq_when_level (yield_of yields b) (yield_of yields a),
    str_lt-connex a b,
  )

  -- what yesterday's run got from the source for a credit: 0 where it is not known
  abbrev pub worth : Dict R → Source → R
  worth yields s = elim (lookup s yields) [ none ↦ f.of_ℕ 0 | some r ↦ r ]

  -- `c` is worth more than `s`, or `s` is worth no more and no earlier by its name.
  abbrev pub Outranks : Dict R → Source → Source → Type 0
  Outranks yields c s =
      (f.lt (worth yields s) (worth yields c) ≡ true)
      ⊎ ((f.lt (worth yields c) (worth yields s) ≡ false) × (str_lt s c ≡ false))

  ranks_before-Outranks :
      IsOrdered f
      → (yields : Dict R) (c s : Source) → ranks_before yields s c ≡ false
      → Outranks yields c s
  unfolding ranks_before yield_of lookup_or
  ranks_before-Outranks laws yields c s h =
      elim (Bool-cases (f.lt (worth yields s) (worth yields c))) [
        | inl e ↦ inl e
        | inr e ↦ inr (
            ground (
              arith,
              laws.eq_when_level (worth yields c) (worth yields s),
              laws.eq_when_level (worth yields s) (worth yields c),
            ))
      ]

  chosen_rank_first :
      (profile : BrandProfile) (yields : Dict R) (limit : ℤ)
      → IsOrdered f
      → All
          (λ c. All (λ s. ranks_before yields s c ≡ false) (choose_sources profile yields limit).1)
          (choose_sources profile yields limit).0
  chosen_rank_first profile yields limit laws =
      IsSorted-append (ranks_before yields) (choose_sources profile yields limit).0
        (choose_sources profile yields limit).1
        (rw (choose_sources-append profile yields limit) (
          unfold ranked in
          sort_stable-IsSorted (ranks_before yields) (ranks_before-IsWeakOrder laws yields)
            (unique_by (λ s. s) profile.sources)))

  -- Where the order on yields is a weak order, as it is away from NaN, each chosen source outranks
  -- each skipped one: it had the higher yield, or the yields are level and its name is no later.
  pub chosen_outrank_skipped :
      (profile : BrandProfile) (yields : Dict R) (limit : ℤ)
      → IsOrdered f
      → All
          (λ c. All (λ s. Outranks yields c s) (choose_sources profile yields limit).1)
          (choose_sources profile yields limit).0
  chosen_outrank_skipped profile yields limit laws =
      All-imp
        (λ c p.
          All-imp (λ s. ranks_before-Outranks laws yields c s)
            (choose_sources profile yields limit).1 p)
        (choose_sources profile yields limit).0 (chosen_rank_first profile yields limit laws)

  -- The order in which two profiles list the same distinct sources does not change the choice.
  pub choose_sources_order_free :
      (p q : BrandProfile) (yields : Dict R) (limit : ℤ)
      → IsOrdered f
      → Permᴰ (unique_by (λ s. s) p.sources) (unique_by (λ s. s) q.sources)
      → choose_sources p yields limit ≡ choose_sources q yields limit
  unfolding choose_sources ranked
  choose_sources_order_free p q yields limit laws d =
      let same : ranked p yields ≡ ranked q yields =
        sort_stable-eq_of_permᴰ (ranks_before yields) (ranks_before-IsWeakOrder laws yields)
          (λ _. Unit {0}) (λ a b _ _. ranks_before-connex laws yields a b)
          (All-of_mem (λ _. Unit {0}) (unique_by (λ s. s) p.sources) (λ a m. tt)) d in
      ap
        (λ (sources : List Source).
          if leb (length sources) (pos_part limit)
          then (sources, [])
          else (take (pos_part limit) sources, drop (pos_part limit) sources))
        same
