-- ===== src/Detector/Grouping.antt =====
-- What groupBySourceHour does with the mentions.
use mathlib.Core.List.{Permᴰ, append_assoc, append-nil}
use mathlib.Core.List.Permᴰ
use mathlib.Core.Path.{subst}
use brand_pulse.Prelude.{
  ◌≡◌, ◌≢◌, refl, sym, ◌∙◌, inl, inr, Bool, true, String, List, [], ◌∷◌, ◌++◌, map, none, some,
  Dict, lookup, insert_key, All, All-append, All-of_perm, All-insert_key, All-lookup, keep,
  concat_map, concat_map-perm, Bool-cases, Option-cases, sort_stable-permᴰ, ◌^^◌, str_eq, arith,
}
use brand_pulse.Models.Mention.{EnrichedMention}
use brand_pulse.Detector.Groups.{
  Group, group_key, new_group, append_mention, add_to, group_from, group_before,
  group_by_source_hour,
}

module _ {R : Type 0} where
  abbrev gathered : Dict (Group R) → List (EnrichedMention R)
  gathered m = concat_map (λ e. e.1.mentions) m

  insert_new-gathered :
      (k : String) (em : EnrichedMention R) (m : Dict (Group R))
      → lookup k m ≡ none
      → Permᴰ (gathered (insert_key k (append_mention em (new_group em)) m)) (em ∷ gathered m)
  unfolding lookup insert_key concat_map
  insert_new-gathered k em [] h = Permᴰ.refl (em ∷ [])
  insert_new-gathered k em ((j, g) ∷ m) h = elim (Bool-cases (str_eq j k)) [
    | inl e ↦ absurd (ground arith)
    | inr e ↦
        rw (e, insert_key)
          (Permᴰ.trans (Permᴰ.append_left g.mentions (insert_new-gathered k em m (ground arith)))
            (Permᴰ.middle em g.mentions (gathered m)))
  ]

  insert_old-gathered :
      (k : String) (em : EnrichedMention R) (h : Group R) (m : Dict (Group R))
      → lookup k m ≡ some h
      → Permᴰ (gathered (insert_key k (append_mention em h) m)) (em ∷ gathered m)
  unfolding lookup insert_key concat_map
  insert_old-gathered k em h [] e = absurd (cc (e))
  insert_old-gathered k em h ((j, g) ∷ m) e = elim (Bool-cases (str_eq j k)) [
    | inl q ↦
        rw (q, insert_key)
          (subst
            (λ x. Permᴰ ((x.mentions ++ em ∷ []) ++ gathered m) (em ∷ (g.mentions ++ gathered m)))
            (found q)
            (subst (λ l. Permᴰ l (em ∷ (g.mentions ++ gathered m)))
              (sym (append_assoc g.mentions (em ∷ []) (gathered m)))
              (Permᴰ.middle em g.mentions (gathered m))))
    | inr q ↦
        rw (q, insert_key)
          (Permᴰ.trans (Permᴰ.append_left g.mentions (insert_old-gathered k em h m (ground arith)))
            (Permᴰ.middle em g.mentions (gathered m)))
  ]
    where
      found : str_eq j k ≡ true → g ≡ h
      found q = ground arith

  add_to-gathered :
      (em : EnrichedMention R) (m : Dict (Group R))
      → Permᴰ (gathered (add_to em m)) (em ∷ gathered m)
  unfolding add_to
  add_to-gathered em m = elim (Option-cases (lookup (group_key em) m)) [
    | inl e ↦ rw (e, add_to) (insert_new-gathered (group_key em) em m e)
    | inr (g, e) ↦ rw (e, add_to) (insert_old-gathered (group_key em) em g m e)
  ]

  group_from-gathered :
      (kept : EnrichedMention R → Bool) (ems : List (EnrichedMention R)) (m : Dict (Group R))
      → Permᴰ (gathered (group_from kept ems m)) (keep kept ems ++ gathered m)
  unfolding group_from
  group_from-gathered kept [] m = Permᴰ.refl (gathered m)
  group_from-gathered kept (em ∷ ems) m = elim (Bool-cases (kept em)) [
    | inl e ↦
        rw (e, group_from)
          (Permᴰ.trans (group_from-gathered kept ems (add_to em m)) (
            Permᴰ.trans (Permᴰ.append_left (keep kept ems) (add_to-gathered em m))
              (Permᴰ.middle em (keep kept ems) (gathered m))))
    | inr e ↦ rw (e, group_from) (group_from-gathered kept ems m)
  ]

  -- The mentions of an entry are some, and all of its key, which is its source and bucket.
  abbrev IsFiled : String × Group R → Type 0
  IsFiled e =
      (e.1.mentions ≢ [])
      × (e.0 ≡ e.1.source ^^ "|" ^^ e.1.bucket)
      × All (λ em. group_key em ≡ e.0) e.1.mentions

  append-ne-nil : (ems : List (EnrichedMention R)) (em : EnrichedMention R) → ems ++ em ∷ [] ≢ []
  append-ne-nil [] em p = cc (p)
  append-ne-nil (x ∷ xs) em p = cc (p)

  add_to-IsFiled :
      (em : EnrichedMention R) (m : Dict (Group R)) → All IsFiled m → All IsFiled (add_to em m)
  unfolding add_to group_key
  add_to-IsFiled em m h = elim (Option-cases (lookup (group_key em) m)) [
    | inl e ↦
        rw (e, add_to)
          (All-insert_key IsFiled (group_key em) (append_mention em (new_group em)) m h
            ((λ p. cc (p)), refl, (refl, tt)))
    | inr (g, e) ↦
        rw (e, add_to)
          (let old = All-lookup IsFiled (group_key em) g m h e in
            All-insert_key IsFiled (group_key em) (append_mention em g) m h (
              append-ne-nil g.mentions em,
              old.1,
              All-append (λ x. group_key x ≡ group_key em) g.mentions (em ∷ []) old.2 (refl, tt),
            ))
  ]

  group_from-IsFiled :
      (kept : EnrichedMention R → Bool) (ems : List (EnrichedMention R)) (m : Dict (Group R))
      → All IsFiled m
      → All IsFiled (group_from kept ems m)
  unfolding group_from
  group_from-IsFiled kept [] m h = h
  group_from-IsFiled kept (em ∷ ems) m h = elim (Bool-cases (kept em)) [
    | inl e ↦ rw (e, group_from) (group_from-IsFiled kept ems (add_to em m) (add_to-IsFiled em m h))
    | inr e ↦ rw (e, group_from) (group_from-IsFiled kept ems m h)
  ]

  gathered-map : (m : Dict (Group R)) → concat_map (λ g. g.mentions) (map (λ e. e.1) m) ≡ gathered m
  unfolding concat_map
  gathered-map [] = refl
  gathered-map (e ∷ m) = rw (gathered-map m)

  abbrev pub IsOfOneHour : Group R → Type 0
  IsOfOneHour g =
      (g.mentions ≢ []) × All (λ em. group_key em ≡ g.source ^^ "|" ^^ g.bucket) g.mentions

  All-of_filed : (m : Dict (Group R)) → All IsFiled m → All IsOfOneHour (map (λ e. e.1) m)
  All-of_filed [] h = tt
  All-of_filed (e ∷ m) (h, hs) = ((h.0, rewrite_keys e.1.mentions h.2), All-of_filed m hs)
    where
      rewrite_keys :
          (ems : List (EnrichedMention R))
          → All (λ em. group_key em ≡ e.0) ems
          → All (λ em. group_key em ≡ e.1.source ^^ "|" ^^ e.1.bucket) ems
      rewrite_keys [] k = tt
      rewrite_keys (x ∷ xs) k = (k.0 ∙ h.1, rewrite_keys xs k.1)

  -- The groups divide up the mentions that are kept: put together they are those mentions in
  -- another order, no group is empty, and each mention in a group is of its source and hour.
  pub group_by_source_hour_partition :
      (kept : EnrichedMention R → Bool) (enriched : List (EnrichedMention R))
      → let groups = group_by_source_hour kept enriched in
        Permᴰ (concat_map (λ g. g.mentions) groups) (keep kept enriched) × All IsOfOneHour groups
  unfolding group_by_source_hour concat_map
  group_by_source_hour_partition kept enriched =
      let m = group_from kept enriched [] in
      let sorted = sort_stable-permᴰ group_before (map (λ e. e.1) m) in
      (
        Permᴰ.trans (concat_map-perm (λ g. g.mentions) sorted) (
            subst (λ l. Permᴰ l (keep kept enriched)) (sym (gathered-map m))
              (subst (Permᴰ (gathered m)) (append-nil (keep kept enriched))
                (group_from-gathered kept enriched []))),
        All-of_perm IsOfOneHour (Permᴰ.symm sorted)
            (All-of_filed m (group_from-IsFiled kept enriched [] tt)),
      )
