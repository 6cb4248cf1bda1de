-- ===== src/Adapters/Kept.antt =====
-- What the close of an adapter keeps, and that it accounts for the rest.
use brand_pulse.Prelude.{
  map, keep, not, is_empty, some, List-cases, join, ◌^^◌, ◌+◌, ◌<◌, ◌≤◌, ◌≡◌, refl, ap, inl, inr,
  Bool, false, String, List, [], ◌∷◌, Option, none, length, All, Option-cases, Bool-cases, arith,
}
use brand_pulse.Models.Labels.{Time}
use brand_pulse.Models.Brand.{BrandProfile}
use brand_pulse.Models.Mention.{Mention, validate_mention}
use brand_pulse.Adapters.Mentions.{
  total, Closing, anchored, pattern_parts, is_matched, negative_pattern, is_outside, filter_each,
  filter, stamped, stamp, finalize,
}

module _ {R : Type 0} where
  filter_each-accounts :
      (negative : Option (String → Bool)) (start end : Time) (ds : List (Mention R))
      → length (filter_each negative start end ds).0 + total (filter_each negative start end ds).1
        ≡ length ds
  unfolding filter_each total
  filter_each-accounts negative start end [] = omega arith
  filter_each-accounts negative start end (d ∷ ds) =
      ground (arith, filter_each-accounts negative start end ds)

  filter_each-invalid :
      (negative : Option (String → Bool)) (start end : Time) (ds : List (Mention R))
      → (filter_each negative start end ds).1.invalid ≡ []
  unfolding filter_each
  filter_each-invalid negative start end [] = refl
  filter_each-invalid negative start end (d ∷ ds) =
      ground (arith, filter_each-invalid negative start end ds)

  -- inside the window, and matched by no negative keyword
  abbrev pub IsWanted : Option (String → Bool) → Time → Time → Mention R → Type 0
  IsWanted negative start end m =
      (start ≤ m.posted_at) × (m.posted_at < end) × (is_matched negative m.text ≡ false)

  filter_each-IsWanted :
      (negative : Option (String → Bool)) (start end : Time) (ds : List (Mention R))
      → All (IsWanted negative start end) (filter_each negative start end ds).0
  unfolding filter_each is_outside
  filter_each-IsWanted negative start end [] = tt
  filter_each-IsWanted negative start end (d ∷ ds) =
      let rest = filter_each-IsWanted negative start end ds in
      elim (Bool-cases (is_outside start end d)) [
        | inl e ↦ rw (e, filter_each) rest
        | inr e ↦ elim (Bool-cases (is_matched negative d.text)) [
          | inl q ↦ rw (e, q, filter_each) rest
          | inr q ↦ rw (e, q, filter_each) ((ground arith, ground arith, q), rest)
        ]
      ]

module _ {R W : Type 0} (c : Closing W) where
  stamp-accounts :
      (ms : List (Mention R)) (brand_id : String) (w : W)
      → length (stamp c ms brand_id w).0.0 + length (stamp c ms brand_id w).0.1 ≡ length ms
  unfolding stamp
  stamp-accounts [] brand_id w = omega arith
  stamp-accounts (m ∷ ms) brand_id w =
      let (id, w') = c.new_id w in
      let rest = stamp-accounts ms brand_id w' in
      elim (Option-cases (validate_mention (stamped c brand_id id m))) [
        | inl e ↦ rw (e, stamp) omega arith
        | inr (_, e) ↦ rw (e, stamp) omega arith
      ]

  -- valid, and with the identity that Stamp gives
  abbrev pub IsStamped : String → Mention R → Type 0
  IsStamped brand_id m =
      (validate_mention m ≡ none)
      × (m.brand_id ≡ brand_id)
      × (m.content_hash ≡ c.hash m.text m.source)

  stamp-IsStamped :
      (negative : Option (String → Bool)) (start end : Time) (ms : List (Mention R))
      (brand_id : String) (w : W)
      → All (IsWanted negative start end) ms
      → All (λ m. IsWanted negative start end m × IsStamped brand_id m) (stamp c ms brand_id w).0.0
  unfolding stamp stamped
  stamp-IsStamped negative start end [] brand_id w h = tt
  stamp-IsStamped negative start end (m ∷ ms) brand_id w h =
      let (id, w') = c.new_id w in
      let rest = stamp-IsStamped negative start end ms brand_id w' h.1 in
      elim (Option-cases (validate_mention (stamped c brand_id id m))) [
        | inl e ↦ rw (e, stamp) ((h.0, (e, refl, refl)), rest)
        | inr (_, e) ↦ rw (e, stamp) rest
      ]

  -- What Finalize lets through is valid, of the brand, hashed, inside the window and without a
  -- negative keyword; and each draft is let through or counted among the dropped.
  pub finalize-IsStamped :
      (drafts : List (Mention R)) (p : BrandProfile) (start end : Time) (w : W)
      → All
          (λ m.
            IsWanted (negative_pattern c p.negative_keywords) start end m × IsStamped p.brand_id m)
          (finalize c drafts p start end w).0.0
        × (length (finalize c drafts p start end w).0.0
              + total (finalize c drafts p start end w).0.1
            ≡ length drafts)
  unfolding finalize filter total
  finalize-IsStamped drafts p start end w =
      let negative = negative_pattern c p.negative_keywords in
      let (kept, dropped) = filter_each negative start end drafts in
      (
        stamp-IsStamped negative start end kept p.brand_id w
            (filter_each-IsWanted negative start end drafts),
        omega (
          arith,
          filter_each-accounts negative start end drafts,
          ap length (filter_each-invalid negative start end drafts),
          stamp-accounts kept p.brand_id w,
        ),
      )

module _ {W : Type 0} (c : Closing W) where
  pattern_parts-eq :
      (terms : List String)
      → pattern_parts c terms
        ≡ map (anchored c) (keep (λ term. not (is_empty term)) (map c.trim terms))
  unfolding pattern_parts
  pattern_parts-eq [] = refl
  pattern_parts-eq (term ∷ terms) = elim (Bool-cases (is_empty (c.trim term))) [
    | inl e ↦ rw (e, pattern_parts) (pattern_parts-eq terms)
    | inr e ↦
        rw (e, pattern_parts) (ap (λ l. anchored c (c.trim term) ∷ l) (pattern_parts-eq terms))
  ]

  -- The pattern has an alternative for each negative keyword that is not blank, trimmed and in
  -- order; there is none where every keyword is blank.
  negative_pattern-eq :
      (terms : List String)
      → negative_pattern c terms ≡ elim (keep (λ term. not (is_empty term)) (map c.trim terms)) [
        | [] ↦ none
        | t ∷ ts ↦ some (c.compile ("(?i)" ^^ join "|" (map (anchored c) (t ∷ ts))))
      ]
  unfolding negative_pattern join
  negative_pattern-eq terms =
      elim (List-cases (keep (λ term. not (is_empty term)) (map c.trim terms))) [
        | inl e ↦ rw (pattern_parts-eq terms, negative_pattern) (rw e refl)
        | inr (t, ts, e) ↦ rw (pattern_parts-eq terms, negative_pattern) (rw e refl)
      ]
