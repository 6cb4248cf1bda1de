-- ===== src/Responder/Violations.antt =====
-- What it means that a text has no violation.
use brand_pulse.Prelude.{
  ◌≡◌, refl, inl, inr, true, not, ◌↔◌, ◌||◌, String, List, [], ◌∷◌, All, Bool-cases, sym, Memᴰ,
  arith,
}
use mathlib.Core.List.Memᴰ
use mathlib.Core.Path.{subst}
use brand_pulse.Responder.Guardrails.{
  Bytes, same_bytes, occurs, is_seen, needle_of, violations_from, violations_in,
}

module _ (bytes : String → Bytes) (lower : Bytes → Bytes) (trim : String → String) where
  -- the phrase is blank, or does not occur
  abbrev pub IsAbsent : Bytes → String → Type 0
  IsAbsent haystack phrase =
      (same_bytes (needle_of bytes lower trim phrase) []
        || not (occurs (needle_of bytes lower trim phrase) haystack))
      ≡ true

  violations_from-clear :
      (haystack : Bytes) (banned : List String)
      → violations_from bytes lower trim haystack [] banned ≡ []
      → All (IsAbsent haystack) banned
  unfolding violations_from is_seen
  violations_from-clear haystack [] h = tt
  violations_from-clear haystack (phrase ∷ rest) h =
      (ground arith, violations_from-clear haystack rest (ground arith))

  violations_from-of_absent :
      (haystack : Bytes) (seen : List Bytes) (banned : List String)
      → All (IsAbsent haystack) banned
      → violations_from bytes lower trim haystack seen banned ≡ []
  unfolding violations_from
  violations_from-of_absent haystack seen [] h = refl
  violations_from-of_absent haystack seen (phrase ∷ rest) h =
      let absent = h.0 in ground (arith, violations_from-of_absent haystack seen rest h.1)

  -- A text has no violation just when each banned phrase is blank or does not occur in it, in any
  -- case.
  pub violations_in-empty_iff :
      (text : String) (banned : List String)
      → (violations_in bytes lower trim text banned ≡ [])
        ↔ All (IsAbsent (lower (bytes text))) banned
  unfolding violations_in
  violations_in-empty_iff text banned = (
    violations_from-clear (lower (bytes text)) banned,
    violations_from-of_absent (lower (bytes text)) [] banned,
  )

  abbrev IsViolation : Bytes → List String → String → Type 0
  IsViolation haystack banned phrase =
      Memᴰ phrase banned × (occurs (needle_of bytes lower trim phrase) haystack ≡ true)

  violations_from_sound :
      (haystack : Bytes) (seen : List Bytes) (banned : List String) (phrase : String)
      → Memᴰ phrase (violations_from bytes lower trim haystack seen banned)
      → IsViolation haystack banned phrase
  unfolding violations_from
  violations_from_sound haystack seen [] phrase m = elim m [ ]
  violations_from_sound haystack seen (p ∷ rest) phrase m =
      let needle = needle_of bytes lower trim p in
      elim (Bool-cases (same_bytes needle [] || is_seen needle seen)) [
        | inl e ↦
            later (violations_from_sound haystack seen rest phrase (rw (e, violations_from) at m))
        | inr e ↦ elim (Bool-cases (occurs needle haystack)) [
          | inl o ↦ elim (Memᴰ.cases_cons (rw (e, o, violations_from) at m)) [
            | inl q ↦ (
              Memᴰ.head q,
              subst (λ r. occurs (needle_of bytes lower trim r) haystack ≡ true) (sym q) o,
            )
            | inr m' ↦ later (violations_from_sound haystack (needle ∷ seen) rest phrase m')
          ]
          | inr o ↦
              later
                (violations_from_sound haystack seen rest phrase (rw (e, o, violations_from) at m))
        ]
      ]
    where
      later : IsViolation haystack rest phrase → IsViolation haystack (p ∷ rest) phrase
      later (i, h) = (Memᴰ.tail i, h)

  -- Each violation is a banned phrase that occurs in the text, in some case.
  pub violations_in_sound :
      (text : String) (banned : List String) (phrase : String)
      → Memᴰ phrase (violations_in bytes lower trim text banned)
      → IsViolation (lower (bytes text)) banned phrase
  unfolding violations_in
  violations_in_sound text banned phrase m =
      violations_from_sound (lower (bytes text)) [] banned phrase m
