-- ===== src/Briefer/Limit.antt =====
-- What the truncation leaves is within the limit.
use brand_pulse.Prelude.{
  ℕ, zero, suc, ◌/◌, ◌≤◌, inl, inr, Bool, not, ◌&&◌, length, take, length-take, ltb, leb, leb→le,
  Bool-cases, Option-cases, arith, ◌==◌,
}
use brand_pulse.Briefer.Format.{
  Bytes, Printer, last_index, ends_sentence, walk_back, cut_at_word, truncate_at_sentence,
}

length-walk_back :
    (is_utf8 : Bytes → Bool) (left : ℕ) (cut : Bytes)
    → length (walk_back is_utf8 left cut) ≤ length cut
unfolding walk_back
length-walk_back is_utf8 zero cut = omega arith
length-walk_back is_utf8 (suc left) cut =
    let shorter = length-walk_back is_utf8 left (take left cut) in
    let size = length-take left cut in
    elim (Bool-cases (ltb 0 (length cut) && not (is_utf8 cut))) [
      | inl e ↦ rw (e, walk_back) omega arith
      | inr e ↦ rw (e, walk_back) omega arith
    ]

length-cut_at_word : (cut : Bytes) → length (cut_at_word cut) ≤ length cut
unfolding cut_at_word
length-cut_at_word cut = elim (Option-cases (last_index (λ b. b == 32) cut)) [
  | inl e ↦ rw (e, cut_at_word) omega arith
  | inr (at, e) ↦ rw (e, cut_at_word) ground (arith, length-take at cut)
]

-- What strings.TrimSpace never does.
abbrev pub NeverLengthens : (Bytes → Bytes) → Type 0
NeverLengthens trim = (text : Bytes) → length (trim text) ≤ length text

-- Where trimming never lengthens a text, a truncated text has at most as many bytes as the limit.
pub truncate_at_sentence-le_limit :
    {R : Type 0} (t : Printer R) (text : Bytes) (limit : ℕ)
    → NeverLengthens t.trim
    → length (truncate_at_sentence t text limit) ≤ limit
unfolding truncate_at_sentence
truncate_at_sentence-le_limit t text limit h =
    let cut = take limit text in
    let size = length-take limit text in
    let word = cut_at_word cut in
    let word_size = length-cut_at_word cut in
    let back = walk_back t.is_utf8 (length word) word in
    let back_size = length-walk_back t.is_utf8 (length word) word in
    let back_trimmed = h back in
    elim (Bool-cases (leb (length text) limit)) [
      | inl e ↦ rw (e, truncate_at_sentence) (leb→le (length text) limit e)
      | inr e ↦ elim (Option-cases (last_index ends_sentence cut)) [
        | inl q ↦ rw (e, q, truncate_at_sentence) omega arith
        | inr (at, q) ↦
            let sentence = h (take (suc at) cut) in
            let sentence_size = length-take (suc at) cut in
            elim (Bool-cases (ltb (limit / 2) at)) [
              | inl r ↦ rw (e, q, r, truncate_at_sentence) omega arith
              | inr r ↦ rw (e, q, r, truncate_at_sentence) omega arith
            ]
      ]
    ]
