-- ===== src/Briefer/Format.antt =====
-- agents/bp-briefer/render.go: how numbers and texts are written. `shortest` and `fixed2` are
-- strconv.FormatFloat with the precisions -1 and 2; `link_text` and `one_space` are the two regular
-- expressions of plain.
use Prim.Native.Char.{code}
use brand_pulse.Prelude.{
  ℕ, zero, suc, ◌-◌, ◌%◌, ◌/◌, ◌==◌, ltb, leb, Bool, true, false, ◌&&◌, ◌||◌, not, String, List, [],
  ◌∷◌, Option, none, some, length, take, codes, Float, itoa, ◌^^◌, if◌then◌else◌,
}
use brand_pulse.Models.Topic.{BriefNumbers}

abbrev pub Bytes : Type 0
Bytes = List ℕ

-- What the renderers ask of libraries. Go's strings are bytes, which `bytes` and `of_bytes` give.
pub record Printer (R : Type 0) : Type 0 where
  pub shortest : R → String
  pub fixed2 : R → String
  pub day : ℕ → String
  pub date : ℕ → String
  pub minute : ℕ → String
  pub link_text : String → String
  pub one_space : String → String
  pub redact : String → String
  pub bytes : String → Bytes
  pub of_bytes : Bytes → String
  pub trim : Bytes → Bytes
  pub is_utf8 : Bytes → Bool

unfoldable pub trim_text : {R : Type 0} → Printer R → String → String
trim_text t s = t.of_bytes (t.trim (t.bytes s))

module _ {R : Type 0} ⦃f : Float R⦄ where
  -- ten to the number of places
  unfoldable scale_of : ℕ → R
  scale_of zero = f.decimal 10 1
  scale_of (suc n) = f.mul (scale_of n) (f.of_ℕ 10)

  unfoldable pub round_to : R → ℕ → R
  unfolding scale_of
  round_to v places =
      let scale = scale_of places in
      let minus = λ (x : R). f.sub (f.of_ℕ 0) x in
      if f.lt v (f.of_ℕ 0)
      then f.div (minus (f.trunc (f.add (f.mul (minus v) scale) (f.decimal 5 1)))) scale
      else f.div (f.trunc (f.add (f.mul v scale) (f.decimal 5 1))) scale

  unfoldable pub format_percent : Printer R → R → String
  unfolding round_to
  format_percent t pct = t.shortest (round_to pct 1) ^^ "%"

  unfoldable pub format_delta : Printer R → R → String
  unfolding format_percent
  format_delta t pct =
      if f.lt (f.of_ℕ 0) pct
      then "up " ^^ format_percent t pct
      else if f.lt pct (f.of_ℕ 0)
      then "down " ^^ format_percent t (f.sub (f.of_ℕ 0) pct)
      else "flat"

  unfoldable pub format_sentiment : Printer R → R → String
  unfolding round_to
  format_sentiment t avg = t.fixed2 (round_to avg 2)

  unfoldable pub format_trend : Printer R → R → String
  unfolding format_percent
  format_trend t trend =
      let percent_of = λ (x : R). format_percent t (f.mul x (f.of_ℕ 100)) in
      if f.lt (f.decimal 105 2) trend
      then "up " ^^ percent_of (f.sub trend (f.of_ℕ 1))
      else if f.lt trend (f.decimal 95 2)
      then "down " ^^ percent_of (f.sub (f.of_ℕ 1) trend)
      else "flat"

-- The loop of commas, with `left` digits to come. A count is never negative.
unfoldable pub commas_from : Bool → List ℕ → List ℕ
commas_from started [] = []
commas_from started (d ∷ ds) =
    let rest = d ∷ commas_from true ds in
    if started && (length (d ∷ ds) % 3 == 0) then 44 ∷ rest else rest

unfoldable pub string_of : List ℕ → String
string_of [] = ""
string_of (c ∷ cs) = (if c == 44 then "," else itoa (c - 48)) ^^ string_of cs

unfoldable pub commas : ℕ → String
unfolding commas_from string_of codes itoa
commas n = string_of (commas_from false (codes (itoa n)))

unfoldable pub format_numbers_line :
    {R : Type 0} ⦃f : Float R⦄ → Printer R → BriefNumbers R → String
unfolding commas format_delta format_percent format_sentiment
format_numbers_line t n =
    commas n.mentions
    ^^ " mentions, "
    ^^ format_delta t n.mentions_delta_pct
    ^^ ". "
    ^^ format_percent t n.negative_share
    ^^ " negative, average sentiment "
    ^^ format_sentiment t n.sentiment_avg
    ^^ ", share of voice "
    ^^ format_percent t n.share_of_voice
    ^^ "."

unfoldable pub format_date_range : {R : Type 0} → Printer R → ℕ → ℕ → String
format_date_range t start end = t.day start ^^ " to " ^^ t.date end

-- the three strings.ReplaceAll of plain
unfoldable swap_chars : String → String
swap_chars String.[] = ""
swap_chars (String.◌∷◌ c s) =
    let rest = swap_chars s in
    if code c == 124
    then "/" ^^ rest
    else if code c == 42 || code c == 96
    then rest
    else String.◌∷◌ c rest

unfoldable pub plain : {R : Type 0} → Printer R → String → String
unfolding swap_chars trim_text
plain t text = trim_text t (t.one_space (swap_chars (t.link_text text)))

-- strings.LastIndexAny, for the bytes that pass a test
unfoldable pub last_index : (ℕ → Bool) → Bytes → Option ℕ
last_index wanted [] = none
last_index wanted (b ∷ bs) = elim (last_index wanted bs) [
  | some at ↦ some (suc at)
  | none ↦ if wanted b then some 0 else none
]

unfoldable pub ends_sentence : ℕ → Bool
ends_sentence b = b == 46 || b == 33 || b == 63 || b == 10

-- the loop that walks back from a cut rune, one byte at a time
unfoldable pub walk_back : (Bytes → Bool) → ℕ → Bytes → Bytes
walk_back is_utf8 zero cut = cut
walk_back is_utf8 (suc left) cut =
    let shorter = walk_back is_utf8 left (take left cut) in
    if ltb 0 (length cut) && not (is_utf8 cut) then shorter else cut

-- the last word end, where no sentence ends late enough
unfoldable pub cut_at_word : Bytes → Bytes
unfolding last_index
cut_at_word cut = elim (last_index (λ b. b == 32) cut) [
  | none ↦ cut
  | some at ↦ if ltb 0 at then take at cut else cut
]

-- truncateAtSentence
unfoldable pub truncate_at_sentence : {R : Type 0} → Printer R → Bytes → ℕ → Bytes
unfolding last_index ends_sentence cut_at_word walk_back
truncate_at_sentence t text limit =
    let cut = take limit text in
    let at_word = let word = cut_at_word cut in t.trim (walk_back t.is_utf8 (length word) word) in
    if leb (length text) limit then text else elim (last_index ends_sentence cut) [
      | none ↦ at_word
      | some at ↦ if ltb (limit / 2) at then t.trim (take (suc at) cut) else at_word
    ]
