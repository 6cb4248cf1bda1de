-- ===== src/Adapters/Stops.antt =====
-- How a search of Reddit ends, and the window that it asks for.
use brand_pulse.Prelude.{
  ℕ, ◌-◌, ◌*◌, ◌≤◌, ◌≡◌, refl, ap, ◌≢◌, inl, inr, Bool-cases, String, List, [], ◌∷◌, ◌++◌, Option,
  some, str_eq, leb, leb→le, if◌then◌else◌,
}
use brand_pulse.Models.Labels.{Time, hour}
use brand_pulse.Models.Brand.{BrandProfile}
use brand_pulse.Adapters.Mentions
use brand_pulse.Adapters.Reddit.{
  WireOpt, WireAnswer, answered, out_of_budget, failed, Tools, Harvest, search_for, settle_answer,
  search_each, finalize, fetch, time_bucket,
}

module _ {R W : Type 0} (t : Tools W) where
  settle_answer-stops :
      (keyword : String) (answer : WireAnswer) (h : Harvest R) (w : W)
      (next other : Harvest R → W → (Harvest R × Option String) × W) {e : String}
      → ((h' : Harvest R) (w' : W) → (next h' w').0.1 ≡ some e → other h' w' ≡ next h' w')
      → (settle_answer t keyword answer h w next).0.1 ≡ some e
      → settle_answer t keyword answer h w other ≡ settle_answer t keyword answer h w next
  unfolding settle_answer
  settle_answer-stops keyword (out_of_budget e) h w next other k q = refl
  settle_answer-stops keyword (failed e) h w next other k q = k _ w q
  settle_answer-stops keyword (answered raw) h w next other k q = k _ w q

  search_each-stops :
      (opt : WireOpt) (ks more : List String) (h : Harvest R) (w : W) {e : String}
      → (search_each t opt ks h w).0.1 ≡ some e
      → search_each t opt (ks ++ more) h w ≡ search_each t opt ks h w
  unfolding search_each
  search_each-stops opt [] more h w q = absurd (cc q)
  search_each-stops opt (k ∷ ks) more h w q =
      let (answer, w') = t.wire "reddit" k opt w in
      settle_answer-stops k answer h w' (λ h' w''. search_each t opt ks h' w'')
        (λ h' w''. search_each t opt (ks ++ more) h' w'')
        (λ h' w'' r. search_each-stops opt ks more h' w'' r) q

  -- Where the budget runs out while the first keywords are searched, Fetch returns what it would
  -- for these keywords alone, and leaves the world as it would: no later keyword is searched.
  pub fetch_stops_at_budget :
      (p : BrandProfile) (ks more : List String) (start end : Time) (w : W) {e : String}
      → (search_each {R = R} t
          (search_for t start end)
          ks
          (record { drafts = []; problems = [] })
          w).0.1
        ≡ some e
      → fetch {R = R} t (record p { keywords = ks ++ more }) start end w
        ≡ fetch t (record p { keywords = ks }) start end w
  unfolding fetch finalize Mentions.finalize Mentions.filter
  fetch_stops_at_budget p ks more start end w h =
      let same =
        search_each-stops (search_for t start end) ks more (record { drafts = []; problems = [] }) w
          h in
      ap (λ r. finalize t r.0.0 p start end r.0.1 r.1) same

-- The longest span that a name of rt_search's time parameter stands for.
abbrev pub longest_span : String → ℕ
longest_span bucket =
    if str_eq bucket "hour"
    then hour
    else if str_eq bucket "day"
    then 24 * hour
    else if str_eq bucket "week"
    then 7 * 24 * hour
    else if str_eq bucket "month"
    then 31 * 24 * hour
    else 366 * 24 * hour

-- The bucket that is asked for covers the window, or is the whole of the past.
pub time_bucket_covers :
    (start end : Time)
    → time_bucket start end ≢ "all"
    → end - start ≤ longest_span (time_bucket start end)
unfolding time_bucket
time_bucket_covers start end h = elim (Bool-cases (leb (end - start) (hour))) [
  | inl a ↦ rw (a, time_bucket) (leb→le (end - start) (hour) a)
  | inr a ↦ elim (Bool-cases (leb (end - start) (24 * hour))) [
    | inl b ↦ rw (a, b, time_bucket) (leb→le (end - start) (24 * hour) b)
    | inr b ↦ elim (Bool-cases (leb (end - start) (7 * 24 * hour))) [
      | inl c ↦ rw (a, b, c, time_bucket) (leb→le (end - start) (7 * 24 * hour) c)
      | inr c ↦ elim (Bool-cases (leb (end - start) (31 * 24 * hour))) [
        | inl d ↦ rw (a, b, c, d, time_bucket) (leb→le (end - start) (31 * 24 * hour) d)
        | inr d ↦ elim (Bool-cases (leb (end - start) (366 * 24 * hour))) [
          | inl e ↦ rw (a, b, c, d, e, time_bucket) (leb→le (end - start) (366 * 24 * hour) e)
          | inr e ↦ absurd (h (rw (a, b, c, d, e, time_bucket) refl))
        ]
      ]
    ]
  ]
]
