-- ===== src/Adapters/Search.antt =====
-- internal/anakin/sources/searchapi/searchapi.go and news/news.go. The client's Search,
-- json.Unmarshal and time.Parse are parameters, and so is the map that Raw is made of.
use brand_pulse.Prelude.{
  ℕ, ◌-◌, String, List, [], ◌∷◌, ◌++◌, Option, none, some, length, is_empty, itoa, join, ◌^^◌,
  Reply, ok, err, if◌then◌else◌,
}
use brand_pulse.Models.Labels.{Source, Time}
use brand_pulse.Models.Brand.{BrandProfile}
use brand_pulse.Models.Mention.{Mention}
use brand_pulse.Adapters.Mentions
use brand_pulse.Adapters.Reddit.{WireAnswer, answered, out_of_budget, failed, Harvest}

pub record Result : Type 0 where
  pub url : String
  pub title : String
  pub snippet : String
  pub date : String
  pub last_updated : String

pub record SearchTools (W : Type 0) : Type 0 where
  pub search : String → ℕ → W → WireAnswer × W
  pub results_of : String → Reply (List Result)
  pub parse_day : String → Reply Time
  pub raw_of : String → String → String → String
  pub closing : Mentions.Closing W

abbrev search_limit : ℕ
search_limit = 20

-- time.Second
abbrev undated_offset : ℕ
undated_offset = 1000000000

-- UndatedAt
unfoldable pub undated_at : Time → Time
undated_at window_end = window_end - undated_offset

-- the problems, with a line for the mentions that Stamp rejected
unfoldable with_rejected : Source → List String → List String → List String
unfolding itoa join
with_rejected source [] problems = problems
with_rejected source (e ∷ es) problems =
    problems
    ++ (source
        ^^ ": "
        ^^ itoa (length (e ∷ es))
        ^^ " mentions failed validation: "
        ^^ join "; " (e ∷ es))
      ∷ []

abbrev pub news_prompt : String → String
news_prompt keyword = keyword ^^ " news"

module _ {W : Type 0} (t : SearchTools W) where
  -- the loop of publishedAt
  unfoldable pub published_from : List String → Time → Reply (Time × String)
  published_from [] undated = ok (undated, "unknown")
  published_from (value ∷ rest) undated =
      let later = published_from rest undated in
      if is_empty value then later else elim (t.parse_day value) [
        | err e ↦ err ("unparseable date \"" ^^ value ^^ "\"")
        | ok parsed ↦ ok (parsed, "day")
      ]

  unfoldable pub published_at : Result → Time → Reply (Time × String)
  unfolding published_from
  published_at r undated = published_from (r.date ∷ r.last_updated ∷ []) undated

  -- ToDraft
  unfoldable pub search_draft : {R : Type 0} → Result → Source → String → Time → Reply (Mention R)
  unfolding published_at
  search_draft r source keyword undated = elim (published_at r undated) [
    | err e ↦ err (source ^^ ": " ^^ r.url ^^ ": " ^^ e)
    | ok posted ↦ ok (record {
      id = "";
      brand_id = "";
      source = source;
      external_id = r.url;
      url = r.url;
      author = "";
      author_followers = 0;
      text = if is_empty r.title then r.snippet else r.title ^^ "\n" ^^ r.snippet;
      lang = "en";
      posted_at = posted.0;
      engagement = record { likes = 0; replies = 0; shares = 0; views = 0 };
      rating = none;
      matched_keyword = keyword;
      content_hash = "";
      raw = t.raw_of r.date r.last_updated posted.1;
    })
  ]

  module _ {R : Type 0} (source : Source) where
    abbrev with_search_problem : String → Harvest R → Harvest R
    with_search_problem e h = record h { problems = h.problems ++ e ∷ [] }

    -- the loop over the results
    unfoldable pub add_results : String → Time → List Result → Harvest R → Harvest R
    unfolding search_draft
    add_results keyword undated [] h = h
    add_results keyword undated (r ∷ rs) h =
        add_results keyword undated rs (elim (search_draft r source keyword undated) [
          | err e ↦ with_search_problem e h
          | ok draft ↦ record h { drafts = h.drafts ++ draft ∷ [] }
        ])

    -- what a turn that nothing stopped makes of Search's answer
    unfoldable pub take_results : String → Time → String → Harvest R → Harvest R
    unfolding add_results
    take_results keyword undated raw h = elim (t.results_of raw) [
      | err e ↦ with_search_problem (source ^^ ": decoding search \"" ^^ keyword ^^ "\": " ^^ e) h
      | ok results ↦ add_results keyword undated results h
    ]

    -- Collect's loop over the keywords, with the error that stopped it
    unfoldable pub search_keywords :
        (String → String) → Time → List String → Harvest R → W → (Harvest R × Option String) × W
    unfolding take_results
    search_keywords prompt undated [] h w = ((h, none), w)
    search_keywords prompt undated (keyword ∷ rest) h w =
        let (answer, w') = t.search (prompt keyword) search_limit w in
        elim answer [
          | out_of_budget e ↦ ((h, some e), w')
          | failed e ↦
              search_keywords prompt undated rest
                (with_search_problem (source ^^ ": search \"" ^^ keyword ^^ "\": " ^^ e) h) w'
          | answered raw ↦
              search_keywords prompt undated rest (take_results keyword undated raw h) w'
        ]

    -- Collect
    unfoldable pub search_collect :
        List String → (String → String) → Time → W → (Harvest R × Option String) × W
    unfolding search_keywords undated_at
    search_collect keywords prompt window_end w =
        search_keywords prompt (undated_at window_end) keywords
          (record { drafts = []; problems = [] }) w

    -- the end of Fetch, for news and for web: the mentions, and the errors that are joined
    unfoldable pub close_search :
        Harvest R
        → BrandProfile
        → Time
        → Time
        → Option String
        → W
        → (List (Mention R) × List String) × W
    unfolding with_rejected
    close_search h p start end stop w =
        let ((out, dropped), w') = Mentions.finalize t.closing h.drafts p start end w in
        let problems = with_rejected source dropped.invalid h.problems in
        ((out, elim stop [ none ↦ problems | some e ↦ e ∷ problems ]), w')

  -- Fetch of news
  unfoldable pub fetch_news :
      {R : Type 0} → BrandProfile → Time → Time → W → (List (Mention R) × List String) × W
  unfolding search_collect close_search
  fetch_news p start end w =
      let ((h, stop), w') = search_collect "news" p.keywords news_prompt end w in
      close_search "news" h p start end stop w'
