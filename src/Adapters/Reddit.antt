-- ===== src/Adapters/Reddit.antt =====
-- internal/anakin/sources/reddit/reddit.go. The client's Wire, wire.Payload, json.Unmarshal,
-- time.Parse and the cut of the RSS footer are parameters.
use brand_pulse.Prelude.{
  ℕ, ◌-◌, ◌*◌, Bool, ◌&&◌, ltb, leb, ◌==◌, String, List, [], ◌∷◌, ◌++◌, Option, none, some, length,
  is_empty, itoa, join, ◌^^◌, true, Reply, ok, err, not, if◌then◌else◌,
}
use brand_pulse.Models.Labels.{Time, hour}
use brand_pulse.Models.Brand.{BrandProfile}
use brand_pulse.Models.Mention.{Mention}
use brand_pulse.Adapters.Mentions

pub record Post : Type 0 where
  pub id : String
  pub title : String
  pub subreddit : String
  pub author : String
  pub created_utc : String
  pub url : String
  pub permalink : String
  pub selftext : String

pub record SearchResponse : Type 0 where
  pub posts : List Post
  pub posts_dropped_by_filter : ℕ

-- anakin.WireOpt, with what `match` is set to
pub record WireOpt : Type 0 where
  pub action : String
  pub limit : ℕ
  pub sort : String
  pub time : String
  pub match : Bool

-- What Wire answers: a body, ErrBudgetExceeded, or another error.
pub data WireAnswer : Type 0 where
  answered out_of_budget failed : String → WireAnswer

pub record Tools (W : Type 0) : Type 0 where
  pub wire : String → String → WireOpt → W → WireAnswer × W
  pub payload : String → Reply String
  pub decode : String → Reply SearchResponse
  pub parse_time : String → Reply Time
  pub cut_tail : String → String
  pub raw_of : String → String
  pub closing : Mentions.Closing W

-- timeBucket. A span below 0 is 0 here, which is an hour either way.
unfoldable pub time_bucket : Time → Time → String
time_bucket start end =
    let span = end - start in
    if leb span hour
    then "hour"
    else if leb span (24 * hour)
    then "day"
    else if leb span (7 * 24 * hour)
    then "week"
    else if leb span (31 * 24 * hour)
    then "month"
    else if leb span (366 * 24 * hour)
    then "year"
    else "all"

-- What Fetch has come to.
pub record Harvest (R : Type 0) : Type 0 where
  pub drafts : List (Mention R)
  pub problems : List String

-- the problems, with a line for all mentions that Stamp rejected
unfoldable with_invalid : List String → List String → List String
unfolding itoa join
with_invalid [] problems = problems
with_invalid (e ∷ es) problems =
    problems
    ++ ("reddit: "
        ^^ itoa (length (e ∷ es))
        ^^ " mentions failed validation: "
        ^^ join "; " (e ∷ es))
      ∷ []

module _ {W : Type 0} (t : Tools W) where
  unfoldable pub text : Post → String
  text p =
      let body = t.closing.trim (t.cut_tail p.selftext) in
      if is_empty body then p.title else p.title ^^ "\n" ^^ body

  unfoldable pub url_of : Post → String
  url_of p =
      if is_empty p.url && not (is_empty p.permalink)
      then "https://www.reddit.com" ^^ p.permalink
      else p.url

  unfoldable pub to_draft : {R : Type 0} → Post → String → Reply (Mention R)
  unfolding text url_of
  to_draft p keyword = elim (t.parse_time p.created_utc) [
    | err e ↦ err (
        "reddit: post " ^^ p.id ^^ " has unparseable created_utc \"" ^^ p.created_utc ^^ "\": "
        ^^ e)
    | ok posted_at ↦ ok (record {
      id = "";
      brand_id = "";
      source = "reddit";
      external_id = p.id;
      url = url_of p;
      author = p.author;
      author_followers = 0;
      text = text p;
      lang = "en";
      posted_at = posted_at;
      engagement = record { likes = 0; replies = 0; shares = 0; views = 0 };
      rating = none;
      matched_keyword = keyword;
      content_hash = "";
      raw = t.raw_of p.subreddit;
    })
  ]

  abbrev pub search_for : Time → Time → WireOpt
  search_for start end = record {
    action = "rt_search";
    limit = 100;
    sort = "new";
    time = time_bucket start end;
    match = true;
  }

module _ {R W : Type 0} (t : Tools W) where
  abbrev with_problem : String → Harvest R → Harvest R
  with_problem e h = record h { problems = h.problems ++ e ∷ [] }

  -- the loop over the posts
  unfoldable pub add_posts : String → List Post → Harvest R → Harvest R
  unfolding to_draft
  add_posts keyword [] h = h
  add_posts keyword (p ∷ ps) h = add_posts keyword ps (elim (to_draft t p keyword) [
    | err e ↦ with_problem e h
    | ok draft ↦ record h { drafts = h.drafts ++ draft ∷ [] }
  ])

  -- what a response adds
  unfoldable pub take_response : String → SearchResponse → Harvest R → Harvest R
  unfolding add_posts itoa
  take_response keyword resp h =
      if (length resp.posts == 0) && ltb 0 resp.posts_dropped_by_filter
      then with_problem
          ("reddit: \""
            ^^ keyword
            ^^ "\" matched nothing but the match filter dropped "
            ^^ itoa resp.posts_dropped_by_filter
            ^^ " posts, so the query is too specific, not the week")
          h
      else add_posts keyword resp.posts h

  -- a turn that the budget did not stop
  unfoldable pub take_body : String → String → Harvest R → Harvest R
  unfolding take_response
  take_body keyword raw h = elim (t.payload raw) [
    | err e ↦ with_problem ("reddit: rt_search \"" ^^ keyword ^^ "\": " ^^ e) h
    | ok payload ↦ elim (t.decode payload) [
      | err e ↦ with_problem ("reddit: decoding rt_search \"" ^^ keyword ^^ "\": " ^^ e) h
      | ok resp ↦ take_response keyword resp h
    ]
  ]

  -- what a turn makes of Wire's answer; `next` is the turn for the next keyword
  unfoldable pub settle_answer :
      String
      → WireAnswer
      → Harvest R
      → W
      → (Harvest R → W → (Harvest R × Option String) × W)
      → (Harvest R × Option String) × W
  unfolding take_body
  settle_answer keyword (out_of_budget e) h w next = ((h, some e), w)
  settle_answer keyword (failed e) h w next =
      next (with_problem ("reddit: rt_search \"" ^^ keyword ^^ "\": " ^^ e) h) w
  settle_answer keyword (answered raw) h w next = next (take_body keyword raw h) w

  -- Fetch's loop over the keywords, with the error that stopped it
  unfoldable pub search_each :
      WireOpt → List String → Harvest R → W → (Harvest R × Option String) × W
  unfolding settle_answer
  search_each opt [] h w = ((h, none), w)
  search_each opt (keyword ∷ rest) h w =
      let (answer, w') = t.wire "reddit" keyword opt w in
      settle_answer keyword answer h w' (λ h' w''. search_each opt rest h' w'')

  -- finalize: the mentions, with the errors that are joined, what stopped the run first
  unfoldable pub finalize :
      Harvest R
      → BrandProfile
      → Time
      → Time
      → Option String
      → W
      → (List (Mention R) × List String) × W
  unfolding with_invalid
  finalize h p start end stop w =
      let ((out, dropped), w') = Mentions.finalize t.closing h.drafts p start end w in
      let problems = with_invalid dropped.invalid h.problems in
      ((out, elim stop [ none ↦ problems | some e ↦ e ∷ problems ]), w')

  -- Fetch
  unfoldable pub fetch : BrandProfile → Time → Time → W → (List (Mention R) × List String) × W
  unfolding search_each finalize time_bucket
  fetch p start end w =
      let ((h, stop), w') =
        search_each (search_for t start end) p.keywords (record { drafts = []; problems = [] }) w in
      finalize h p start end stop w'
