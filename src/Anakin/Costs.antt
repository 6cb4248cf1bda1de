-- ===== src/Anakin/Costs.antt =====
-- internal/anakin/http.go: what a call costs, and what its first parameter is called.
use brand_pulse.Prelude.{
  ℕ, ◌≤◌, ◌<◌, ◌≡◌, ◌||◌, String, List, [], ◌∷◌, max, arith, str_eq, if◌then◌else◌,
}

abbrev cost_search : ℕ
cost_search = 3

abbrev cost_map : ℕ
cost_map = 1

-- wireCost
unfoldable wire_cost : String → ℕ
wire_cost action =
    if str_eq action "yt_search" || str_eq action "yt_video" || str_eq action "yt_channel"
    then 1
    else if str_eq action "yt_comments"
    then 3
    else 2

-- one format's say in scrapeCost
format_cost : ℕ → String → ℕ
format_cost cost format =
    if str_eq format "summary"
    then max cost 2
    else if str_eq format "json"
    then max cost 3
    else cost

scrape_cost_from : ℕ → List String → ℕ
unfolding format_cost
scrape_cost_from cost [] = cost
scrape_cost_from cost (format ∷ rest) = scrape_cost_from (format_cost cost format) rest

-- scrapeCost: a scrape costs one credit before its formats are looked at
unfoldable pub scrape_cost : List String → ℕ
unfolding scrape_cost_from
scrape_cost formats = scrape_cost_from 1 formats

-- wirePrimaryParam
unfoldable wire_primary_param : String → String
wire_primary_param action =
    if str_eq action "rt_subreddit_posts"
    then "subreddit"
    else if str_eq action "rt_post_details"
    then "post_id"
    else if str_eq action "rt_user_profile"
    then "username"
    else if str_eq action "yt_comments" || str_eq action "yt_video"
    then "video_id"
    else if str_eq action "yt_channel"
    then "channel_id"
    else if str_eq action "am_product_details" || str_eq action "am_product_reviews"
    then "asin"
    else "query"

-- What a list of formats asks for.
abbrev wanted : List String → ℕ
wanted [] = 1
wanted (format ∷ rest) =
    max (if str_eq format "summary" then 2 else if str_eq format "json" then 3 else 1) (wanted rest)

scrape_cost_from-eq-max :
    (cost : ℕ) (formats : List String)
    → 0 < cost
    → scrape_cost_from cost formats ≡ max cost (wanted formats)
unfolding scrape_cost_from
scrape_cost_from-eq-max cost [] h = omega arith
scrape_cost_from-eq-max cost (format ∷ rest) h =
    ground (arith, scrape_cost_from-eq-max (format_cost cost format) rest)

-- A scrape costs what its dearest format costs: 3 for JSON, 2 for a summary, 1 for anything else.
pub scrape_cost-eq-dearest : (formats : List String) → scrape_cost formats ≡ wanted formats
unfolding scrape_cost
scrape_cost-eq-dearest formats =
    ground (arith, scrape_cost_from-eq-max 1 formats, wanted-pos formats)
  where
    wanted-pos : (fs : List String) → 1 ≤ wanted fs
    wanted-pos [] = omega arith
    wanted-pos (f ∷ fs) = ground (arith, wanted-pos fs)

wire_cost_bounds : (action : String) → (1 ≤ wire_cost action) × (wire_cost action ≤ 3)
unfolding wire_cost
wire_cost_bounds action = ground arith
