-- ===== src/Adapters/Web.antt =====
-- internal/anakin/sources/web/web.go and scrape/scrape.go. The client's Scrape, json.Unmarshal and
-- the mark that enrich leaves in Raw are parameters.
use brand_pulse.Prelude.{
  ℕ, zero, suc, true, false, ◌&&◌, leb, String, List, [], ◌∷◌, ◌++◌, Option, none, some, length,
  codes, is_empty, ◌^^◌, Reply, ok, err, if◌then◌else◌,
}
use brand_pulse.Models.Labels.{Time}
use brand_pulse.Models.Brand.{BrandProfile}
use brand_pulse.Models.Mention.{Mention}
use brand_pulse.Adapters.Reddit.{WireAnswer, answered, out_of_budget, failed, Harvest}
use brand_pulse.Adapters.Search.{SearchTools, search_collect, close_search}

-- scrape.Response, of which the adapter reads the three texts.
pub record Page : Type 0 where
  pub html : String
  pub cleaned_html : String
  pub markdown : String

pub record WebTools (W : Type 0) : Type 0 where
  pub scrape : String → W → WireAnswer × W
  pub page_of : String → Reply Page
  pub mark_scraped : String → String
  pub searching : SearchTools W

abbrev min_snippet : ℕ
min_snippet = 500

abbrev pub max_enrichments : ℕ
max_enrichments = 5

abbrev web_prompt : String → String
web_prompt keyword = keyword

-- What enrich leaves: the drafts, the error that stopped it and the others.
pub record Enriched (R : Type 0) : Type 0 where
  pub drafts : List (Mention R)
  pub stop : Option String
  pub problems : List String

module _ {W : Type 0} (t : WebTools W) where
  -- scrape.Decode
  unfoldable pub decode_page : String → Reply Page
  decode_page raw = elim (t.page_of raw) [
    | err e ↦ err ("scrape: decoding response: " ^^ e)
    | ok page ↦
        if is_empty page.html && (is_empty page.markdown && is_empty page.cleaned_html)
        then err "scrape: response carries no html, cleanedHtml or markdown"
        else ok page
  ]

  -- the markdown of a page, or the error of a turn that goes on
  unfoldable pub page_text : String → String → Reply String
  unfolding decode_page
  page_text url raw = elim (decode_page raw) [
    | err e ↦ err ("web: scraping " ^^ url ^^ ": " ^^ e)
    | ok page ↦
        if is_empty page.markdown
        then err ("web: scraping " ^^ url ^^ ": response carries no markdown")
        else ok page.markdown
  ]

  module _ {R : Type 0} where
    -- a draft, the error of its turn and what the turns for the others leave
    abbrev next_draft : Mention R → List String → Enriched R → Enriched R
    next_draft d problems rest = record rest {
      drafts = d ∷ rest.drafts;
      problems = problems ++ rest.problems;
    }

    unfoldable pub take_page : Mention R → String → Enriched R → Enriched R
    unfolding page_text
    take_page d raw rest = elim (page_text d.url raw) [
      | err e ↦ next_draft d (e ∷ []) rest
      | ok body ↦ next_draft (record d { text = body; raw = t.mark_scraped d.raw }) [] rest
    ]

    -- what a turn makes of Scrape's answer; `others` are the turns for the drafts after it
    unfoldable pub settle_page :
        Mention R → List (Mention R) → WireAnswer → W → (W → Enriched R × W) → Enriched R × W
    unfolding take_page
    settle_page d ds (out_of_budget e) w others =
        (record { drafts = d ∷ ds; stop = some e; problems = [] }, w)
    settle_page d ds (failed e) w others =
        let (rest, w') = others w in
        (next_draft d (("web: scraping " ^^ d.url ^^ ": " ^^ e) ∷ []) rest, w')
    settle_page d ds (answered raw) w others =
        let (rest, w') = others w in (take_page d raw rest, w')

    -- enrich's loop, with `left` pages that may still be fetched
    unfoldable pub enrich_drafts : ℕ → List (Mention R) → W → Enriched R × W
    unfolding settle_page codes
    enrich_drafts zero ds w = (record { drafts = ds; stop = none; problems = [] }, w)
    enrich_drafts (suc left) [] w = (record { drafts = []; stop = none; problems = [] }, w)
    enrich_drafts (suc left) (d ∷ ds) w = elim (leb min_snippet (length (codes d.text))) [
      | true ↦ let (rest, w') = enrich_drafts (suc left) ds w in (next_draft d [] rest, w')
      | false ↦
          let (answer, w') = t.scrape d.url w in
          settle_page d ds answer w' (λ w''. enrich_drafts left ds w'')
    ]

    -- enrich
    unfoldable pub enrich_short : List (Mention R) → W → Enriched R × W
    unfolding enrich_drafts
    enrich_short drafts w = enrich_drafts max_enrichments drafts w

    -- the part of Fetch between Collect and Finalize: enrich, unless the budget has run out
    unfoldable pub enrich_unless_stopped :
        Harvest R → Option String → W → (Harvest R × Option String) × W
    unfolding enrich_short
    enrich_unless_stopped h (some e) w = ((h, some e), w)
    enrich_unless_stopped h none w =
        let (found, w') = enrich_short h.drafts w in
        (
          (record { drafts = found.drafts; problems = h.problems ++ found.problems }, found.stop),
          w',
        )

    -- Fetch
    unfoldable pub fetch_web : BrandProfile → Time → Time → W → (List (Mention R) × List String) × W
    unfolding search_collect enrich_unless_stopped close_search
    fetch_web p start end w =
        let ((h, stop), w') = search_collect t.searching "web" p.keywords web_prompt end w in
        let ((h', stop'), w'') = enrich_unless_stopped h stop w' in
        close_search t.searching "web" h' p start end stop' w''
