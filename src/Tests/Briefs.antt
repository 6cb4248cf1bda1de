-- ===== src/Tests/Briefs.antt =====
-- A brief of a quiet day, and a search of Reddit that the budget stops.
use brand_pulse.Prelude.{
  itoa, join, map, ℕ, suc, arith, ◌+◌, ◌≤◌, ◌≡◌, refl, true, String, List, [], ◌∷◌, ◌++◌, length,
  take, ◌==◌, codes, All, ok, err, Thousandths, thousandths, str_eq, if◌then◌else◌,
}
use brand_pulse.Models.Mention.{Mention}
use brand_pulse.Orchestrator.Env.{BriefInput}
use brand_pulse.Briefer.{clean_actions, max_suggested_actions, write, rendered_brief, handle}
use brand_pulse.Briefer.Prompt.{BriefResponse, Tools}
use brand_pulse.Briefer.Format.{Bytes, Printer, string_of, commas}
use brand_pulse.Briefer.Commas.{AreThousands, commas_separate_thousands}
use brand_pulse.Briefer.Contract.{spoken, clean_actions-eq-take, IsFaithful, handle_keeps_limit}
use brand_pulse.Adapters.Mentions.{Closing, total, negative_pattern}
use brand_pulse.Adapters.Mentions
use brand_pulse.Adapters.Kept.{IsWanted, IsStamped, finalize-IsStamped}
use brand_pulse.Adapters.Reddit.{
  WireAnswer, answered, out_of_budget, fetch, search_each, search_for, settle_answer,
}
use brand_pulse.Adapters.Reddit
use brand_pulse.Adapters.Web
use brand_pulse.Adapters.Pages.{bare, enrich_short-IsFrugal}
use brand_pulse.Adapters.Stops.{fetch_stops_at_budget}
use brand_pulse.Tests.Data.{noon, profile, post, no_voice}

abbrev same_bytes : Bytes → Bytes
same_bytes text = text

abbrev same_text : String → String
same_text s = s

-- Its texts have no bytes, which is enough for a short brief.
abbrev printer : Printer Thousandths
printer = record {
  shortest = λ r. "1";
  fixed2 = λ r. "1.00";
  day = λ at. "20 Sep";
  date = λ at. "20 Sep 2026";
  minute = λ at. "20 Sep 2026 12:00 UTC";
  link_text = same_text;
  one_space = same_text;
  redact = same_text;
  bytes = λ text. 65 ∷ [];
  of_bytes = λ text. "A";
  trim = same_bytes;
  is_utf8 = λ text. true;
}

abbrev actions : List String
actions = "reply" ∷ "" ∷ "call" ∷ []

clean_actions-eq-take_example :
    clean_actions printer actions ≡ take max_suggested_actions (spoken printer actions)
clean_actions-eq-take_example = clean_actions-eq-take printer actions

commas_separate_thousands_example :
    (g : List ℕ) × (gs : List (List ℕ)) × AreThousands (codes (itoa 1204)) g gs
    × (commas 1204 ≡ join "," (map string_of (g ∷ gs)))
commas_separate_thousands_example = commas_separate_thousands 1204

comma_test : commas 1204 ≡ "1,204"
unfolding commas string_of
comma_test = refl

abbrev closing : Closing ℕ
closing = record {
  compile = λ pattern text. str_eq text "boult";
  quote = same_text;
  trim = same_text;
  hash = λ text source. "h";
  new_id = λ n. ("mnt_1", suc n);
}

abbrev drafts : List (Mention Thousandths)
drafts = post "m1" "" "x" noon ∷ post "m2" "" "nowhere" noon ∷ []

finalize-IsStamped_example :
    All
      (λ m.
        IsWanted (negative_pattern closing profile.negative_keywords) noon (noon + 1) m
        × IsStamped closing profile.brand_id m)
      (Mentions.finalize closing drafts profile noon (noon + 1) 0).0.0
    × (length (Mentions.finalize closing drafts profile noon (noon + 1) 0).0.0
          + total (Mentions.finalize closing drafts profile noon (noon + 1) 0).0.1
        ≡ length drafts)
finalize-IsStamped_example = finalize-IsStamped closing drafts profile noon (noon + 1) 0

-- the second search runs out of credits
abbrev reddit : Reddit.Tools ℕ
reddit = record {
  wire =
      λ site keyword opt n. (if n == 0 then answered "{}" else out_of_budget "no credits", suc n);
  payload = λ raw. err "no payload";
  decode = λ raw. err "no posts";
  parse_time = λ text. err "no time";
  cut_tail = same_text;
  raw_of = same_text;
  closing = closing;
}

fetch_stops_at_budget_example :
    fetch {R = Thousandths} reddit
      (record profile { keywords = ("boAt" ∷ "boult" ∷ []) ++ "noise" ∷ [] })
      noon
      noon
      0
    ≡ fetch reddit (record profile { keywords = "boAt" ∷ "boult" ∷ [] }) noon noon 0
unfolding search_each settle_answer
fetch_stops_at_budget_example =
    fetch_stops_at_budget reddit profile ("boAt" ∷ "boult" ∷ []) ("noise" ∷ []) noon noon 0 refl

abbrev said : BriefResponse
said = record {
  headline = "A quiet day";
  narrative = "Nothing moved.";
  suggested_actions = actions;
}

-- Each byte is written as one letter.
unfoldable letters : Bytes → String
letters [] = ""
letters (b ∷ bs) = String.◌∷◌ "a" (letters bs)

length-codes-letters : (text : Bytes) → length (codes (letters text)) ≡ length text
unfolding codes letters
length-codes-letters [] = refl
length-codes-letters (b ∷ bs) = omega (arith, length-codes-letters bs)

abbrev faithful_printer : Printer Thousandths
unfolding letters codes
faithful_printer = record printer { bytes = codes; of_bytes = letters }

faithful_printer-IsFaithful : IsFaithful faithful_printer
unfolding faithful_printer codes
faithful_printer-IsFaithful = record {
  same_length = length-codes-letters;
  trim_shortens = λ text. omega arith;
}

abbrev tools : Tools Thousandths ℕ
unfolding faithful_printer
tools = record {
  chat = λ prompt opt n.
      ((ok "raw", record { prompt_tokens = 3; completion_tokens = 2; cost_paise = 1 }), suc n);
  render = λ fields. ok "prompt";
  decode = λ raw. ok said;
  printer = faithful_printer;
}

abbrev input : BriefInput Thousandths
input = record {
  brand_id = "boat";
  profile = profile;
  period = "";
  period_start = noon;
  period_end = noon;
  topics = [];
  alerts = [];
  sov = no_voice;
  numbers = record {
    mentions = 1204;
    mentions_delta_pct = 0;
    sentiment_avg = 0;
    negative_share = 0;
    share_of_voice = 0;
  };
}

handle_keeps_limit_example :
    ((handle tools input 0).0 ≡ ok (rendered_brief tools input said))
    × ((rendered_brief tools input said).numbers ≡ input.numbers)
    × (length (rendered_brief tools input said).suggested_actions ≤ 4)
    × (length (tools.printer.bytes (rendered_brief tools input said).whatsapp_short) ≤ 600)
unfolding write tools faithful_printer
handle_keeps_limit_example =
    handle_keeps_limit tools faithful_printer-IsFaithful input 0 said (λ q. cc q) refl

abbrev same_count : ℕ → ℕ
same_count n = n

abbrev web : Web.WebTools ℕ
web = record {
  scrape = λ url n. (answered "{}", suc n);
  page_of = λ raw. ok (record { html = ""; cleaned_html = ""; markdown = "the whole page" });
  mark_scraped = same_text;
  searching = record {
    search = λ prompt limit n. (out_of_budget "no credits", n);
    results_of = λ raw. ok [];
    parse_day = λ text. err "no day";
    raw_of = λ date updated precision. precision;
    closing = closing;
  };
}

enrich_short-IsFrugal_example :
    (map bare (Web.enrich_short web drafts 0).0.drafts ≡ map bare drafts)
    × ((Web.enrich_short web drafts 0).1 ≤ 0 + 5)
enrich_short-IsFrugal_example = enrich_short-IsFrugal web same_count (λ url n. omega arith) drafts 0
