-- ===== src/Tests/Voice.antt =====
-- The share of voice of three mentions, one of them about a competitor.
use brand_pulse.Prelude.{◌≡◌, [], ◌∷◌, length, String, thousandths, Thousandths, arith}
use brand_pulse.Models.Mention.{EnrichedMention}
use brand_pulse.Orchestrator.Env.{SovInput}
use brand_pulse.Sov.{attribute, handle, share_of}
use brand_pulse.Sov.Shares.{count_name, names, handle_brand_share}
use brand_pulse.Tests.Data.{noon, profile, enriched_post, reading}

abbrev same : String → String
same s = s

abbrev rival : EnrichedMention Thousandths
rival = record (enriched_post "m3" "x" noon) {
  enrichment = record (reading "m3") { about_competitor = "Noise" };
}

abbrev input : SovInput Thousandths
input = record {
  enriched = enriched_post "m1" "x" noon ∷ enriched_post "m2" "reddit" noon ∷ rival ∷ [];
  profile = record profile { name = "boAt"; competitors = "Noise" ∷ [] };
  window_start = noon;
  window_end = noon;
}

handle_brand_share_example :
    (handle same same input).brand_share
    ≡ share_of {R = Thousandths}
        (count_name "boAt" (names same same input))
        (length (names same same input))
unfolding attribute
handle_brand_share_example = handle_brand_share same same input (omega arith)
