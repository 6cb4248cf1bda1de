-- ===== src/Models/Brand.antt =====
-- internal/models/models.go: the brand profile and its validation.
use brand_pulse.Prelude.{
  ℕ, String, List, [], ◌∷◌, Option, none, some, Dict, ltb, is_empty, if◌then◌else◌,
}
use brand_pulse.Models.Labels.{Source, source_valid}

pub record BrandVoice : Type 0 where
  pub tone : String
  pub language : String
  pub signature : String
  pub do_not_say : List String

pub record BrandProfile : Type 0 where
  pub brand_id : String
  pub name : String
  pub website : String
  pub keywords : List String
  pub hashtags : List String
  pub products : List String
  pub competitors : List String
  pub sources : List Source
  pub negative_keywords : List String
  pub source_handles : Dict String
  pub voice : BrandVoice
  pub version : ℕ

unfoldable new_brand_voice : BrandVoice
new_brand_voice = record {
  tone = "warm, direct, no corporate filler";
  language = "English with light Hinglish if the mention is Hinglish";
  signature = "";
  do_not_say = [];
}

unfoldable pub new_brand_profile : String → String → BrandProfile
unfolding new_brand_voice
new_brand_profile brand_id name = record {
  brand_id = brand_id;
  name = name;
  website = "";
  keywords = [];
  hashtags = [];
  products = [];
  competitors = [];
  sources = [];
  negative_keywords = [];
  source_handles = [];
  voice = new_brand_voice;
  version = 1;
}

-- What BrandProfile.Validate refuses.
pub data ProfileError : Type 0 where
  no_brand_id : ProfileError
  bad_version : ℕ → ProfileError
  unknown_source : Source → ProfileError

unfoldable validate_sources : List Source → Option ProfileError
unfolding source_valid
validate_sources [] = none
validate_sources (s ∷ rest) =
    if source_valid s then validate_sources rest else some (unknown_source s)

unfoldable validate_profile : BrandProfile → Option ProfileError
unfolding validate_sources
validate_profile p =
    if is_empty p.brand_id
    then some no_brand_id
    else if ltb p.version 1
    then some (bad_version p.version)
    else validate_sources p.sources
