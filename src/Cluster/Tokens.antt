-- ===== src/Cluster/Tokens.antt =====
-- internal/cluster/stopwords.go, and Tokenize of tfidf.go. `lower` is strings.ToLower, and `is_word`
-- tells letters, digits and combining marks.
use Prim.Native.Char.{Char}
use brand_pulse.Prelude.{
  Bool, true, false, not, ◌&&◌, String, List, [], ◌∷◌, ◌++◌, keep, length, leb, codes, contains,
  is_empty, ◌^^◌, if◌then◌else◌,
}

abbrev english_stopwords : List String
english_stopwords =
    "about" ∷ "after" ∷ "again" ∷ "against" ∷ "all" ∷ "also" ∷ "am" ∷ "an" ∷ "and" ∷ "any" ∷ "are"
    ∷ "as" ∷ "at" ∷ "back" ∷ "be" ∷ "because" ∷ "been" ∷ "before" ∷ "being" ∷ "between" ∷ "both"
    ∷ "but" ∷ "by" ∷ "can" ∷ "could" ∷ "did" ∷ "do" ∷ "does" ∷ "doing" ∷ "done" ∷ "down" ∷ "during"
    ∷ "each" ∷ "even" ∷ "ever" ∷ "every" ∷ "few" ∷ "for" ∷ "from" ∷ "get" ∷ "got" ∷ "had" ∷ "has"
    ∷ "have" ∷ "having" ∷ "he" ∷ "her" ∷ "here" ∷ "him" ∷ "his" ∷ "how" ∷ "if" ∷ "in" ∷ "into"
    ∷ "is" ∷ "it" ∷ "its" ∷ "just" ∷ "me" ∷ "more" ∷ "most" ∷ "much" ∷ "my" ∷ "no" ∷ "nor" ∷ "not"
    ∷ "now" ∷ "of" ∷ "on" ∷ "one" ∷ "only" ∷ "or" ∷ "other" ∷ "our" ∷ "out" ∷ "over" ∷ "own"
    ∷ "really" ∷ "same" ∷ "she" ∷ "should" ∷ "so" ∷ "some" ∷ "still" ∷ "such" ∷ "than" ∷ "that"
    ∷ "the" ∷ "their" ∷ "them" ∷ "then" ∷ "there" ∷ "these" ∷ "they" ∷ "this" ∷ "those" ∷ "through"
    ∷ "to" ∷ "too" ∷ "under" ∷ "until" ∷ "up" ∷ "us" ∷ "very" ∷ "was" ∷ "we" ∷ "were" ∷ "what"
    ∷ "when" ∷ "where" ∷ "which" ∷ "while" ∷ "who" ∷ "why" ∷ "will" ∷ "with" ∷ "would" ∷ "you"
    ∷ "your" ∷ []

abbrev hinglish_stopwords : List String
hinglish_stopwords =
    "aur" ∷ "bahut" ∷ "bhai" ∷ "bhi" ∷ "bohot" ∷ "hai" ∷ "hain" ∷ "ka" ∷ "kaise" ∷ "kar" ∷ "karo"
    ∷ "ke" ∷ "ki" ∷ "ko" ∷ "kya" ∷ "kyun" ∷ "me" ∷ "mein" ∷ "nahi" ∷ "nahin" ∷ "par" ∷ "pe" ∷ "sab"
    ∷ "se" ∷ "tha" ∷ "thi" ∷ "toh" ∷ "vo" ∷ "wala" ∷ "wali" ∷ "woh" ∷ "yaar" ∷ "ye" ∷ "yeh" ∷ []

-- the set that init fills
abbrev pub stopwords : List String
stopwords = english_stopwords ++ hinglish_stopwords

-- the end of a word, if there is one
unfoldable pub flush : String → List String → List String
flush word rest = if is_empty word then rest else word ∷ rest

-- strings.FieldsFunc, inside `word`
unfoldable pub fields_from : (Char → Bool) → String → String → List String
unfolding flush
fields_from is_word word String.[] = flush word []
fields_from is_word word (String.◌∷◌ c s) = elim (is_word c) [
  | true ↦ fields_from is_word (word ^^ String.◌∷◌ c String.[]) s
  | false ↦ flush word (fields_from is_word "" s)
]

-- two runes at least, and no stopword
unfoldable pub is_token : String → Bool
unfolding codes contains
is_token word = leb 2 (length (codes word)) && not (contains word stopwords)

unfoldable pub tokenize : (String → String) → (Char → Bool) → String → List String
unfolding fields_from is_token
tokenize lower is_word text = keep is_token (fields_from is_word "" (lower text))
