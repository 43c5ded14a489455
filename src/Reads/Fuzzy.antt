-- ===== src/Reads/Fuzzy.antt =====
-- Trigrams and their Jaccard similarity. A score is an exact fraction; Python's is the float next to
-- it.
use smalt_mcp.Prelude.{
  ℕ, ◌+◌, ◌*◌, ◌/◌, ◌%◌, ltb, Bool, true, not, ◌&&◌, Option, none, some, List, [], ◌∷◌, ◌++◌,
  length, keep, if◌then◌else◌, Text, leb, ◌==◌, member,
}
use smalt_mcp.Corpus.{External, World, PageRow}
use smalt_mcp.Indexer.{distinct}
use smalt_mcp.Indexer.Order.{text_le, sort_by}

-- `numerator / denominator`
pub record Score : Type 0 where
  pub numerator : ℕ
  pub denominator : ℕ

abbrev pub no_score : Score
no_score = record { numerator = 0; denominator = 1 }

-- `a <= b`
abbrev pub score_le : Score → Score → Bool
score_le a b = leb (a.numerator * b.denominator) (b.numerator * a.denominator)

-- The digit that a remainder rounds to, a half to the even one.
abbrev round_half : ℕ → ℕ → ℕ → ℕ
round_half digits twice denominator =
    if ltb twice denominator
    then digits
    else if ltb denominator twice
    then digits + 1
    else digits + digits % 2

-- The nearest multiple of one over the scale. Python rounds the float that is next to the fraction.
abbrev rounded : ℕ → Score → Score
rounded scale s =
    let scaled = scale * s.numerator in
    record {
      numerator = round_half (scaled / s.denominator) (2 * (scaled % s.denominator)) s.denominator;
      denominator = scale;
    }

-- `round(score, 4)`
abbrev pub round_4 : Score → Score
round_4 s = rounded 10000 s

-- `round(score, 6)`
abbrev pub round_6 : Score → Score
round_6 s = rounded 1000000 s

-- The slices `s[i : i + 3]`.
unfoldable pub slices : Text → List Text
slices (a ∷ b ∷ c ∷ s) = (a ∷ b ∷ c ∷ []) ∷ slices (b ∷ c ∷ s)
slices _ = []

-- `sa & sb`
abbrev pub common : List Text → List Text → List Text
common sa sb = keep (λ t. member t sb) sa

-- `sa | sb`
abbrev pub joined : List Text → List Text → List Text
joined sa sb = sa ++ keep (λ t. not (member t sa)) sb

abbrev pub similarity : List Text → List Text → Score
similarity [] sb = no_score
similarity (a ∷ sa) [] = no_score
similarity (a ∷ sa) (b ∷ sb) = record {
  numerator = length (common (a ∷ sa) (b ∷ sb));
  denominator = length (joined (a ∷ sa) (b ∷ sb));
}

-- `lower` is `str.lower`.
module _ (lower : Text → Text) where
  -- `_trigram_set`
  unfoldable pub trigram_set : Text → List Text
  unfolding slices distinct
  trigram_set s = distinct (slices (lower s))

  -- `_jaccard_trigram`
  unfoldable pub jaccard_trigram : Text → Text → Score
  unfolding trigram_set
  jaccard_trigram a b = similarity (trigram_set a) (trigram_set b)

  -- The inner loop: the best score so far with its alias, which must be beaten.
  unfoldable pub best_alias : Text → Score → Option Text → List Text → Score × Option Text
  unfolding jaccard_trigram
  best_alias query best found [] = (best, found)
  best_alias query best found (alias ∷ aliases) =
      if score_le (jaccard_trigram query alias) best
      then best_alias query best found aliases
      else best_alias query (jaccard_trigram query alias) (some alias) aliases

  -- An entry of `results`: the score that it is sorted by, and the row that it was made from with what
  -- is reported beside it.
  pub record FuzzyMatch (x : External) : Type 0 where
    pub best_score : Score
    pub row : PageRow x.Rest
    pub fuzzy_score : Score
    pub matched_alias : Text

  module _ (x : External) where
    -- `best_score >= threshold and best_alias is not None`
    abbrev pub admitted : Score → PageRow x.Rest → Score × Option Text → List (FuzzyMatch x)
    admitted threshold r (score, none) = []
    admitted threshold r (score, some alias) =
        if score_le threshold score
        then record {
          best_score = score;
          row = r;
          fuzzy_score = round_4 score;
          matched_alias = alias;
        }
          ∷ []
        else []

    unfoldable pub score_rows : Score → Text → List (PageRow x.Rest) → List (FuzzyMatch x)
    unfolding best_alias
    score_rows threshold query [] = []
    score_rows threshold query (r ∷ rows) =
        admitted threshold r (best_alias query no_score none r.aliases)
        ++ score_rows threshold query rows

    -- `key=lambda triple: (-triple[0], triple[1])`
    abbrev pub better_first : FuzzyMatch x → FuzzyMatch x → Bool
    better_first a b =
        if score_le a.best_score b.best_score
        then score_le b.best_score a.best_score && text_le a.row.id b.row.id
        else true

    -- `_find_pages_by_alias_fuzzy`
    unfoldable pub find_pages_by_alias_fuzzy : Score → World x → Text → List (FuzzyMatch x)
    unfolding score_rows sort_by trigram_set
    find_pages_by_alias_fuzzy threshold w query =
        if length (trigram_set query) == 0
        then []
        else sort_by better_first
            (score_rows threshold query (x.pages.select (λ r. true) 10000 w.pages))
