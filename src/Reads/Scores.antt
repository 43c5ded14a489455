-- ===== src/Reads/Scores.antt =====
-- What the fuzzy lookup by alias finds.
use smalt_mcp.Prelude.{
  ◌≡◌, refl, ap, subst, arith, true, false, Option, none, some, List, [], ◌∷◌, length, Text,
  text_eq_refl, ◌==◌, member, All, All-append, inl, inr, Bool-cases,
}
use smalt_mcp.Corpus.{External, World, PageRow}
use smalt_mcp.Indexer.Order.{IsSorted, sort_by-IsSorted, text_le_total, All-sort_by}
use smalt_mcp.Reads.Fuzzy.{
  Score, no_score, score_le, round_4, trigram_set, jaccard_trigram, best_alias, FuzzyMatch,
  admitted, score_rows, better_first, find_pages_by_alias_fuzzy,
}

module _ (lower : Text → Text) where
  -- The best alias so far, if there is one, has the score beside it.
  abbrev IsScored : Text → List Text → Score × Option Text → Type 0
  IsScored query aliases (score, none) = Unit
  IsScored query aliases (score, some alias) =
      (member alias aliases ≡ true) × (score ≡ jaccard_trigram lower query alias)

  best_alias-IsScored :
      (query : Text) (all : List Text) (best : Score) (found : Option Text) (aliases : List Text)
      → ((a : Text) → member a aliases ≡ true → member a all ≡ true)
      → IsScored query all (best, found)
      → IsScored query all (best_alias lower query best found aliases)
  unfolding best_alias
  best_alias-IsScored query all best found [] sub h = h
  best_alias-IsScored query all best found (alias ∷ aliases) sub h =
      elim (Bool-cases (score_le (jaccard_trigram lower query alias) best)) [
        | inl e ↦
            rw e (
              best_alias-IsScored query all best found aliases (λ a k. sub a (ground (arith, k))) h)
        | inr e ↦ rw e (
            best_alias-IsScored query all (jaccard_trigram lower query alias) (some alias) aliases
              (λ a k. sub a (ground (arith, k)))
              (sub alias (ground (arith, text_eq_refl alias)), refl))
      ]

  module _ (x : External) where
    -- The alias is one of the row's, its similarity to the query is the score of the match and reaches
    -- the threshold, and the reported score is the similarity rounded to four digits.
    pub record IsMatch (threshold : Score) (query : Text) (m : FuzzyMatch lower x) : Type 0 where
      pub of_row : member m.matched_alias m.row.aliases ≡ true
      pub scored : m.best_score ≡ jaccard_trigram lower query m.matched_alias
      pub reached : score_le threshold (jaccard_trigram lower query m.matched_alias) ≡ true
      pub reported : m.fuzzy_score ≡ round_4 (jaccard_trigram lower query m.matched_alias)

    admitted-IsMatch :
        (threshold : Score) (query : Text) (r : PageRow x.Rest) (b : Score × Option Text)
        → IsScored query r.aliases b
        → All (IsMatch threshold query) (admitted lower x threshold r b)
    admitted-IsMatch threshold query r (score, none) h = tt
    admitted-IsMatch threshold query r (score, some alias) h =
        elim (Bool-cases (score_le threshold score)) [
          | inl e ↦ rw e (
            record {
              of_row = h.0;
              scored = h.1;
              reached = subst (λ s. score_le threshold s ≡ true) h.1 e;
              reported = ap round_4 h.1;
            },
            tt,
          )
          | inr e ↦ rw e tt
        ]

    score_rows-IsMatch :
        (threshold : Score) (query : Text) (rows : List (PageRow x.Rest))
        → All (IsMatch threshold query) (score_rows lower x threshold query rows)
    unfolding score_rows
    score_rows-IsMatch threshold query [] = tt
    score_rows-IsMatch threshold query (r ∷ rows) =
        All-append _ _ _
          (admitted-IsMatch threshold query r _
            (best_alias-IsScored query r.aliases no_score none r.aliases (λ a k. k) tt))
          (score_rows-IsMatch threshold query rows)

    better_first_total :
        (a b : FuzzyMatch lower x)
        → better_first lower x a b ≡ false
        → better_first lower x b a ≡ true
    better_first_total a b h = ground (arith, h, text_le_total a.row.id b.row.id)

    -- Every page that the fuzzy lookup returns has an alias whose similarity to the query reaches the
    -- threshold, and the reported score is this similarity rounded to four digits; higher similarities
    -- come first, and equal ones by id.
    pub find_pages_by_alias_fuzzy-IsMatch :
        (threshold : Score) (w : World x) (query : Text)
        → All (IsMatch threshold query) (find_pages_by_alias_fuzzy lower x threshold w query)
          × IsSorted (better_first lower x) (find_pages_by_alias_fuzzy lower x threshold w query)
    unfolding find_pages_by_alias_fuzzy
    find_pages_by_alias_fuzzy-IsMatch threshold w query =
        elim (Bool-cases (length (trigram_set lower query) == 0)) [
          | inl e ↦ rw e (tt, tt)
          | inr e ↦
              let rows = x.pages.select (λ r. true) 10000 w.pages in
              rw e (
                All-sort_by (better_first lower x) _ _ (score_rows-IsMatch threshold query rows),
                sort_by-IsSorted (better_first lower x) better_first_total
                    (score_rows lower x threshold query rows),
              )
        ]
