-- ===== src/Reads/Aliases.antt =====
-- `find_by_alias` and `read_page`, over a pages table that has the `aliases` column.
use smalt_mcp.Prelude.{
  Bool, true, false, Option, none, some, List, [], ◌∷◌, map, if◌then◌else◌, Text, text_eq, member,
}
use smalt_mcp.Corpus.{External, World, Do, PageRow}
use smalt_mcp.Corpus.Actions.{
  Outcome, done, fail, missing_argument, not_found, ambiguous_alias, settled, ◌>>=◌, ◌>>◌, gets,
  stop_if,
}
use smalt_mcp.Corpus.Pages.{ensure_initialized}
use smalt_mcp.Tools.Links.{absent, value_or}
use smalt_mcp.Reads.Fuzzy.{Score, FuzzyMatch, find_pages_by_alias_fuzzy}

module _ (x : External) where
  -- `_find_pages_by_alias`
  unfoldable pub find_pages_by_alias : World x → Text → List (PageRow x.Rest)
  find_pages_by_alias w alias = x.pages.select (λ r. member alias r.aliases) 10000 w.pages

  abbrev pub first_row : List (PageRow x.Rest) → Option (PageRow x.Rest)
  first_row [] = none
  first_row (r ∷ _) = some r

  -- `_fetch_page_row`
  unfoldable pub fetch_page_row : World x → Text → Option (PageRow x.Rest)
  fetch_page_row w id = first_row (x.pages.select (λ r. text_eq r.id id) 1 w.pages)

  -- How the page of a reply was found.
  pub data PageRead : Type 0 where
    by_id : PageRow x.Rest → PageRead
    resolved_via_alias : PageRow x.Rest → Text → PageRead
    resolved_fuzzily : PageRow x.Rest → Text → Score → Text → PageRead

-- `lower` is `str.lower`, and `threshold` the one of the environment, 3 / 5 by default.
module _ (x : External) (lower : Text → Text) (threshold : Score) where
  -- `matches`, found exactly or by similarity.
  pub data Matches : Type 0 where
    exact : List (PageRow x.Rest) → Matches
    fuzzy : List (FuzzyMatch lower x) → Matches

  abbrev pub exact_or : List (PageRow x.Rest) → Matches → Matches
  exact_or [] other = other
  exact_or (r ∷ rows) other = exact (r ∷ rows)

  unfoldable pub find_by_alias : Option Text → Bool → Do x Matches
  unfolding find_pages_by_alias find_pages_by_alias_fuzzy
  find_by_alias alias try_fuzzy = do
    ensure_initialized x
    stop_if (absent alias) missing_argument
    gets (λ w. exact_or (find_pages_by_alias x w (value_or [] alias)) (
        if try_fuzzy
        then fuzzy (find_pages_by_alias_fuzzy lower x threshold w (value_or [] alias))
        else exact []))

  -- The row behind the only match.
  abbrev pub fetched :
      Text → Option (PageRow x.Rest) → (PageRow x.Rest → PageRead x) → Outcome (PageRead x)
  fetched canonical none reply = fail (not_found canonical)
  fetched canonical (some r) reply = done (reply r)

  abbrev pub read_fuzzy : World x → Text → List (FuzzyMatch lower x) → Outcome (PageRead x)
  read_fuzzy w id [] = fail (not_found id)
  read_fuzzy w id (m ∷ []) =
      fetched m.row.id (fetch_page_row x w m.row.id)
        (λ r. resolved_fuzzily r id m.fuzzy_score m.matched_alias)
  read_fuzzy w id (m ∷ n ∷ matches) =
      fail (ambiguous_alias id true (map (λ a. a.row.id) (m ∷ n ∷ matches)))

  abbrev pub read_alias : World x → Text → Bool → List (PageRow x.Rest) → Outcome (PageRead x)
  read_alias w id try_fuzzy [] =
      if try_fuzzy
      then read_fuzzy w id (find_pages_by_alias_fuzzy lower x threshold w id)
      else fail (not_found id)
  read_alias w id try_fuzzy (m ∷ []) =
      fetched m.id (fetch_page_row x w m.id) (λ r. resolved_via_alias r id)
  read_alias w id try_fuzzy (m ∷ n ∷ matches) =
      fail (ambiguous_alias id false (map (λ r. r.id) (m ∷ n ∷ matches)))

  abbrev pub read_row : World x → Text → Bool → Option (PageRow x.Rest) → Outcome (PageRead x)
  read_row w id try_fuzzy (some r) = done (by_id r)
  read_row w id try_fuzzy none = read_alias w id try_fuzzy (find_pages_by_alias x w id)

  unfoldable pub lookup : World x → Text → Bool → Outcome (PageRead x)
  unfolding fetch_page_row find_pages_by_alias find_pages_by_alias_fuzzy
  lookup w id try_fuzzy = read_row w id try_fuzzy (fetch_page_row x w id)

  unfoldable pub read_page : Option Text → Bool → Do x (PageRead x)
  unfolding lookup
  read_page page_id try_fuzzy = do
    ensure_initialized x
    stop_if (absent page_id) missing_argument
    outcome ← gets (λ w. lookup w (value_or [] page_id) try_fuzzy)
    settled outcome
