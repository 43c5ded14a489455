-- ===== src/Reads/Resolve.antt =====
-- How `read_page` finds a page.
use smalt_mcp.Prelude.{
  any, All, ◌&&◌, text_eq, member, ◌≡◌, refl, Bool, true, false, Option, none, some, List, [], ◌∷◌,
  Text, subst,
}
use smalt_mcp.Corpus.{External, World, PageRow}
use smalt_mcp.Corpus.Actions.{done}
use smalt_mcp.Reads.Fuzzy.{Score, FuzzyMatch, find_pages_by_alias_fuzzy}
use smalt_mcp.Reads.Rows.{
  rows_of, InTable, fetch_page_row-some, fetch_page_row-none, find_pages_by_alias-has,
  find_pages_by_alias-one, find_pages_by_alias-none,
}
use smalt_mcp.Reads.Scores.{IsMatch, find_pages_by_alias_fuzzy-IsMatch}
use smalt_mcp.Reads.Aliases.{
  find_pages_by_alias, fetch_page_row, fetched, PageRead, by_id, resolved_via_alias,
  resolved_fuzzily, read_fuzzy, read_alias, read_row, lookup,
}

module _ (x : External) (lower : Text → Text) (threshold : Score) (w : World x) where
  -- No page has the id.
  abbrev pub HasNoRow : Text → Type 0
  HasNoRow id = any (λ r. text_eq r.id id) (rows_of x w) ≡ false

  -- A row of the table with the id.
  abbrev pub IsRow : Text → PageRow x.Rest → Type 0
  IsRow id r = (text_eq r.id id ≡ true) × InTable x w r

  -- The row has the alias, and no other row has it: a test finds among the rows with the alias what it
  -- finds of this one.
  abbrev pub IsAloneWith : Text → PageRow x.Rest → Type 0
  IsAloneWith alias m =
      (member alias m.aliases ≡ true)
      × ((q : PageRow x.Rest → Bool) → any (λ r. q r && member alias r.aliases) (rows_of x w) ≡ q m)

  -- Why a page was returned for an id: it has the id; or no page has it, and it is an alias of one page
  -- alone, whose id the returned page has; or it is nobody's alias, and one page alone is found with a
  -- similar alias, and the returned page has the id of that page.
  abbrev pub IsResolved : Text → PageRead x → Type 0
  IsResolved id (by_id r) = IsRow id r
  IsResolved id (resolved_via_alias r alias) =
      (alias ≡ id) × HasNoRow id × (m : PageRow x.Rest) × IsAloneWith id m × IsRow m.id r
  IsResolved id (resolved_fuzzily r alias score matched) =
      (alias ≡ id)
      × HasNoRow id
      × (any (λ r. member id r.aliases) (rows_of x w) ≡ false)
      × (m : FuzzyMatch lower x) × (find_pages_by_alias_fuzzy lower x threshold w id ≡ m ∷ [])
      × IsMatch lower x threshold id m
      × (score ≡ m.fuzzy_score)
      × (matched ≡ m.matched_alias)
      × IsRow m.row.id r

  found-IsMatch :
      (id : Text) (m : FuzzyMatch lower x)
      → find_pages_by_alias_fuzzy lower x threshold w id ≡ m ∷ []
      → IsMatch lower x threshold id m
  found-IsMatch id m found =
      (subst (All (IsMatch lower x threshold id)) found
        (find_pages_by_alias_fuzzy-IsMatch lower x threshold w id).0).0

  found-IsAloneWith :
      (id : Text) (m : PageRow x.Rest) → find_pages_by_alias x w id ≡ m ∷ [] → IsAloneWith id m
  found-IsAloneWith id m found =
      (find_pages_by_alias-has x w id m found, find_pages_by_alias-one x w id m found)

  fetched-some :
      (canonical : Text) (o : Option (PageRow x.Rest)) (f : PageRow x.Rest → PageRead x)
      (reply : PageRead x)
      → fetched x lower threshold canonical o f ≡ done reply
      → (r : PageRow x.Rest) × (o ≡ some r) × (f r ≡ reply)
  fetched-some canonical none f reply h = cc
  fetched-some canonical (some r) f reply h = (r, refl, cc)

  read_fuzzy-IsResolved :
      (id : Text) (ms : List (FuzzyMatch lower x)) (reply : PageRead x)
      → fetch_page_row x w id ≡ none
      → find_pages_by_alias x w id ≡ []
      → find_pages_by_alias_fuzzy lower x threshold w id ≡ ms
      → read_fuzzy x lower threshold w id ms ≡ done reply
      → IsResolved id reply
  read_fuzzy-IsResolved id [] reply no_id no_alias found h = cc
  read_fuzzy-IsResolved id (m ∷ []) reply no_id no_alias found h =
      let (r, got, same) = fetched-some m.row.id _ _ reply h in
      subst (IsResolved id) same (
        refl,
        fetch_page_row-none x w id no_id,
        find_pages_by_alias-none x w id no_alias,
        m,
        found,
        found-IsMatch id m found,
        refl,
        refl,
        fetch_page_row-some x w m.row.id r got,
      )
  read_fuzzy-IsResolved id (m ∷ n ∷ ms) reply no_id no_alias found h = cc

  read_alias-IsResolved :
      (id : Text) (try_fuzzy : Bool) (rows : List (PageRow x.Rest)) (reply : PageRead x)
      → fetch_page_row x w id ≡ none
      → find_pages_by_alias x w id ≡ rows
      → read_alias x lower threshold w id try_fuzzy rows ≡ done reply
      → IsResolved id reply
  read_alias-IsResolved id true [] reply no_id found h =
      read_fuzzy-IsResolved id _ reply no_id found refl h
  read_alias-IsResolved id false [] reply no_id found h = cc
  read_alias-IsResolved id try_fuzzy (m ∷ []) reply no_id found h =
      let (r, got, same) = fetched-some m.id _ _ reply h in
      subst (IsResolved id) same (
        refl,
        fetch_page_row-none x w id no_id,
        m,
        found-IsAloneWith id m found,
        fetch_page_row-some x w m.id r got,
      )
  read_alias-IsResolved id try_fuzzy (m ∷ n ∷ rows) reply no_id found h = cc

  read_row-IsResolved :
      (id : Text) (try_fuzzy : Bool) (o : Option (PageRow x.Rest)) (reply : PageRead x)
      → fetch_page_row x w id ≡ o
      → read_row x lower threshold w id try_fuzzy o ≡ done reply
      → IsResolved id reply
  read_row-IsResolved id try_fuzzy none reply found h =
      read_alias-IsResolved id try_fuzzy _ reply found refl h
  read_row-IsResolved id try_fuzzy (some r) reply found h =
      let same : by_id r ≡ reply = cc in
      subst (IsResolved id) same (fetch_page_row-some x w id r found)

  -- A page that `read_page` returns is a row of the pages table that has the id; or no row has the id,
  -- exactly one row has it as an alias, and the page has the id of that row; or no row has it as an
  -- alias either, the fuzzy lookup finds exactly one row, by an alias whose similarity to the id reaches
  -- the threshold, and the page has the id of that row.
  pub lookup-IsResolved :
      (id : Text) (try_fuzzy : Bool) (reply : PageRead x)
      → lookup x lower threshold w id try_fuzzy ≡ done reply
      → IsResolved id reply
  unfolding lookup
  lookup-IsResolved id try_fuzzy reply h = read_row-IsResolved id try_fuzzy _ reply refl h
