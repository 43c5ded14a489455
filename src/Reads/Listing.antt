-- ===== src/Reads/Listing.antt =====
-- `list_pages` and `list_domains`.
use smalt_mcp.Prelude.{
  ℕ, ◌+◌, ◌*◌, Bool, true, false, ◌&&◌, Option, none, some, List, [], ◌∷◌, ◌++◌, map, length, keep,
  min, max, if◌then◌else◌, Text, codes, text_eq, leb, ltb,
}
use smalt_mcp.Schema.{PageType, entity, concept, source, synthesis, index}
use smalt_mcp.Storage.Paths.{FilePath}
use smalt_mcp.Corpus.{External, World, Do, PageRow}
use smalt_mcp.Corpus.Actions.{Outcome, done, fail, settled, ◌>>=◌, ◌>>◌, pure, gets}
use smalt_mcp.Corpus.Pages.{ensure_initialized}
use smalt_mcp.Indexer.Order.{text_le, sort_by}
use smalt_mcp.Tools.Links.{absent, value_or}
use smalt_mcp.Reads.Filters.{
  Moment, FilterArgs, Filters, has_filters, parse_property_filters, apply_property_filters,
}

-- `PageType.value`
abbrev pub type_value : PageType → Text
type_value entity = codes "entity"
type_value concept = codes "concept"
type_value source = codes "source"
type_value synthesis = codes "synthesis"
type_value index = codes "index"

-- An entry of `pages`, of `matches` or of `domains`.
pub record PageRef : Type 0 where
  pub id : Text
  pub title : Text
  pub type : PageType
  pub path : FilePath

pub record PageList : Type 0 where
  pub pages : List PageRef
  pub count : ℕ
  pub truncated : Bool

-- `fetch_limit`
abbrev pub fetch_limit : Bool → ℕ → ℕ
fetch_limit has_props limit = min (if has_props then max (limit * 10) 1000 else limit) 10000

module _ {Row : Type 0} where
  abbrev pub prepend : Row → Outcome (List Row) → Outcome (List Row)
  prepend r (fail e) = fail e
  prepend r (done rows) = done (r ∷ rows)

  -- The body of the loop at a row, given the rest of the loop with one more row found and with none.
  abbrev pub collect_row :
      Outcome Bool → Bool → Row → Outcome (List Row) → Outcome (List Row) → Outcome (List Row)
  collect_row (fail e) full r more same = fail e
  collect_row (done false) full r more same = same
  collect_row (done true) true r more same = done (r ∷ [])
  collect_row (done true) false r more same = prepend r more

  -- The loop over the fetched rows; `found` rows are in the output already.
  unfoldable pub collect : (Row → Outcome Bool) → ℕ → ℕ → List Row → Outcome (List Row)
  collect test limit found [] = done []
  collect test limit found (r ∷ rows) =
      collect_row (test r) (leb limit (found + 1)) r (collect test limit (found + 1) rows)
        (collect test limit found rows)

-- `like p s` is SQL's `s LIKE p`, which LanceDB evaluates.
module _ (x : External) (fromisoformat : Text → Option Moment) (like : Text → Text → Bool) where
  abbrev page_ref : PageRow x.Rest → PageRef
  page_ref r = record { id = r.id; title = r.title; type = r.type; path = r.path }

  -- `where_parts`: an empty text is no filter.
  abbrev pub where_parts : Option Text → Option Text → PageRow x.Rest → Bool
  where_parts type prefix r =
      (if absent type then true else text_eq (type_value r.type) (value_or [] type))
      && (if absent prefix then true else like (value_or [] prefix ++ codes "%") r.id)

  abbrev pub passes_props : Filters → PageRow x.Rest → Outcome Bool
  passes_props f r =
      if has_filters f then apply_property_filters fromisoformat r.frontmatter f else done true

  -- The answer from the fetched rows.
  unfoldable pub list_rows : Filters → ℕ → List (PageRow x.Rest) → Outcome (List (PageRow x.Rest))
  unfolding collect
  list_rows f limit rows = collect (passes_props f) limit 0 rows

  unfoldable pub list_pages : Option Text → Option Text → ℕ → FilterArgs → Do x PageList
  unfolding list_rows parse_property_filters
  list_pages type prefix limit args = do
    ensure_initialized x
    f ← settled (parse_property_filters fromisoformat args)
    rows ←
        gets (λ w.
          x.pages.select (where_parts type prefix) (fetch_limit (has_filters f) limit) w.pages)
    listed ← settled (list_rows f limit rows)
    pure (record {
      pages = map page_ref listed;
      count = length listed;
      truncated =
          has_filters f
          && leb (fetch_limit (has_filters f) limit) (length rows)
          && ltb (length listed) limit;
    })

module _ (x : External) where
  abbrev is_concept : PageType → Bool
  is_concept concept = true
  is_concept _ = false

  -- `fm.get("is_domain") is True`
  abbrev flagged : Option Bool → Bool
  flagged none = false
  flagged (some b) = b

  unfoldable pub domain_rows : World x → List (PageRow x.Rest)
  unfolding sort_by
  domain_rows w =
      sort_by (λ a b. text_le a.id b.id)
        (keep (λ r. flagged r.frontmatter.is_domain)
          (x.pages.select (λ r. is_concept r.type) 10000 w.pages))

  unfoldable pub list_domains : Do x PageList
  unfolding domain_rows
  list_domains = do
    ensure_initialized x
    rows ← gets (λ w. domain_rows w)
    pure (record {
      pages = map (λ r. record { id = r.id; title = r.title; type = r.type; path = r.path }) rows;
      count = length rows;
      truncated = false;
    })
