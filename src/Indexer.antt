-- ===== src/Indexer.antt =====
-- The indexer: src/smalt_mcp/storage/indexer.py, over files and tables that the state holds.
pub mod Rows
pub mod Prose
pub mod Order
pub mod Run
mod Tests
pub mod Effects
pub mod Counts
pub mod Owned
pub mod Scanned
pub mod Projected
pub mod Fresh
use smalt_mcp.Prelude.{
  ℕ, suc, ◌+◌, Bool, true, false, not, ◌&&◌, ◌||◌, Option, none, some, List, [], ◌∷◌, ◌++◌, map,
  length, any, keep, if◌then◌else◌, Text, codes, text_eq, member, is_some,
}
use smalt_mcp.Schema.{PageType, entity, concept, source, synthesis, index}
use smalt_mcp.Storage.Paths.{FilePath, pages_dir}
use smalt_mcp.Corpus.{
  External, World, Page, Do, PageRow, EmbeddingRow, LinkRow, ClaimRow, IndexResult,
}
use smalt_mcp.Corpus.Actions.{Action, Outcome, done, fail, tool_error, ◌>>=◌, ◌>>◌, pure, stop}
use smalt_mcp.Corpus.Files.{read_file, write_file}
use smalt_mcp.Corpus.Pages.{ParsedPage, parse_page, parse_content}
use smalt_mcp.Indexer.Rows.{page_row, link_rows, claim_rows, truncate_for_embedding}
use smalt_mcp.Indexer.Prose.{Entry, index_body}
use smalt_mcp.Indexer.Order.{text_le, path_le, sort_by}

abbrev pub starts_with : FilePath → FilePath → Bool
starts_with [] path = true
starts_with (a ∷ p) [] = false
starts_with (a ∷ p) (b ∷ q) = text_eq a b && starts_with p q

-- `part` ends in ".md"
abbrev pub is_md : Text → Bool
is_md [] = false
is_md (c ∷ rest) = text_eq (c ∷ rest) (codes ".md") || is_md rest

abbrev pub last_is_md : FilePath → Bool
last_is_md [] = false
last_is_md (part ∷ []) = is_md part
last_is_md (part ∷ next ∷ parts) = last_is_md (next ∷ parts)

abbrev pub is_page_file : FilePath → Bool
is_page_file path = starts_with (pages_dir []) path && last_is_md path

-- Each text once, the last of equal ones.
unfoldable pub distinct : List Text → List Text
distinct [] = []
distinct (t ∷ ts) = let rest = distinct ts in if member t ts then rest else t ∷ rest

abbrev empty_result : IndexResult
empty_result = record {
  scanned = 0;
  inserted = 0;
  updated = 0;
  skipped = 0;
  deleted = 0;
  failed = 0;
  failures = [];
  cancelled = false;
}

module _ (x : External) where
  -- `iter_page_files`
  unfoldable pub iter_page_files : World x → List FilePath
  unfolding sort_by
  iter_page_files w = sort_by path_le (keep is_page_file (map (λ f. f.0) w.files))

  -- `existing_page_hashes`; as in a `dict`, the last row of an id counts.
  unfoldable pub hash_of : Text → List (PageRow x.Rest) → Option Text
  hash_of page_id [] = none
  hash_of page_id (r ∷ rows) =
      let later = hash_of page_id rows in
      if is_some later then later else if text_eq r.id page_id then some r.content_hash else none

  -- `fetch_created_at`, looked up
  unfoldable pub created_of : Text → List (PageRow x.Rest) → Option ℕ
  created_of page_id [] = none
  created_of page_id (r ∷ rows) =
      let later = created_of page_id rows in
      if is_some later then later else if text_eq r.id page_id then some r.created_at else none

  abbrev pub page_ids : List (ParsedPage x) → List Text
  page_ids items = map (λ p. p.frontmatter.id) items

  unfoldable pub page_rows : List (PageRow x.Rest) → ℕ → List (ParsedPage x) → List (PageRow x.Rest)
  unfolding page_row created_of
  page_rows rows now [] = []
  page_rows rows now (p ∷ items) =
      page_row x p now (created_of p.frontmatter.id rows) ∷ page_rows rows now items

  -- `zip(items, vectors, strict=True)`; `none` is its `ValueError`.
  unfoldable pub embedding_rows :
      List (ParsedPage x) → List x.Vector → Option (List (EmbeddingRow x.Vector))
  embedding_rows [] [] = some []
  embedding_rows [] (_ ∷ _) = none
  embedding_rows (_ ∷ _) [] = none
  embedding_rows (p ∷ items) (v ∷ vectors) = elim (embedding_rows items vectors) [
    | none ↦ none
    | some rows ↦
        some (
          record { page_id = p.frontmatter.id; vector = v; model_version = x.model_version } ∷ rows)
  ]

  -- `replace_links_for_page`
  unfoldable pub replace_links_for_page : Text → List LinkRow → x.links.Store → x.links.Store
  replace_links_for_page page_id [] t = x.links.delete (λ r. text_eq r.from_id page_id) t
  replace_links_for_page page_id (row ∷ rows) t =
      x.links.add (row ∷ rows) (x.links.delete (λ r. text_eq r.from_id page_id) t)

  -- `replace_claims_for_page`
  unfoldable pub replace_claims_for_page : Text → List ClaimRow → x.claims.Store → x.claims.Store
  replace_claims_for_page page_id [] t = x.claims.delete (λ r. text_eq r.page_id page_id) t
  replace_claims_for_page page_id (row ∷ rows) t =
      x.claims.add (row ∷ rows) (x.claims.delete (λ r. text_eq r.page_id page_id) t)

  -- "Per-page replace for owned tables."
  unfoldable pub replace_owned : List (ParsedPage x) → World x → World x
  unfolding replace_links_for_page replace_claims_for_page link_rows claim_rows
  replace_owned [] w = w
  replace_owned (p ∷ items) w = replace_owned items (record w {
    links =
        replace_links_for_page p.frontmatter.id (link_rows x p.frontmatter p.frontmatter.id)
          w.links;
    claims =
        replace_claims_for_page p.frontmatter.id (claim_rows x p.frontmatter p.frontmatter.id)
          w.claims;
  })

  -- The writes of `_project`, once the vectors are there.
  unfoldable pub upsert :
      List (ParsedPage x) → Option (List (EmbeddingRow x.Vector)) → Do x (Unit {0})
  unfolding page_rows replace_owned distinct
  upsert items none w = (fail tool_error, w)
  upsert items (some vectors) w =
      let ids = page_ids items in
      let known = x.pages.select (λ r. member r.id ids) (length (distinct ids)) w.pages in
      (
        done tt,
        replace_owned items (record w {
          pages = x.pages.merge (λ r. r.id) (page_rows known w.clock items) w.pages;
          embeddings = x.embeddings.merge (λ r. r.page_id) vectors w.embeddings;
          clock = w.clock + 1;
        }),
      )

  -- `_project`
  unfoldable pub project : List (ParsedPage x) → Do x (Unit {0})
  unfolding upsert embedding_rows truncate_for_embedding
  project [] w = (done tt, w)
  project (p ∷ items) w =
      upsert (p ∷ items)
        (embedding_rows (p ∷ items)
          (x.embed (map (λ q. truncate_for_embedding q.body) (p ∷ items))))
        w

  -- `_delete_page`
  unfoldable pub delete_page : Text → World x → World x
  delete_page page_id w = record w {
    pages = x.pages.delete (λ r. text_eq r.id page_id) w.pages;
    embeddings = x.embeddings.delete (λ r. text_eq r.page_id page_id) w.embeddings;
    links = x.links.delete (λ r. text_eq r.from_id page_id) w.links;
    claims = x.claims.delete (λ r. text_eq r.page_id page_id) w.claims;
  }

  unfoldable pub delete_pages : List Text → World x → World x
  unfolding delete_page
  delete_pages [] w = w
  delete_pages (id ∷ ids) w = delete_pages ids (delete_page id w)

  -- `_refresh_indexes`: no row changes.
  abbrev pub refresh_indexes : Do x (Unit {0})
  refresh_indexes w = (done tt, record w { refreshes = w.refreshes + 1 })
