-- ===== src/Tools/Remove.antt =====
-- `remove_page` and `reindex_page` of src/smalt_mcp/tools.py.
use smalt_mcp.Prelude.{
  ℕ, Bool, Option, none, some, List, [], ◌∷◌, if◌then◌else◌, Text, codes, text_eq,
}
use smalt_mcp.Storage.Paths.{FilePath}
use smalt_mcp.Corpus.{External, World, Do, IndexResult, LinkRow}
use smalt_mcp.Corpus.Actions.{
  done, fail, missing_argument, not_found, file_not_found, ◌>>=◌, ◌>>◌, pure, stop, gets, or_stop,
}
use smalt_mcp.Corpus.Files.{read_file, unlink}
use smalt_mcp.Corpus.Pages.{parse_page, ensure_initialized, with_mutex, existing_page_path}
use smalt_mcp.Indexer.{iter_page_files}
use smalt_mcp.Indexer.Run.{run_with, only_paths, never, record_indexer_run}
use smalt_mcp.Tools.Links.{absent, value_or}

pub record PageRemoved : Type 0 where
  pub id : Text
  pub file : FilePath
  pub outgoing_links : ℕ
  pub incoming_links : ℕ
  pub claims : ℕ

pub record PageReindexed : Type 0 where
  pub page_id : Text
  pub path : FilePath
  pub index_result : IndexResult

module _ (x : External) where
  abbrev leaves : Text → LinkRow → Bool
  leaves page_id r = text_eq r.from_id page_id

  abbrev enters : Text → LinkRow → Bool
  enters page_id r = text_eq r.to_id page_id

  -- The cascade of `remove_page` over the tables, and the file.
  unfoldable pub cascade : Text → FilePath → World x → World x
  cascade page_id path w = record w {
    files = unlink path w.files;
    pages = x.pages.delete (λ r. text_eq r.id page_id) w.pages;
    embeddings = x.embeddings.delete (λ r. text_eq r.page_id page_id) w.embeddings;
    links = x.links.delete (enters page_id) (x.links.delete (leaves page_id) w.links);
    claims = x.claims.delete (λ r. text_eq r.page_id page_id) w.claims;
  }

  -- The counts, and then the cascade.
  unfoldable pub erase_page : Text → FilePath → Do x PageRemoved
  unfolding cascade
  erase_page page_id path w = (
    done (record {
      id = page_id;
      file = path;
      outgoing_links = x.links.count (leaves page_id) w.links;
      incoming_links = x.links.count (enters page_id) w.links;
      claims = x.claims.count (λ r. text_eq r.page_id page_id) w.claims;
    }),
    cascade page_id path w,
  )

  unfoldable pub remove_page_locked : Text → Do x PageRemoved
  unfolding erase_page
  remove_page_locked page_id = do
    existing ← gets (λ w. existing_page_path x w page_id)
    path ← or_stop existing (not_found page_id)
    erase_page page_id path

  unfoldable pub remove_page : Option Text → Do x PageRemoved
  unfolding remove_page_locked
  remove_page page_id =
      ensure_initialized x
      >> (if absent page_id
          then stop missing_argument
          else with_mutex x (codes "remove_page") (remove_page_locked (value_or [] page_id)))

  -- `_find_page_file_by_id`: the walk over `paths`, which skips what does not parse.
  unfoldable pub find_page_file_by_id : World x → Text → List FilePath → Option FilePath
  find_page_file_by_id w page_id [] = none
  find_page_file_by_id w page_id (path ∷ paths) =
      let rest = find_page_file_by_id w page_id paths in
      elim (parse_page x w.files path) [
        | none ↦ rest
        | some p ↦ if text_eq p.frontmatter.id page_id then some path else rest
      ]

  -- The file to index: the indexed path, or the first file of the walk with the id.
  unfoldable pub reindex_target : Text → Do x FilePath
  unfolding find_page_file_by_id
  reindex_target page_id w = elim (existing_page_path x w page_id) [
    | some path ↦ elim (read_file path w.files) [
      | none ↦ (fail (file_not_found page_id), w)
      | some _ ↦ (done path, w)
    ]
    | none ↦ elim (find_page_file_by_id w page_id (iter_page_files x w)) [
      | none ↦ (fail (not_found page_id), w)
      | some path ↦ (done path, w)
    ]
  ]

  unfoldable pub reindex_page_locked : Text → Do x PageReindexed
  unfolding reindex_target
  reindex_page_locked page_id = do
    path ← reindex_target page_id
    index_result ← run_with x (only_paths (path ∷ [])) (never x)
    record_indexer_run x index_result
    pure (record { page_id = page_id; path = path; index_result = index_result })

  unfoldable pub reindex_page : Option Text → Do x PageReindexed
  unfolding reindex_page_locked
  reindex_page page_id =
      ensure_initialized x
      >> (if absent page_id
          then stop missing_argument
          else with_mutex x (codes "reindex_page") (reindex_page_locked (value_or [] page_id)))
