-- ===== src/Indexer/Run.antt =====
-- `Indexer.run` and `_regenerate_index_pages` of src/smalt_mcp/storage/indexer.py, and
-- `_run_indexer` of src/smalt_mcp/tools.py.
use smalt_mcp.Prelude.{
  ℕ, ◌+◌, Bool, true, false, not, Option, none, some, List, [], ◌∷◌, ◌++◌, map, length, keep,
  if◌then◌else◌, Text, codes, text_eq, member,
}
use smalt_mcp.Schema.{PageType, concept, index}
use smalt_mcp.Storage.Paths.{FilePath}
use smalt_mcp.Corpus.{External, World, Page, Do, PageRow, IndexResult}
use smalt_mcp.Corpus.Actions.{done, ◌>>=◌, ◌>>◌, pure}
use smalt_mcp.Corpus.Files.{read_file, write_file}
use smalt_mcp.Corpus.Pages.{ParsedPage, parse_page}
use smalt_mcp.Indexer.{
  empty_result, distinct, iter_page_files, hash_of, project, delete_pages, refresh_indexes,
}
use smalt_mcp.Indexer.Prose.{Entry, index_body}
use smalt_mcp.Indexer.Order.{text_le, sort_by}

-- An entry of `_CANONICAL_INDEX_PAGES`.
pub record Canonical : Type 0 where
  pub filename : Text
  pub page_id : Text
  pub title : Text
  pub flag : Text
  pub by_domain : Bool

abbrev pub canonical_glossary : Canonical
canonical_glossary = record {
  filename = codes "glossary.md";
  page_id = codes "idx-glossary";
  title = codes "Glossary";
  flag = codes "glossary";
  by_domain = false;
}

abbrev pub canonical_domains : Canonical
canonical_domains = record {
  filename = codes "domains.md";
  page_id = codes "idx-domains";
  title = codes "Domains";
  flag = codes "is_domain";
  by_domain = true;
}

abbrev pub canonical_index_pages : List Canonical
canonical_index_pages = canonical_glossary ∷ canonical_domains ∷ []

-- `fm.get(flag) is True`
abbrev is_true : Option Bool → Bool
is_true none = false
is_true (some b) = b

abbrev is_concept : PageType → Bool
is_concept concept = true
is_concept _ = false

module _ (x : External) where
  abbrev has_flag : Bool → Page x → Bool
  has_flag by_domain page = is_true (if by_domain then page.is_domain else page.glossary)

  abbrev entry_of : PageRow x.Rest → Entry
  entry_of r = record { id = r.id; title = r.title; body = r.body; domains = r.frontmatter.domains }

  -- One bucket of `_collect_concept_entries`.
  unfoldable pub collect_concept_entries : World x → Bool → List Entry
  unfolding sort_by
  collect_concept_entries w by_domain =
      sort_by (λ a b. text_le a.id b.id)
        (map entry_of (
          keep (λ r. has_flag by_domain r.frontmatter)
            (x.pages.select (λ r. is_concept r.type) 100000 w.pages)))

  abbrev pub index_page : Canonical → Page x
  index_page c = record {
    id = c.page_id;
    type = index;
    title = c.title;
    aliases = [];
    links_out = [];
    claims = [];
    domains = [];
    is_domain = none;
    glossary = none;
    fetched_at = none;
    rest = x.index_rest c.flag;
  }

  -- `_format_index_page`
  unfoldable pub format_index_page : Canonical → List Entry → x.Content
  unfolding index_body
  format_index_page c entries = x.dump_page (index_page c) (index_body c.title c.flag entries)

  -- `_file_content_matches`
  unfoldable pub file_content_matches : World x → FilePath → x.Content → Bool
  file_content_matches w path expected = elim (read_file path w.files) [
    | none ↦ false
    | some content ↦ x.content_eq content expected
  ]

  abbrev pub prepend_parsed : Option (ParsedPage x) → List (ParsedPage x) → List (ParsedPage x)
  prepend_parsed none changed = changed
  prepend_parsed (some p) changed = p ∷ changed

  abbrev pub index_path : Canonical → FilePath
  index_path c = codes "pages" ∷ c.filename ∷ []

  -- The loop of `_regenerate_index_pages`; `source` is the state whose pages table it reads.
  unfoldable pub regenerate : World x → List Canonical → World x → List (ParsedPage x) × World x
  unfolding collect_concept_entries format_index_page file_content_matches parse_page
  regenerate start [] w = ([], w)
  regenerate start (c ∷ cs) w =
      let content = format_index_page c (collect_concept_entries start c.by_domain) in
      let written = record w { files = write_file (index_path c) content w.files } in
      let matched = file_content_matches w (index_path c) content in
      let (changed, w') = regenerate start cs (if matched then w else written) in
      (
        (if matched
            then changed
            else prepend_parsed (parse_page x written.files (index_path c)) changed),
        w',
      )

  unfoldable pub regenerate_index_pages : Do x (List (ParsedPage x))
  unfolding regenerate
  regenerate_index_pages w =
      (done (regenerate w canonical_index_pages w).0, (regenerate w canonical_index_pages w).1)

  -- What the scan of the files carries along.
  pub record Scan : Type 0 where
    pub result : IndexResult
    pub seen : List Text
    pub to_index : List (ParsedPage x)

  -- The body of the scan loop at a file that parsed; `old` is the indexed hash of its id.
  unfoldable pub scan_parsed : ParsedPage x → Option Text → Scan → Scan
  scan_parsed p none s = record {
    result = record s.result { inserted = s.result.inserted + 1 };
    seen = p.frontmatter.id ∷ s.seen;
    to_index = s.to_index ++ p ∷ [];
  }
  scan_parsed p (some old) s =
      if text_eq old p.content_hash
      then record {
        result = record s.result { skipped = s.result.skipped + 1 };
        seen = p.frontmatter.id ∷ s.seen;
        to_index = s.to_index;
      }
      else record {
        result = record s.result { updated = s.result.updated + 1 };
        seen = p.frontmatter.id ∷ s.seen;
        to_index = s.to_index ++ p ∷ [];
      }

  -- The body of the scan loop; `rows` stands for `existing_hashes`.
  unfoldable pub scan_file : List (PageRow x.Rest) → FilePath → Option (ParsedPage x) → Scan → Scan
  unfolding scan_parsed hash_of
  scan_file rows path none s = record s {
    result = record s.result {
      failed = s.result.failed + 1;
      failures = s.result.failures ++ path ∷ [];
    };
  }
  scan_file rows path (some p) s = scan_parsed p (hash_of x p.frontmatter.id rows) s

  -- The scan loop. `is_cancelled n` is the answer to the n-th poll.
  unfoldable pub scan_files :
      (ℕ → Bool) → List (PageRow x.Rest) → World x → List FilePath → ℕ → Scan → Scan
  unfolding scan_file parse_page
  scan_files is_cancelled rows w [] n s = s
  scan_files is_cancelled rows w (path ∷ files) n s =
      let rest =
        scan_files is_cancelled rows w files (n + 1)
          (scan_file rows path (parse_page x w.files path) s) in
      if is_cancelled n then record s { result = record s.result { cancelled = true } } else rest

  -- Which files a run takes, and whether it trusts the indexed hashes.
  pub data Mode : Type 0 where
    incremental full : Mode
    only_paths : List FilePath → Mode

  abbrev pub mode_files : Mode → World x → List FilePath
  mode_files incremental w = iter_page_files x w
  mode_files full w = iter_page_files x w
  mode_files (only_paths paths) w = paths

  -- `{} if force_full else lance.existing_page_hashes(self.db)`
  abbrev pub mode_rows : Mode → World x → List (PageRow x.Rest)
  mode_rows incremental w = x.pages.scan w.pages
  mode_rows full w = []
  mode_rows (only_paths paths) w = []

  abbrev pub start_scan : List FilePath → Scan
  start_scan files = record {
    result = record empty_result { scanned = length files };
    seen = [];
    to_index = [];
  }

  -- `set(existing_hashes) - seen_ids`
  unfoldable pub stale_ids : List (PageRow x.Rest) → List Text → List Text
  unfolding distinct
  stale_ids rows seen = keep (λ id. not (member id seen)) (distinct (map (λ r. r.id) rows))

  -- The sweep; with `only_paths` there is none, and its `rows` are empty.
  unfoldable pub sweep : List (PageRow x.Rest) → Scan → World x → IndexResult × World x
  unfolding stale_ids delete_pages
  sweep rows s w =
      let stale = stale_ids rows s.seen in
      (record s.result { deleted = s.result.deleted + length stale }, delete_pages x stale w)

  -- Project and refresh, where there is anything to project.
  unfoldable pub project_and_refresh : List (ParsedPage x) → Do x (Unit {0})
  unfolding project
  project_and_refresh [] = pure tt
  project_and_refresh (p ∷ items) = project x (p ∷ items) >> refresh_indexes x

  -- What follows the sweep.
  unfoldable pub finish : List (ParsedPage x) → IndexResult → Do x IndexResult
  unfolding project_and_refresh regenerate_index_pages
  finish to_index result = do
    project_and_refresh to_index
    changed ← regenerate_index_pages
    project_and_refresh changed
    pure result

  unfoldable pub run_with : Mode → (ℕ → Bool) → Do x IndexResult
  unfolding scan_files sweep finish iter_page_files
  run_with mode is_cancelled w =
      let rows = mode_rows mode w in
      let files = mode_files mode w in
      let s = scan_files is_cancelled rows w files 0 (start_scan files) in
      let (result, swept) = sweep rows s w in finish s.to_index result swept

  -- `is_cancelled` left out: never cancelled.
  abbrev pub never : ℕ → Bool
  never n = false

  -- `record_indexer_run`
  abbrev pub record_indexer_run : IndexResult → Do x IndexResult
  record_indexer_run result w = (done result, record w { last_indexer_result = some result })

  -- `_run_indexer`
  unfoldable pub run_indexer : Do x IndexResult
  unfolding run_with
  run_indexer = run_with incremental never >>= record_indexer_run
