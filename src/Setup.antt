-- ===== src/Setup.antt =====
-- `bootstrap`: the directories, placeholder files and tables of a new corpus. `ensure_tables` and its
-- migration are of src/smalt_mcp/storage/lance.py, `ALL_DIRS` of src/smalt_mcp/storage/paths.py.
pub mod Missing
pub mod Tables
pub mod Again
pub mod Reindex
pub mod Rebuilt
mod Tests
use smalt_mcp.Prelude.{true, List, [], ◌∷◌, ◌++◌, if◌then◌else◌, Text, codes}
use smalt_mcp.Corpus.{External, World, Do, IndexResult}
use smalt_mcp.Corpus.Actions.{Outcome, done, fail, Action, ◌>>=◌, pure}
use smalt_mcp.Corpus.Pages.{with_mutex}
use smalt_mcp.Indexer.Run.{run_indexer}
use smalt_mcp.Setup.Missing.{add_missing}
use smalt_mcp.Setup.Tables.{TableInfo, ensure_tables}

-- `ALL_DIRS`
abbrev pub all_dirs : List Text
all_dirs =
    codes "pages"
    ∷ codes "pages/entities"
    ∷ codes "pages/concepts"
    ∷ codes "pages/sources"
    ∷ codes "pages/syntheses"
    ∷ codes "structures"
    ∷ codes "schema"
    ∷ codes "index"
    ∷ codes "index/lance"
    ∷ codes "tasks"
    ∷ []

-- The lines of a text, each ended by a line feed.
abbrev lines : List Text → Text
lines [] = []
lines (l ∷ ls) = l ++ 10 ∷ lines ls

-- `_SCHEMA_MD_PLACEHOLDER`
abbrev pub schema_md : Text
schema_md = lines (
    codes "# SCHEMA.md"
    ∷ []
    ∷ codes "This is the human-readable narrative of the page types, frontmatter shape,"
    ∷ codes "and link-edge vocabulary in this Smalt. The machine-readable version lives"
    ∷ codes "in `smalt_mcp/schema.py` (the Pydantic models)."
    ∷ []
    ∷ codes "This document is a **living artifact** — schema changes are proposed,"
    ∷ codes "tested, and applied through the `ebony-enriching` MCP server (the lab"
    ∷ codes "notebook substrate); accepted changes land here."
    ∷ [])

-- `_POLICY_MD_PLACEHOLDER`
abbrev pub policy_md : Text
policy_md = lines (
    codes "# POLICY.md"
    ∷ []
    ∷ codes "This is the human-readable policy that agentic systems operate under when"
    ∷ codes "producing or modifying pages in this Smalt: when to create new pages vs."
    ∷ codes "extend, how contradictions are handled, how confidence is assigned."
    ∷ []
    ∷ codes "Like SCHEMA.md, this document is **living** — policy changes are proposed"
    ∷ codes "and reviewed through the `ebony-enriching` lab-notebook substrate. The"
    ∷ codes "falsifiability / cost-tier discipline for proposals themselves lives in"
    ∷ codes "ebony-enriching's own POLICY.md."
    ∷ [])

abbrev pub placeholders : List (Text × Text)
placeholders = (codes "schema/SCHEMA.md", schema_md) ∷ (codes "schema/POLICY.md", policy_md) ∷ []

-- What stands at `SMALT_DIR`: paths of directories that `bootstrap` made or found, the files beside the pages, the tables, and what
-- the handlers share.
pub record Site (x : External) : Type 0 where
  pub dirs : List Text
  pub notes : List (Text × Text)
  pub tables : List TableInfo
  pub world : World x

pub record Prepared : Type 0 where
  pub created_dirs : List Text
  pub created_files : List Text
  pub created_tables : List Text

pub record Bootstrapped : Type 0 where
  pub prepared : Prepared
  pub index_result : IndexResult

module _ (x : External) where
  -- The directories, those among them that the database made.
  abbrev pub dirs_of : Site x → List Text
  dirs_of s = if s.world.lance_dir then codes "index" ∷ codes "index/lance" ∷ s.dirs else s.dirs

  -- The root, `created_dirs`, `created_files` and `created_tables`. A missing parent of a directory
  -- stands before it in `ALL_DIRS`.
  unfoldable pub prepare : Site x → Prepared × Site x
  unfolding add_missing ensure_tables
  prepare s =
      let (created_dirs, dirs) = add_missing (λ d. d) all_dirs (dirs_of s) in
      let (created_files, notes) = add_missing (λ f. f.0) placeholders s.notes in
      let (created_tables, tables, world) =
        ensure_tables x s.tables (record s.world { smalt_exists = true }) in
      (
        record {
          created_dirs = created_dirs;
          created_files = created_files;
          created_tables = created_tables;
        },
        record { dirs = dirs; notes = notes; tables = tables; world = world },
      )

  -- A step on what the handlers share.
  abbrev pub on_world : {A : Type 0} → Do x A → Action (Site x) A
  on_world m s = let (r, w) = m s.world in (r, record s { world = w })

  abbrev preparing : Action (Site x) Prepared
  preparing s = let (p, s') = prepare s in (done p, s')

  -- The pass of the indexer under the mutex, and the reply.
  abbrev pub index_site : Prepared → Action (Site x) Bootstrapped
  index_site prepared = do
    index_result ← on_world (with_mutex x (codes "bootstrap") (run_indexer x))
    pure (record { prepared = prepared; index_result = index_result })

  unfoldable pub bootstrap : Action (Site x) Bootstrapped
  unfolding prepare
  bootstrap = preparing >>= index_site
