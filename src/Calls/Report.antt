-- ===== src/Calls/Report.antt =====
-- `status`, and `index_status` with `App.index_status_payload` of src/smalt_mcp/app.py.
use smalt_mcp.Prelude.{
  ℕ, Bool, true, ◌&&◌, Option, List, [], map, keep, if◌then◌else◌, Text, codes, text_eq,
}
use smalt_mcp.Corpus.{External, World, IndexResult}
use smalt_mcp.Corpus.Actions.{Action, done}
use smalt_mcp.Setup.Missing.{is_there}
use smalt_mcp.Setup.Reindex.{all_tables}
use smalt_mcp.Setup.{Site}

-- The configuration of the embedder is left out.
pub record Status : Type 0 where
  pub exists : Bool
  pub tables : List Text
  pub page_count : ℕ
  pub locked : Bool
  pub holder : Option Text

-- Of the state of the search indexes and the timings, nothing.
pub record IndexStatus : Type 0 where
  pub smalt_exists : Bool
  pub row_counts : List (Text × ℕ)
  pub last_result : Option IndexResult
  pub mutex_locked : Bool
  pub mutex_holder : Option Text
  pub acquire_count : ℕ

module _ (x : External) where
  -- `app.db()` raises no `FileNotFoundError`.
  abbrev pub opens : World x → Bool
  opens w = w.smalt_exists && w.db_opens

  abbrev page_total : Site x → ℕ
  page_total s =
      if is_there (λ t. t.name) (codes "pages") s.tables
      then x.pages.count (λ r. true) s.world.pages
      else 0

  -- `app.db()` and `list_tables` connect, which makes the directory of the database.
  abbrev pub connected : Site x → Site x
  connected s =
      if opens s.world then record s { world = record s.world { lance_dir = true } } else s

  abbrev status_of : Site x → Status
  status_of s = record {
    exists = s.world.smalt_exists;
    tables = if opens s.world then map (λ t. t.name) s.tables else [];
    page_count = if opens s.world then page_total s else 0;
    locked = s.world.mutex.locked;
    holder = s.world.mutex.holder;
  }

  unfoldable pub status : Action (Site x) Status
  status s = (done (status_of s), connected s)

  -- `count_rows()`; nothing writes the table `sources`, whose rows are counted by `source_rows`.
  abbrev row_count : ℕ → World x → Text → ℕ
  row_count source_rows w name =
      if text_eq name (codes "pages")
      then x.pages.count (λ r. true) w.pages
      else if text_eq name (codes "embeddings")
      then x.embeddings.count (λ r. true) w.embeddings
      else if text_eq name (codes "links")
      then x.links.count (λ r. true) w.links
      else if text_eq name (codes "claims")
      then x.claims.count (λ r. true) w.claims
      else source_rows

  abbrev index_status_of : ℕ → Site x → IndexStatus
  index_status_of source_rows s = record {
    smalt_exists = s.world.smalt_exists;
    row_counts =
        if opens s.world
        then map (λ n. (n, row_count source_rows s.world n))
            (keep (λ n. is_there (λ t. t.name) n s.tables) all_tables)
        else [];
    last_result = s.world.last_indexer_result;
    mutex_locked = s.world.mutex.locked;
    mutex_holder = s.world.mutex.holder;
    acquire_count = s.world.mutex.acquire_count;
  }

  -- The tables' rows are counted after `app.db()` and `list_tables`.
  unfoldable pub index_status : ℕ → Action (Site x) IndexStatus
  index_status source_rows s = (done (index_status_of source_rows s), connected s)
