-- ===== src/Setup/Reindex.antt =====
-- The work of `reindex_all`: the tables are dropped, made again, and filled from the page files.
use smalt_mcp.Prelude.{
  ◌+◌, Bool, not, ◌&&◌, none, some, List, keep, map, Text, codes, member, true, false,
}
use smalt_mcp.Corpus.{External, Holder, IndexResult}
use smalt_mcp.Corpus.Actions.{done, task_cancelled, Action, ◌>>=◌, ◌>>◌, pure, stop_if}
use smalt_mcp.Indexer.Run.{run_with, full, never, record_indexer_run}
use smalt_mcp.Setup.Missing.{is_there}
use smalt_mcp.Setup.Tables.{TableInfo, table_schemas, ensure_tables}
use smalt_mcp.Setup.{Site, on_world}

-- What the task's result holds.
pub record Rebuilt : Type 0 where
  pub wiped_tables : List Text
  pub recreated_tables : List Text
  pub index_result : IndexResult

-- `ALL_TABLES`
abbrev pub all_tables : List Text
all_tables = map (λ t. t.name) table_schemas

-- `drops` says of a table's name whether `drop_table` works on it, where there is such a table.
module _ (x : External) (drops : Text → Bool) where
  -- The names that the loop puts into `wiped`.
  abbrev pub wiped : List TableInfo → List Text
  wiped tables = keep (λ n. is_there (λ t. t.name) n tables && drops n) all_tables

  -- The tables that the loop leaves: a table that `drop_table` refuses is kept, with a warning.
  unfoldable pub drop_tables : List TableInfo → List TableInfo
  drop_tables tables = keep (λ t. not (member t.name all_tables && drops t.name)) tables

  abbrev dropping : Action (Site x) (List Text)
  dropping s = (
    done (wiped s.tables),
    record s { tables = drop_tables s.tables; world = record s.world { lance_dir = true } },
  )

  abbrev ensuring : Action (Site x) (List Text)
  ensuring s =
      let (created, tables, world) = ensure_tables x s.tables s.world in
      (done created, record s { tables = tables; world = world })

  -- `with app.mutex.acquire("reindex_all"):`, as `with_mutex`
  abbrev locked : {A : Type 0} → Action (Site x) A → Action (Site x) A
  locked body s =
      let held : Holder = record {
        holder = some (codes "reindex_all");
        locked = true;
        acquire_count = s.world.mutex.acquire_count + 1;
      } in
      let (r, s') = body (record s { world = record s.world { mutex = held } }) in
      let freed : Holder = record {
        locked = false;
        holder = none;
        acquire_count = s'.world.mutex.acquire_count;
      } in
      (r, record s' { world = record s'.world { mutex = freed } })

  -- The full run of the indexer, and the reply.
  abbrev pub index_all : List Text → List Text → Action (Site x) Rebuilt
  index_all wiped_tables recreated_tables = do
    index_result ← on_world x (run_with x full (never x))
    on_world x (record_indexer_run x index_result)
    pure (record {
      wiped_tables = wiped_tables;
      recreated_tables = recreated_tables;
      index_result = index_result;
    })

  -- The body under the mutex; its arguments are the two answers of `task.cancel_requested`.
  unfoldable pub rebuild : Bool → Bool → Action (Site x) Rebuilt
  unfolding drop_tables ensure_tables run_with
  rebuild cancelled_at_start cancelled_after_wipe = do
    stop_if cancelled_at_start task_cancelled
    wiped_tables ← dropping
    stop_if cancelled_after_wipe task_cancelled
    recreated_tables ← ensuring
    index_all wiped_tables recreated_tables

  -- `_do_reindex`
  unfoldable pub do_reindex : Bool → Bool → Action (Site x) Rebuilt
  unfolding rebuild
  do_reindex cancelled_at_start cancelled_after_wipe =
      locked (rebuild cancelled_at_start cancelled_after_wipe)
