-- ===== src/Calls.antt =====
-- A call of any tool: `dispatch` of src/smalt_mcp/tools.py over the whole table of tools.
pub mod Report
pub mod Denied
pub mod Removal
mod Routed
mod Tests
use smalt_mcp.Prelude.{ℕ, Bool, Option, some, List, Text, codes}
use smalt_mcp.Permissions.{Scope}
use smalt_mcp.Corpus.{External, World, Do, EmbeddingRow}
use smalt_mcp.Corpus.Actions.{
  Outcome, done, fail, no_such_tool, forbidden_tool, Action, ◌>>=◌, pure, gets,
}
use smalt_mcp.Tools.Dispatch.{Dispatched, runs, unknown_tool, forbidden, dispatch}
use smalt_mcp.Tools.Graph.{Traversal, Incoming, traverse, incoming_links}
use smalt_mcp.Tools.Handle.{
  Request, Reply, handle, link_request, unlink_request, links_request, claim_request,
  claims_request, claim_update, claim_removal, page_write, pages_write, page_removal, page_reindex,
  batch_write,
}
use smalt_mcp.Tasks.{Task}
use smalt_mcp.Tasks.Handlers.{
  Host, KindArg, LimitArg, TaskList, TaskCancelled, task_status, task_list, task_cancel,
  reindex_all,
}
use smalt_mcp.Reads.Filters.{Moment}
use smalt_mcp.Reads.Fuzzy.{Score}
use smalt_mcp.Reads.Handle.{
  ReadRequest, ReadReply, handle_read, pages_list, domains_list, alias_search, page_read,
  page_search,
}
use smalt_mcp.Reads.Search.{ℤ}
use smalt_mcp.Reads.Similar.{TypesArg, SimilarPages, source_similarity}
use smalt_mcp.Setup.Tables.{TableInfo}
use smalt_mcp.Setup.{Site, Bootstrapped, bootstrap}
use smalt_mcp.Calls.Report.{Status, IndexStatus, status, index_status}
use smalt_mcp.Catalog.{tools}
use smalt_mcp.Catalog.Handlers.{Handler}

-- All that the server keeps: what the handlers share, and what stands beside it on disk.
pub record Server (x : External) (Value : Type 0) : Type 0 where
  pub host : Host x Value
  pub dirs : List Text
  pub notes : List (Text × Text)
  pub tables : List TableInfo
  pub source_rows : ℕ

module _ (x : External) {Value : Type 0} where
  abbrev pub site_of : Server x Value → Site x
  site_of s = record { dirs = s.dirs; notes = s.notes; tables = s.tables; world = s.host.world }

  abbrev on_host : {A : Type 0} → Action (Host x Value) A → Action (Server x Value) A
  on_host m s = let (r, h) = m s.host in (r, record s { host = h })

  abbrev on_corpus : {A : Type 0} → Do x A → Action (Server x Value) A
  on_corpus m s =
      let (r, w) = m s.host.world in (r, record s { host = record s.host { world = w } })

  abbrev on_site : {A : Type 0} → Action (Site x) A → Action (Server x Value) A
  on_site m s =
      let (r, t) = m (site_of s) in
      (
        r,
        record s {
          host = record s.host { world = t.world };
          dirs = t.dirs;
          notes = t.notes;
          tables = t.tables;
        },
      )

-- What the reading tools take from outside, as their modules say.
pub record Outside (x : External) : Type 1 where
  pub Distance : Type 0
  pub Similarity : Type 0
  pub lower : Text → Text
  pub threshold : Score
  pub fromisoformat : Text → Option Moment
  pub like : Text → Text → Bool
  pub split : Text → List Text
  pub by_text : World x → Text → ℤ → Option (List Text)
  pub by_vector : World x → Text → ℤ → Option (List Text)
  pub nearest :
      World x → (EmbeddingRow x.Vector → Bool) → x.Vector → ℕ → Option (List (Text × Distance))
  pub similarity : Option Distance → Similarity

module _ (x : External) (o : Outside x) where
  -- A tool with its arguments, as its handler takes them apart.
  pub data Call : Type 0 where
    change : Request x → Call
    inspect :
        ReadRequest x o.lower o.threshold o.fromisoformat o.like o.split o.by_text o.by_vector
        → Call
    show_status show_index_status set_up reindex : Call
    walk_links : Option Text → Option Text → Option ℕ → Call
    list_incoming : Option Text → Option Text → Call
    find_similar : Option Text → LimitArg → TypesArg → Call
    show_task cancel_task_named : Option Text → Call
    show_tasks : Option Text → KindArg → LimitArg → Call

  -- `name` of a call.
  unfoldable pub name_of : Call → Text
  name_of (change (link_request _)) = codes "add_link"
  name_of (change (unlink_request _)) = codes "remove_link"
  name_of (change (links_request _ _)) = codes "add_links"
  name_of (change (claim_request _ _)) = codes "add_claim"
  name_of (change (claims_request _ _)) = codes "add_claims"
  name_of (change (claim_update _ _ _ _)) = codes "update_claim"
  name_of (change (claim_removal _ _)) = codes "remove_claim"
  name_of (change (page_write _ _ _)) = codes "write_page"
  name_of (change (pages_write _ _)) = codes "write_pages"
  name_of (change (page_removal _)) = codes "remove_page"
  name_of (change (page_reindex _)) = codes "reindex_page"
  name_of (change (batch_write _)) = codes "write_batch"
  name_of (inspect (pages_list _ _ _ _)) = codes "list_pages"
  name_of (inspect domains_list) = codes "list_domains"
  name_of (inspect (alias_search _ _)) = codes "find_by_alias"
  name_of (inspect (page_read _ _)) = codes "read_page"
  name_of (inspect (page_search _ _ _)) = codes "search"
  name_of show_status = codes "status"
  name_of show_index_status = codes "index_status"
  name_of set_up = codes "bootstrap"
  name_of reindex = codes "reindex_all"
  name_of (walk_links _ _ _) = codes "traverse"
  name_of (list_incoming _ _) = codes "incoming_links"
  name_of (find_similar _ _ _) = codes "source_similarity"
  name_of (show_task _) = codes "task_status"
  name_of (cancel_task_named _) = codes "task_cancel"
  name_of (show_tasks _ _ _) = codes "task_list"

module _ (x : External) (o : Outside x) (Value : Type 0) where
  pub data Answer : Type 0 where
    changed : Reply → Answer
    inspected :
        ReadReply x o.lower o.threshold o.fromisoformat o.like o.split o.by_text o.by_vector
        → Answer
    the_status : Status → Answer
    the_index_status : IndexStatus → Answer
    walked : Traversal → Answer
    incoming_listed : Incoming → Answer
    similar_found : SimilarPages o.Similarity → Answer
    a_task : Task Value → Answer
    tasks_listed : TaskList Value → Answer
    task_was_cancelled : TaskCancelled Value → Answer
    is_set_up : Bootstrapped → Answer

  -- `tool.handler(app, arguments)`
  unfoldable pub perform : Call x o → Action (Server x Value) Answer
  perform (change request) = on_corpus x (handle x request) >>= λ r. pure (changed r)
  perform (inspect request) =
      on_corpus x (
        handle_read x o.lower o.threshold o.fromisoformat o.like o.split o.by_text o.by_vector
          request)
      >>= λ r. pure (inspected r)
  perform show_status = on_site x (status x) >>= λ r. pure (the_status r)
  perform show_index_status = gets (λ s. s.source_rows) >>= λ n.
      on_site x (index_status x n) >>= λ r. pure (the_index_status r)
  perform set_up = on_site x (bootstrap x) >>= λ r. pure (is_set_up r)
  perform reindex = on_host x (reindex_all x) >>= λ r. pure (a_task r)
  perform (walk_links from_id label hops) =
      on_corpus x (traverse x from_id label hops) >>= λ r. pure (walked r)
  perform (list_incoming page_id label) =
      on_corpus x (incoming_links x page_id label) >>= λ r. pure (incoming_listed r)
  perform (find_similar source_id top_k types) =
      on_corpus x (source_similarity x o.nearest o.similarity source_id top_k types) >>= λ r.
      pure (similar_found r)
  perform (show_task id) = on_host x (task_status x id) >>= λ r. pure (a_task r)
  perform (cancel_task_named id) = on_host x (task_cancel x id) >>= λ r. pure (task_was_cancelled r)
  perform (show_tasks state kind limit) =
      on_host x (task_list x state kind limit) >>= λ r. pure (tasks_listed r)

  -- What `dispatch` does with its tool; `call_tool` of src/smalt_mcp/server.py turns its exceptions
  -- into these errors.
  abbrev pub run_tool : Dispatched Handler → Call x o → Action (Server x Value) Answer
  run_tool unknown_tool c s = (fail no_such_tool, s)
  run_tool forbidden c s = (fail forbidden_tool, s)
  run_tool (runs h) c s = perform c s

  -- `call_tool` and `dispatch`
  unfoldable pub call : Scope → Call x o → Action (Server x Value) Answer
  unfolding perform dispatch name_of
  call scope c = run_tool (dispatch (name_of x o c) scope tools) c
