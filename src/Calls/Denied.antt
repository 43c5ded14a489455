-- ===== src/Calls/Denied.antt =====
-- What a read-only scope keeps a caller from.
use smalt_mcp.Prelude.{
  ℕ, ◌≡◌, refl, ap, ◌∙◌, Option, List, Text, Bool, Bool-cases, inl, inr, subst, sym,
}
use smalt_mcp.Permissions.{Scope, read_only}
use smalt_mcp.Corpus.{External, World, Do, EmbeddingRow}
use smalt_mcp.Corpus.Actions.{Outcome, Action, ◌>>=◌, pure, settled}
use smalt_mcp.Corpus.Respects.{
  IsPreorder, Respects, Respects-pure, Respects-gets, Respects-bind, Respects-stop_if,
  Respects-or_stop,
}
use smalt_mcp.Corpus.Pages.{ensure_initialized}
use smalt_mcp.Tools.Dispatch.{Dispatched, runs, unknown_tool, forbidden, dispatch, tool_named}
use smalt_mcp.Tools.Graph.{traverse, incoming_links}
use smalt_mcp.Tools.Handle.{
  Request, link_request, unlink_request, links_request, claim_request, claims_request, claim_update,
  claim_removal, page_write, pages_write, page_removal, page_reindex, batch_write,
}
use smalt_mcp.Tasks.Handlers.{Host, KindArg, LimitArg, task_status, task_list}
use smalt_mcp.Reads.Handle.{handle_read-SameWorld}
use smalt_mcp.Corpus.Opened.{
  SameWorld, SameWorld-IsPreorder, ensure_initialized-SameWorld, settled-SameWorld,
}
use smalt_mcp.Setup.{Site}
use smalt_mcp.Calls.Report.{status, index_status, connected, opens}
use smalt_mcp.Reads.Similar.{TypesArg, source_similarity}
use smalt_mcp.Catalog.{tools}
use smalt_mcp.Catalog.Handlers.{Handler}
use smalt_mcp.Calls.{
  Server, Outside, Call, change, inspect, show_status, show_index_status, set_up, reindex,
  walk_links, list_incoming, find_similar, show_task, cancel_task_named, show_tasks, on_corpus,
  on_site, site_of, on_host, name_of, perform, run_tool, call,
}

module _ (x : External) {Value : Type 0} where
  -- Nothing but the directory of the database is new.
  abbrev SameHost : Host x Value → Host x Value → Type 0
  SameHost h h' = h' ≡ record h { world = record h.world { lance_dir = h'.world.lance_dir } }

  abbrev pub SameServer : Server x Value → Server x Value → Type 0
  SameServer s s' = s' ≡ record s {
    host = record s.host { world = record s.host.world { lance_dir = s'.host.world.lance_dir } };
  }

  abbrev host_as : Bool → Host x Value → Host x Value
  host_as there h = record h { world = record h.world { lance_dir = there } }

  abbrev server_as : Bool → Server x Value → Server x Value
  server_as there s = record s { host = host_as there s.host }

  SameHost-IsPreorder : IsPreorder SameHost
  SameHost-IsPreorder = record {
    reflexive = λ h. refl;
    transitive = λ g h k p q. q ∙ ap (host_as k.world.lance_dir) p;
  }

  SameServer-IsPreorder : IsPreorder SameServer
  SameServer-IsPreorder = record {
    reflexive = λ s. refl;
    transitive = λ r s t p q. q ∙ ap (server_as t.host.world.lance_dir) p;
  }

  settled-SameHost : {A : Type 0} (o : Outcome A) → Respects SameHost (settled o)
  settled-SameHost o = record { at = λ h. refl }

  abbrev in_corpus : Server x Value → World x → Server x Value
  in_corpus s w = record s { host = record s.host { world = w } }

  on_corpus-SameServer :
      {A : Type 0} (m : Do x A) → Respects (SameWorld x) m → Respects SameServer (on_corpus x m)
  on_corpus-SameServer m h = record { at = λ s. ap (in_corpus s) (h.at s.host.world) }

  abbrev with_host : Server x Value → Host x Value → Server x Value
  with_host s h = record s { host = h }

  on_host-SameServer :
      {A : Type 0} (m : Action (Host x Value) A)
      → Respects SameHost m
      → Respects SameServer (on_host x m)
  on_host-SameServer m h = record { at = λ s. ap (with_host s) (h.at s.host) }

  abbrev in_world : Host x Value → World x → Host x Value
  in_world h w = record h { world = w }

  ensure-SameHost : Respects SameHost (λ h.
      ((ensure_initialized x h.world).0, record h { world = (ensure_initialized x h.world).1 }))
  ensure-SameHost = record {
    at = λ h. ap (in_world h) ((ensure_initialized-SameWorld x).at h.world);
  }

ruleset unchanged_rules = (
  SameWorld-IsPreorder, SameHost-IsPreorder, ensure_initialized-SameWorld, settled-SameWorld,
  settled-SameHost, ensure-SameHost, Respects-pure, Respects-gets, Respects-bind, Respects-stop_if,
  Respects-or_stop,
)

module _ (x : External) where
  traverse-SameWorld :
      (from_id label : Option Text) (hops : Option ℕ)
      → Respects (SameWorld x) (traverse x from_id label hops)
  unfolding traverse
  traverse-SameWorld from_id label hops = search unchanged_rules depth 12

  incoming_links-SameWorld :
      (id label : Option Text) → Respects (SameWorld x) (incoming_links x id label)
  unfolding incoming_links
  incoming_links-SameWorld id label = search unchanged_rules depth 12

  source_similarity-SameWorld :
      {D S : Type 0}
      (nearest : World x → (EmbeddingRow x.Vector → Bool) → x.Vector → ℕ → Option (List (Text × D)))
      (similarity : Option D → S) (id : Option Text) (top_k : LimitArg) (types : TypesArg)
      → Respects (SameWorld x) (source_similarity x nearest similarity id top_k types)
  unfolding source_similarity
  source_similarity-SameWorld nearest similarity id top_k types = search unchanged_rules depth 20

module _ (x : External) {Value : Type 0} where
  task_status-SameHost :
      (id : Option Text) → Respects (SameHost x) (task_status x {Value = Value} id)
  unfolding task_status
  task_status-SameHost id = search unchanged_rules depth 12

  task_list-SameHost :
      (state : Option Text) (kind : KindArg) (limit : LimitArg)
      → Respects (SameHost x) (task_list x {Value = Value} state kind limit)
  unfolding task_list
  task_list-SameHost state kind limit = search unchanged_rules depth 20

module _ (x : External) (o : Outside x) (Value : Type 0) where
  abbrev Keeps : {A : Type 0} → Action (Server x Value) A → Type 0
  Keeps m = Respects (SameServer x) m

  answered-Keeps :
      {A B : Type 0} (m : Action (Server x Value) A) (f : A → B)
      → Keeps m
      → Keeps (m >>= λ a. pure (f a))
  answered-Keeps m f h =
      Respects-bind (SameServer-IsPreorder x) m _ h
        λ a. Respects-pure (SameServer-IsPreorder x) (f a)

  -- A tool that a read-only scope may run changes nothing.
  inspect-Keeps : (request : _) → Keeps (perform x o Value (inspect request))
  unfolding perform
  inspect-Keeps request = answered-Keeps _ _ (
      on_corpus-SameServer x _ (
        handle_read-SameWorld x o.lower o.threshold o.fromisoformat o.like o.split o.by_text
          o.by_vector request))

  walk_links-Keeps :
      (from_id label : Option Text) (hops : Option ℕ)
      → Keeps (perform x o Value (walk_links from_id label hops))
  unfolding perform
  walk_links-Keeps from_id label hops =
      answered-Keeps _ _ (on_corpus-SameServer x _ (traverse-SameWorld x from_id label hops))

  list_incoming-Keeps :
      (id label : Option Text) → Keeps (perform x o Value (list_incoming id label))
  unfolding perform
  list_incoming-Keeps id label =
      answered-Keeps _ _ (on_corpus-SameServer x _ (incoming_links-SameWorld x id label))

  find_similar-Keeps :
      (id : Option Text) (top_k : LimitArg) (types : TypesArg)
      → Keeps (perform x o Value (find_similar id top_k types))
  unfolding perform
  find_similar-Keeps id top_k types = answered-Keeps _ _ (
      on_corpus-SameServer x _
        (source_similarity-SameWorld x o.nearest o.similarity id top_k types))

  show_task-Keeps : (id : Option Text) → Keeps (perform x o Value (show_task id))
  unfolding perform
  show_task-Keeps id = answered-Keeps _ _ (on_host-SameServer x _ (task_status-SameHost x id))

  show_tasks-Keeps :
      (state : Option Text) (kind : KindArg) (limit : LimitArg)
      → Keeps (perform x o Value (show_tasks state kind limit))
  unfolding perform
  show_tasks-Keeps state kind limit =
      answered-Keeps _ _ (on_host-SameServer x _ (task_list-SameHost x state kind limit))

  abbrev at_site : Server x Value → Site x → Server x Value
  at_site s t = record s {
    host = record s.host { world = t.world };
    dirs = t.dirs;
    notes = t.notes;
    tables = t.tables;
  }

  connected-SameServer :
      (s : Server x Value) → SameServer x s (at_site s (connected x (site_of x s)))
  connected-SameServer s = elim (Bool-cases (opens x s.host.world)) [
    | inl e ↦ rw e refl
    | inr e ↦ rw e refl
  ]

  connects-Keeps :
      {A : Type 0} (m : Action (Site x) A)
      → ((s : Site x) → (m s).1 ≡ connected x s)
      → Keeps (on_site x m)
  connects-Keeps m h = record {
    at = λ s.
        subst (λ t. SameServer x s (at_site s t)) (sym (h (site_of x s))) (connected-SameServer s);
  }

  status-Keeps : Keeps (perform x o Value show_status) × Keeps (perform x o Value show_index_status)
  unfolding perform status index_status
  status-Keeps = (
    answered-Keeps _ _ (connects-Keeps (status x) (λ s. refl)),
    Respects-bind (SameServer-IsPreorder x) _ _ (Respects-gets (SameServer-IsPreorder x) _)
        λ n. answered-Keeps _ _ (connects-Keeps (index_status x n) (λ s. refl)),
  )

  -- Whatever the gate decides, a tool that changes nothing changes nothing.
  run_tool-same :
      (d : Dispatched Handler) (c : Call x o) (s : Server x Value)
      → Keeps (perform x o Value c)
      → SameServer x s (run_tool x o Value d c s).1
  run_tool-same (runs h) c s k = k.at s
  run_tool-same unknown_tool c s k = refl
  run_tool-same forbidden c s k = refl

  call-same :
      (scope : Scope) (c : Call x o) (s : Server x Value)
      → Keeps (perform x o Value c)
      → SameServer x s (call x o Value scope c s).1
  unfolding call
  call-same scope c s k = run_tool-same (dispatch (name_of x o c) scope tools) c s k

  change-denied :
      (request : Request x) (s : Server x Value)
      → SameServer x s (call x o Value read_only (change request) s).1
  unfolding call name_of dispatch tool_named
  change-denied (link_request _) s = refl
  change-denied (unlink_request _) s = refl
  change-denied (links_request _ _) s = refl
  change-denied (claim_request _ _) s = refl
  change-denied (claims_request _ _) s = refl
  change-denied (claim_update _ _ _ _) s = refl
  change-denied (claim_removal _ _) s = refl
  change-denied (page_write _ _ _) s = refl
  change-denied (pages_write _ _) s = refl
  change-denied (page_removal _) s = refl
  change-denied (page_reindex _) s = refl
  change-denied (batch_write _) s = refl

  -- A call of any tool with a read-only scope, whatever its arguments, changes no file, table, task or
  -- counter, not the mutex, and of the directories at most that of the database: it is made where a
  -- tool opens the database for the first time.
  pub call-read_only :
      (c : Call x o) (s : Server x Value) → SameServer x s (call x o Value read_only c s).1
  unfolding call name_of dispatch tool_named
  call-read_only (change request) s = change-denied request s
  call-read_only (inspect request) s =
      call-same read_only (inspect request) s (inspect-Keeps request)
  call-read_only show_status s = call-same read_only show_status s status-Keeps.0
  call-read_only show_index_status s = call-same read_only show_index_status s status-Keeps.1
  call-read_only set_up s = refl
  call-read_only reindex s = refl
  call-read_only (walk_links from_id label hops) s =
      call-same read_only (walk_links from_id label hops) s (walk_links-Keeps from_id label hops)
  call-read_only (list_incoming id label) s =
      call-same read_only (list_incoming id label) s (list_incoming-Keeps id label)
  call-read_only (find_similar id top_k types) s =
      call-same read_only (find_similar id top_k types) s (find_similar-Keeps id top_k types)
  call-read_only (show_task id) s = call-same read_only (show_task id) s (show_task-Keeps id)
  call-read_only (cancel_task_named id) s = refl
  call-read_only (show_tasks state kind limit) s =
      call-same read_only (show_tasks state kind limit) s (show_tasks-Keeps state kind limit)
