-- ===== src/Tasks/Handlers.antt =====
-- The task tools of src/smalt_mcp/tools.py: `task_status`, `task_list`, `task_cancel`, and the part of
-- `reindex_all` that answers the caller.
use smalt_mcp.Prelude.{
  ℕ, Bool, not, ◌&&◌, ◌||◌, Option, none, some, List, [], length, if◌then◌else◌, Text, codes,
  text_eq, ◌==◌,
}
use smalt_mcp.Corpus.{External, World, Do}
use smalt_mcp.Corpus.Actions.{
  Action, Outcome, done, fail, missing_argument, invalid_argument, not_found, smalt_not_initialized,
  ◌>>=◌, ◌>>◌, pure, gets, or_stop, stop_if,
}
use smalt_mcp.Corpus.Pages.{ensure_initialized}
use smalt_mcp.Tools.Links.{absent, value_or}
use smalt_mcp.Tasks.{TaskState, pending, running, succeeded, failed, cancelled, is_terminal, Task}
use smalt_mcp.Tasks.Registry.{Scheduler, get_task, list_tasks, cancel, enqueue, state_eq}

-- What the task tools share: the corpus, the scheduler and the clock of the event loop. `drawn_id`
-- is the next id that `secrets.token_urlsafe` yields.
pub record Host (x : External) (Value : Type 0) : Type 0 where
  pub world : World x
  pub scheduler : Scheduler Value
  pub now : ℕ
  pub drawn_id : Text

-- `TaskState(state_raw)`; `none` is its `ValueError`.
abbrev pub parse_state : Text → Option TaskState
parse_state t =
    if text_eq t (codes "pending")
    then some pending
    else if text_eq t (codes "running")
    then some running
    else if text_eq t (codes "succeeded")
    then some succeeded
    else if text_eq t (codes "failed")
    then some failed
    else if text_eq t (codes "cancelled")
    then some cancelled
    else none

-- The argument `kind`: missing, a string, or something else.
pub data KindArg : Type 0 where
  any_kind no_string : KindArg
  kind_named : Text → KindArg

-- The argument `limit`: missing, what `int` refuses, or an integer: `minus n` is `-n`.
pub data LimitArg : Type 0 where
  default_limit no_integer : LimitArg
  plus minus : ℕ → LimitArg

abbrev pub parse_state_arg : Option Text → Outcome (Option TaskState)
parse_state_arg none = done none
parse_state_arg (some t) = elim (parse_state t) [
  | none ↦ fail invalid_argument
  | some state ↦ done (some state)
]

abbrev pub parse_kind : KindArg → Outcome (Option Text)
parse_kind any_kind = done none
parse_kind no_string = fail invalid_argument
parse_kind (kind_named kind) = done (some kind)

abbrev pub parse_limit : LimitArg → Outcome ℕ
parse_limit default_limit = done 100
parse_limit no_integer = fail invalid_argument
parse_limit (plus n) = if n == 0 then fail invalid_argument else done n
parse_limit (minus n) = fail invalid_argument

pub record TaskList (Value : Type 0) : Type 0 where
  pub tasks : List (Task Value)
  pub count : ℕ
  pub state_filter : Option TaskState
  pub kind_filter : Option Text

pub record TaskCancelled (Value : Type 0) : Type 0 where
  pub task : Task Value
  pub was_terminal_at_call : Bool

-- `task.state in TERMINAL_STATES and (...)`, after the cancellation.
abbrev pub was_terminal : {Value : Type 0} → Task Value → Bool
was_terminal t = is_terminal t.state && (not t.cancel_requested || state_eq t.state cancelled)

module _ (x : External) {Value : Type 0} where
  -- A step on the corpus.
  abbrev on_world : {A : Type 0} → Do x A → Action (Host x Value) A
  on_world m h = let (r, w) = m h.world in (r, record h { world = w })

  -- A step on the scheduler.
  abbrev on_scheduler :
      {A : Type 0} → (ℕ → Scheduler Value → A × Scheduler Value) → Action (Host x Value) A
  on_scheduler f h = let (a, s) = f h.now h.scheduler in (done a, record h { scheduler = s })

  abbrev given : {A : Type 0} → Outcome A → Action (Host x Value) A
  given o h = (o, h)

  unfoldable pub task_status : Option Text → Action (Host x Value) (Task Value)
  unfolding get_task
  task_status task_id = do
    on_world (ensure_initialized x)
    stop_if (absent task_id) missing_argument
    task ← gets (λ h. get_task (value_or [] task_id) h.scheduler)
    or_stop task (not_found (value_or [] task_id))

  unfoldable pub task_list :
      Option Text → KindArg → LimitArg → Action (Host x Value) (TaskList Value)
  unfolding list_tasks
  task_list state_raw kind_raw limit_raw = do
    on_world (ensure_initialized x)
    state ← given (parse_state_arg state_raw)
    kind ← given (parse_kind kind_raw)
    limit ← given (parse_limit limit_raw)
    tasks ← gets (λ h. list_tasks state kind limit h.scheduler)
    pure (record { tasks = tasks; count = length tasks; state_filter = state; kind_filter = kind })

  unfoldable pub task_cancel : Option Text → Action (Host x Value) (TaskCancelled Value)
  unfolding cancel
  task_cancel task_id = do
    on_world (ensure_initialized x)
    stop_if (absent task_id) missing_argument
    cancelled_task ← on_scheduler (λ now s. cancel (value_or [] task_id) now s)
    task ← or_stop cancelled_task (not_found (value_or [] task_id))
    pure (record { task = task; was_terminal_at_call = was_terminal task })

  -- The answer of `reindex_all`: the task as it was enqueued.
  unfoldable pub reindex_all : Action (Host x Value) (Task Value)
  unfolding enqueue
  reindex_all = do
    exists ← gets (λ h. h.world.smalt_exists)
    stop_if (not exists) smalt_not_initialized
    id ← gets (λ h. h.drawn_id)
    on_scheduler (λ now s. enqueue id (codes "reindex_all") now s)
