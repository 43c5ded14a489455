-- ===== src/Tasks/Registry.antt =====
-- `Scheduler` of src/smalt_mcp/scheduler.py: the registry of tasks.
use smalt_mcp.Prelude.{
  ℕ, ◌+◌, Bool, true, false, not, ◌&&◌, Option, none, some, List, [], ◌∷◌, map, keep, take, length,
  if◌then◌else◌, leb, ltb, Text, text_eq,
}
use smalt_mcp.Indexer.Order.{sort_by}
use smalt_mcp.Tasks.{
  TaskState, pending, running, succeeded, failed, cancelled, is_terminal, Task, new_task,
  cancel_task, shut_task,
}

abbrev pub state_eq : TaskState → TaskState → Bool
state_eq pending pending = true
state_eq running running = true
state_eq succeeded succeeded = true
state_eq failed failed = true
state_eq cancelled cancelled = true
state_eq _ _ = false

-- `_tasks` in the order of the `dict`; `gc_running` is that `_gc_task` is there and not done.
pub record Scheduler (Value : Type 0) : Type 0 where
  pub tasks : List (Task Value)
  pub gc_ttl_seconds : ℕ
  pub gc_running : Bool

abbrev pub default_gc_ttl_seconds : ℕ
default_gc_ttl_seconds = 3600

-- `(now - t.finished_at).total_seconds() > self._gc_ttl_seconds`
abbrev outlived : ℕ → ℕ → Option ℕ → Bool
outlived now ttl none = false
outlived now ttl (some finished_at) = ltb (finished_at + ttl) now

module _ {Value : Type 0} where
  -- `_tasks[task.id] = task`
  unfoldable pub put_task : Task Value → List (Task Value) → List (Task Value)
  put_task t [] = t ∷ []
  put_task t (u ∷ tasks) =
      let rest = put_task t tasks in if text_eq u.id t.id then t ∷ tasks else u ∷ rest

  -- `enqueue`; the id is drawn by `secrets.token_urlsafe`.
  unfoldable pub enqueue : Text → Text → ℕ → Scheduler Value → Task Value × Scheduler Value
  unfolding put_task
  enqueue id kind now s =
      let t = new_task id kind now in (t, record s { tasks = put_task t s.tasks })

  -- `_tasks.get(task_id)`
  unfoldable pub find_task : Text → List (Task Value) → Option (Task Value)
  find_task id [] = none
  find_task id (t ∷ tasks) = if text_eq t.id id then some t else find_task id tasks

  -- `get`
  unfoldable pub get_task : Text → Scheduler Value → Option (Task Value)
  unfolding find_task
  get_task id s = find_task id s.tasks

  abbrev cancel_found :
      ℕ → Option (Task Value) → Scheduler Value → Option (Task Value) × Scheduler Value
  cancel_found now none s = (none, s)
  cancel_found now (some t) s =
      (some (cancel_task now t), record s { tasks = put_task (cancel_task now t) s.tasks })

  -- `cancel`
  unfoldable pub cancel : Text → ℕ → Scheduler Value → Option (Task Value) × Scheduler Value
  unfolding put_task find_task
  cancel id now s = cancel_found now (find_task id s.tasks) s

  abbrev has_state : Option TaskState → Task Value → Bool
  has_state none t = true
  has_state (some state) t = state_eq t.state state

  abbrev has_kind : Option Text → Task Value → Bool
  has_kind none t = true
  has_kind (some kind) t = text_eq t.kind kind

  abbrev pub is_listed : Option TaskState → Option Text → Task Value → Bool
  is_listed state kind t = has_state state t && has_kind kind t

  -- `key=lambda t: t.created_at, reverse=True`: equal keys keep their order.
  abbrev pub later_first : Task Value → Task Value → Bool
  later_first t u = leb u.created_at t.created_at

  -- The filters and the sort of `list`.
  unfoldable pub sorted_tasks : Option TaskState → Option Text → Scheduler Value → List (Task Value)
  unfolding sort_by
  sorted_tasks state kind s = sort_by later_first (keep (is_listed state kind) s.tasks)

  -- `list`
  unfoldable pub list_tasks :
      Option TaskState → Option Text → ℕ → Scheduler Value → List (Task Value)
  unfolding sorted_tasks
  list_tasks state kind limit s = take limit (sorted_tasks state kind s)

  abbrev pub is_stale : ℕ → ℕ → Task Value → Bool
  is_stale now ttl t = is_terminal t.state && outlived now ttl t.finished_at

  -- `_gc_once`, with the count that it returns.
  unfoldable pub gc_once : ℕ → Scheduler Value → ℕ × Scheduler Value
  gc_once now s = (
    length (keep (is_stale now s.gc_ttl_seconds) s.tasks),
    record s { tasks = keep (λ t. not (is_stale now s.gc_ttl_seconds t)) s.tasks },
  )

  -- `start_gc`
  unfoldable pub start_gc : Scheduler Value → Scheduler Value
  start_gc s = record s { gc_running = true }

  -- `stop_gc`
  unfoldable pub stop_gc : Scheduler Value → Scheduler Value
  stop_gc s = record s { gc_running = false }

  -- `shutdown`, up to its waits for the tasks.
  unfoldable pub shutdown : Scheduler Value → Scheduler Value
  unfolding stop_gc
  shutdown s = stop_gc (record s { tasks = map shut_task s.tasks })
