-- ===== src/Tasks.antt =====
-- Tasks in the background: `Task` and `Scheduler` of src/smalt_mcp/scheduler.py. The event loop is not
-- part of the repository: what it may do with a task is a `Turn`, and any list of turns is a run.
pub mod Life
pub mod Ends
pub mod Registry
pub mod Lookup
pub mod Listing
pub mod Handlers
pub mod Polls
mod Tests
use smalt_mcp.Prelude.{ℕ, Bool, true, false, Option, none, some, List, [], ◌∷◌, if◌then◌else◌, Text}

-- `TaskState`
pub data TaskState : Type 0 where
  pending running succeeded failed cancelled : TaskState

-- `TERMINAL_STATES`
abbrev pub is_terminal : TaskState → Bool
is_terminal pending = false
is_terminal running = false
is_terminal succeeded = true
is_terminal failed = true
is_terminal cancelled = true

-- The `asyncio.Task` under a task: its coroutine has not begun, waits in `await work(task)`, or ended.
pub data Coroutine : Type 0 where
  unstarted awaiting ended : Coroutine

-- `Task`; `Value` is what a work function reports and returns. `interrupted` says that
-- `_asyncio_task.cancel()` was called.
pub record Task (Value : Type 0) : Type 0 where
  pub id : Text
  pub kind : Text
  pub state : TaskState
  pub created_at : ℕ
  pub started_at : Option ℕ
  pub finished_at : Option ℕ
  pub progress : List Value
  pub result : Option Value
  pub error : Option Text
  pub cancel_requested : Bool
  pub coroutine : Coroutine
  pub interrupted : Bool

-- What the event loop does with a task: it gives the coroutine its first step; the work writes to
-- `progress`, returns, raises, or lets a `CancelledError` out.
pub data Turn (Value : Type 0) : Type 0 where
  first_step work_cancelled : Turn Value
  reports returns : Value → Turn Value
  raises : Text → Turn Value

abbrev is_ended : Coroutine → Bool
is_ended unstarted = false
is_ended awaiting = false
is_ended ended = true

module _ {Value : Type 0} where
  -- A task as `enqueue` creates it.
  unfoldable pub new_task : Text → Text → ℕ → Task Value
  new_task id kind now = record {
    id = id;
    kind = kind;
    state = pending;
    created_at = now;
    started_at = none;
    finished_at = none;
    progress = [];
    result = none;
    error = none;
    cancel_requested = false;
    coroutine = unstarted;
    interrupted = false;
  }

  -- The first lines of `_runner`. A coroutine that is cancelled before its first step never begins.
  unfoldable pub begin_run : ℕ → Task Value → Task Value
  begin_run now t =
      if t.interrupted
      then record t { coroutine = ended }
      else record t { state = running; started_at = some now; coroutine = awaiting }

  -- The end of `_runner`, with its `finally`.
  unfoldable pub finish_run : ℕ → Turn Value → Task Value → Task Value
  finish_run now first_step t = t
  finish_run now (reports v) t = record t { progress = v ∷ t.progress }
  finish_run now (returns v) t =
      if t.cancel_requested
      then record t { state = cancelled; finished_at = some now; coroutine = ended }
      else record t {
        state = succeeded;
        result = some v;
        finished_at = some now;
        coroutine = ended;
      }
  finish_run now work_cancelled t = record t {
    state = cancelled;
    finished_at = some now;
    coroutine = ended;
  }
  finish_run now (raises e) t = record t {
    state = failed;
    error = some e;
    finished_at = some now;
    coroutine = ended;
  }

  abbrev turn_in : Coroutine → ℕ → Turn Value → Task Value → Task Value
  turn_in unstarted now first_step t = begin_run now t
  turn_in unstarted now _ t = t
  turn_in awaiting now turn t = finish_run now turn t
  turn_in ended now turn t = t

  -- `_runner`, one turn of the event loop at a time.
  unfoldable pub run_turn : ℕ → Turn Value → Task Value → Task Value
  unfolding begin_run finish_run
  run_turn now turn t = turn_in t.coroutine now turn t

  -- `if task._asyncio_task is not None and not task._asyncio_task.done(): task._asyncio_task.cancel()`
  unfoldable pub interrupt : Task Value → Task Value
  interrupt t = if is_ended t.coroutine then t else record t { interrupted = true }

  abbrev request_in : TaskState → ℕ → Task Value → Task Value
  request_in pending now t = record t {
    cancel_requested = true;
    state = cancelled;
    finished_at = some now;
  }
  request_in running now t = record t { cancel_requested = true }
  request_in _ now t = t

  -- `Scheduler.cancel` at a task that is registered.
  unfoldable pub cancel_task : ℕ → Task Value → Task Value
  unfolding interrupt
  cancel_task now t = if is_terminal t.state then t else interrupt (request_in t.state now t)

  -- The body of the first loop of `Scheduler.shutdown`.
  unfoldable pub shut_task : Task Value → Task Value
  unfolding interrupt
  shut_task t = if is_terminal t.state then t else interrupt (record t { cancel_requested = true })
