-- ===== src/Tasks/Life.antt =====
-- The life of one task, whatever the event loop and the callers do.
use smalt_mcp.Prelude.{ℕ, ◌≡◌, ◌⊎◌, arith, true, none, is_some, List, [], ◌∷◌, Text}
use smalt_mcp.Tasks.{
  TaskState, pending, running, succeeded, failed, cancelled, is_terminal, unstarted, awaiting, Task,
  Turn, new_task, begin_run, finish_run, run_turn, interrupt, cancel_task, shut_task,
}

-- All that happens to a task.
pub data Happening (Value : Type 0) : Type 0 where
  turn : Turn Value → Happening Value
  cancel shutdown : Happening Value

-- The documented life: pending, running, and then one of the terminal states for good. A pending
-- task may be cancelled.
abbrev pub Leads : TaskState → TaskState → Type 0
Leads s u =
    (u ≡ s)
    ⊎ ((s ≡ pending) × (u ≡ running))
    ⊎ ((s ≡ pending) × (u ≡ cancelled))
    ⊎ ((s ≡ running) × (is_terminal u ≡ true))

pub data Reach (s : TaskState) : TaskState → Type 0 where
  here : Reach s s
  next : {t u : TaskState} → Reach s t → Leads t u → Reach s u

module _ {Value : Type 0} where
  unfoldable pub happen : ℕ × Happening Value → Task Value → Task Value
  unfolding run_turn cancel_task shut_task
  happen (now, turn step) t = run_turn now step t
  happen (now, cancel) t = cancel_task now t
  happen (now, shutdown) t = shut_task t

  unfoldable pub live : List (ℕ × Happening Value) → Task Value → Task Value
  unfolding happen
  live [] t = t
  live (h ∷ hs) t = live hs (happen h t)

  -- What the fields of a task say together.
  pub record IsConsistent (t : Task Value) : Type 0 where
    pub terminal_finished : is_terminal t.state ≡ is_some t.finished_at
    pub result_succeeded : is_some t.result ≡ true → t.state ≡ succeeded
    pub error_failed : is_some t.error ≡ true → t.state ≡ failed
    pub running_awaits : t.state ≡ running → t.coroutine ≡ awaiting
    pub awaiting_runs : t.coroutine ≡ awaiting → t.state ≡ running
    pub unstarted_pending : t.coroutine ≡ unstarted → (t.state ≡ pending) ⊎ (t.interrupted ≡ true)
    pub unstarted_never : t.coroutine ≡ unstarted → t.started_at ≡ none

  new_task-IsConsistent : (id kind : Text) (now : ℕ) → IsConsistent (new_task id kind now)
  unfolding new_task
  new_task-IsConsistent id kind now = ground arith

  pub happen-IsConsistent :
      (h : ℕ × Happening Value) (t : Task Value) → IsConsistent t → IsConsistent (happen h t)
  unfolding happen run_turn begin_run finish_run cancel_task shut_task interrupt
  happen-IsConsistent h t c = ground arith

  live-IsConsistent :
      (hs : List (ℕ × Happening Value)) (t : Task Value) → IsConsistent t → IsConsistent (live hs t)
  unfolding live
  live-IsConsistent [] t c = c
  live-IsConsistent (h ∷ hs) t c = live-IsConsistent hs (happen h t) (happen-IsConsistent h t c)

  happen-Leads :
      (h : ℕ × Happening Value) (t : Task Value) → IsConsistent t → Leads t.state (happen h t).state
  unfolding happen run_turn begin_run finish_run cancel_task shut_task interrupt
  happen-Leads h t c = ground (arith, c)

  live-Reach_from :
      (s : TaskState) (hs : List (ℕ × Happening Value)) (t : Task Value)
      → IsConsistent t
      → Reach s t.state
      → Reach s (live hs t).state
  unfolding live
  live-Reach_from s [] t c r = r
  live-Reach_from s (h ∷ hs) t c r =
      live-Reach_from s hs (happen h t) (happen-IsConsistent h t c) (next r (happen-Leads h t c))

-- A new task is consistent, and stays so whatever happens to it: it has a time of its end exactly
-- in a terminal state, a result only if it succeeded, an error only if it failed, and it runs exactly
-- while its coroutine waits for the work.
pub live-IsConsistent_new :
    {Value : Type 0} (hs : List (ℕ × Happening Value)) (id kind : Text) (now : ℕ)
    → IsConsistent (live hs (new_task id kind now))
live-IsConsistent_new hs id kind now = live-IsConsistent hs _ (new_task-IsConsistent id kind now)

-- From one moment to any later one, the state of a consistent task goes along the documented life.
pub live-Reach :
    {Value : Type 0} (hs : List (ℕ × Happening Value)) (t : Task Value)
    → IsConsistent t
    → Reach t.state (live hs t).state
live-Reach hs t c = live-Reach_from t.state hs t c here
