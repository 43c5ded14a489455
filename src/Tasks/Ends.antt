-- ===== src/Tasks/Ends.antt =====
-- How a task ends, and that it stays ended.
use smalt_mcp.Prelude.{
  ℕ, ◌≡◌, ◌≢◌, refl, ap, ◌∙◌, ◌⊎◌, arith, Bool, true, false, none, List, [], ◌∷◌,
}
use smalt_mcp.Tasks.{
  pending, succeeded, is_terminal, unstarted, ended, Task, Turn, first_step, work_cancelled,
  reports, returns, raises, begin_run, finish_run, run_turn, interrupt, cancel_task, shut_task,
}
use smalt_mcp.Tasks.Life.{Happening, happen, live, IsConsistent, happen-IsConsistent}

module _ {Value : Type 0} where
  -- What a task that has ended tells its callers.
  pub record SameOutcome (t u : Task Value) : Type 0 where
    pub same_state : u.state ≡ t.state
    pub same_result : u.result ≡ t.result
    pub same_error : u.error ≡ t.error
    pub same_finished : u.finished_at ≡ t.finished_at

  happen-SameOutcome :
      (h : ℕ × Happening Value) (t : Task Value)
      → IsConsistent t
      → is_terminal t.state ≡ true
      → SameOutcome t (happen h t)
  unfolding happen run_turn begin_run finish_run cancel_task shut_task interrupt
  happen-SameOutcome h t c e = ground (arith, c)

  live-SameOutcome_from :
      (hs : List (ℕ × Happening Value)) (t u : Task Value)
      → IsConsistent u
      → is_terminal t.state ≡ true
      → SameOutcome t u
      → SameOutcome t (live hs u)
  unfolding live
  live-SameOutcome_from [] t u c e same = same
  live-SameOutcome_from (h ∷ hs) t u c e same =
      let now = happen-SameOutcome h u c (ap is_terminal same.same_state ∙ e) in
      live-SameOutcome_from hs t (happen h u) (happen-IsConsistent h u c) e (record {
        same_state = now.same_state ∙ same.same_state;
        same_result = now.same_result ∙ same.same_result;
        same_error = now.same_error ∙ same.same_error;
        same_finished = now.same_finished ∙ same.same_finished;
      })

  -- Cancelled, or on the way to an end that is no success.
  record IsDoomed (t : Task Value) : Type 0 where
    asked : t.cancel_requested ≡ true
    no_success : t.state ≢ succeeded

  happen-IsDoomed : (h : ℕ × Happening Value) (t : Task Value) → IsDoomed t → IsDoomed (happen h t)
  unfolding happen run_turn begin_run finish_run cancel_task shut_task interrupt
  happen-IsDoomed h t d = ground (arith, d)

  live-IsDoomed :
      (hs : List (ℕ × Happening Value)) (t : Task Value) → IsDoomed t → IsDoomed (live hs t)
  unfolding live
  live-IsDoomed [] t d = d
  live-IsDoomed (h ∷ hs) t d = live-IsDoomed hs (happen h t) (happen-IsDoomed h t d)

  cancel_task-IsDoomed :
      (now : ℕ) (t : Task Value) → is_terminal t.state ≡ false → IsDoomed (cancel_task now t)
  unfolding cancel_task interrupt
  cancel_task-IsDoomed now t e = ground arith

  -- Shut down before its first step.
  record IsStranded (t : Task Value) : Type 0 where
    still_pending : t.state ≡ pending
    no_end : t.finished_at ≡ none
    never_begins : (t.coroutine ≡ ended) ⊎ ((t.coroutine ≡ unstarted) × (t.interrupted ≡ true))

  run_turn-IsStranded :
      (now : ℕ) (step : Turn Value) (t : Task Value)
      → IsStranded t
      → IsStranded (run_turn now step t)
  unfolding run_turn begin_run finish_run
  run_turn-IsStranded now step t d = ground (arith, d)

  -- Only the event loop.
  unfoldable pub run_turns : List (ℕ × Turn Value) → Task Value → Task Value
  run_turns [] t = t
  run_turns ((now, step) ∷ turns) t = run_turns turns (run_turn now step t)

  run_turns-IsStranded :
      (turns : List (ℕ × Turn Value)) (t : Task Value)
      → IsStranded t
      → IsStranded (run_turns turns t)
  unfolding run_turns
  run_turns-IsStranded [] t d = d
  run_turns-IsStranded ((now, step) ∷ turns) t d =
      run_turns-IsStranded turns (run_turn now step t) (run_turn-IsStranded now step t d)

  shut_task-IsStranded :
      (t : Task Value)
      → t.state ≡ pending
      → t.coroutine ≡ unstarted
      → t.finished_at ≡ none
      → IsStranded (shut_task t)
  unfolding shut_task interrupt
  shut_task-IsStranded t e c f = ground arith

  -- A turn that ends the work: it returns, raises, or lets a `CancelledError` out.
  abbrev pub ends_work : Turn Value → Bool
  ends_work first_step = false
  ends_work (reports v) = false
  ends_work (returns v) = true
  ends_work (raises e) = true
  ends_work work_cancelled = true

-- A consistent task in a terminal state keeps its state, result, error and time of its end, whatever
-- happens.
pub live-SameOutcome :
    {Value : Type 0} (hs : List (ℕ × Happening Value)) (t : Task Value)
    → IsConsistent t
    → is_terminal t.state ≡ true
    → SameOutcome t (live hs t)
live-SameOutcome hs t c e =
    live-SameOutcome_from hs t t c e
      (record { same_state = refl; same_result = refl; same_error = refl; same_finished = refl })

-- Once `cancel` was called on a task that had not ended, the task never succeeds, whatever its work
-- does.
pub live-cancel_task :
    {Value : Type 0} (hs : List (ℕ × Happening Value)) (now : ℕ) (t : Task Value)
    → is_terminal t.state ≡ false
    → (live hs (cancel_task now t)).state ≢ succeeded
live-cancel_task hs now t e =
    (live-IsDoomed hs (cancel_task now t) (cancel_task-IsDoomed now t e)).no_success

-- A task that is shut down before its first step is pending for ever and has no end, whatever turns
-- the event loop still gives it.
pub run_turns-shut_task :
    {Value : Type 0} (turns : List (ℕ × Turn Value)) (t : Task Value)
    → t.state ≡ pending
    → t.coroutine ≡ unstarted
    → t.finished_at ≡ none
    → ((run_turns turns (shut_task t)).state ≡ pending)
      × ((run_turns turns (shut_task t)).finished_at ≡ none)
run_turns-shut_task turns t e c f =
    let stranded = run_turns-IsStranded turns (shut_task t) (shut_task-IsStranded t e c f) in
    (stranded.still_pending, stranded.no_end)

-- A task that was neither cancelled nor shut down ends with its first step and any turn that ends
-- the work.
run_turns-ends :
    {Value : Type 0} (start finish : ℕ) (step : Turn Value) (t : Task Value)
    → t.coroutine ≡ unstarted
    → t.interrupted ≡ false
    → ends_work step ≡ true
    → is_terminal (run_turns ((start, first_step) ∷ (finish, step) ∷ []) t).state ≡ true
unfolding run_turns run_turn begin_run finish_run
run_turns-ends start finish step t c i e = ground arith
