-- ===== src/Tasks/Tests.antt =====
-- Runs of tasks that report numbers.
use smalt_mcp.Prelude.{
  ℕ, ◌≡◌, ◌≢◌, refl, arith, Bool, false, true, none, some, List, [], ◌∷◌, codes, any, take, length,
  text_eq,
}
use smalt_mcp.Corpus.Memory.{memory}
use smalt_mcp.Tools.Tests.{world}
use smalt_mcp.Tasks.{
  Task, pending, running, succeeded, unstarted, awaiting, ended, first_step, reports, returns,
  new_task, shut_task, cancel_task,
}
use smalt_mcp.Tasks.Life.{
  Happening, turn, cancel, shutdown, live, IsConsistent, Reach, live-IsConsistent_new, live-Reach,
}
use smalt_mcp.Tasks.Ends.{
  SameOutcome, run_turns, live-SameOutcome, live-cancel_task, run_turns-shut_task,
}
use smalt_mcp.Tasks.Registry.{Scheduler, list_tasks, sorted_tasks}
use smalt_mcp.Tasks.Listing.{IsNewestFirst, list_tasks-IsNewestFirst}
use smalt_mcp.Tasks.Handlers.{Host}

-- A run that is cancelled while it works, and returns all the same.
abbrev cancelled_run : List (ℕ × Happening ℕ)
cancelled_run =
    (1, turn first_step)
    ∷ (2, turn (reports 5))
    ∷ (3, cancel)
    ∷ (4, turn (returns 7))
    ∷ (5, shutdown)
    ∷ []

abbrev fresh : Task ℕ
fresh = record {
  id = codes "t1";
  kind = codes "reindex_all";
  state = pending;
  created_at = 0;
  started_at = none;
  finished_at = none;
  progress = [];
  result = none;
  error = none;
  cancel_requested = false;
  coroutine = unstarted;
  interrupted = false;
}

-- A task that succeeded at time 9.
abbrev done_task : Task ℕ
done_task = record fresh {
  id = codes "t0";
  state = succeeded;
  started_at = some 1;
  finished_at = some 9;
  result = some 7;
  coroutine = ended;
}

abbrev busy : Task ℕ
busy = record fresh {
  id = codes "t2";
  created_at = 4;
  state = running;
  started_at = some 5;
  coroutine = awaiting;
}

live-IsConsistent_new_example :
    IsConsistent (live cancelled_run (new_task (codes "t1") (codes "reindex_all") 0))
live-IsConsistent_new_example =
    live-IsConsistent_new cancelled_run (codes "t1") (codes "reindex_all") 0

done_task-IsConsistent : IsConsistent done_task
done_task-IsConsistent = ground arith

fresh-IsConsistent : IsConsistent fresh
fresh-IsConsistent = ground arith

live-Reach_example : Reach pending (live cancelled_run fresh).state
live-Reach_example = live-Reach cancelled_run fresh fresh-IsConsistent

live-SameOutcome_example : SameOutcome done_task (live cancelled_run done_task)
live-SameOutcome_example = live-SameOutcome cancelled_run done_task done_task-IsConsistent refl

live-cancel_task_example : (live cancelled_run (cancel_task 6 busy)).state ≢ succeeded
live-cancel_task_example = live-cancel_task cancelled_run 6 busy refl

run_turns-shut_task_example :
    let t = run_turns ((1, first_step) ∷ (2, returns 7) ∷ []) (shut_task fresh) in
    (t.state ≡ pending) × (t.finished_at ≡ none)
run_turns-shut_task_example =
    run_turns-shut_task ((1, first_step) ∷ (2, returns 7) ∷ []) fresh refl refl refl

abbrev registry : Scheduler ℕ
registry = record {
  tasks = fresh ∷ done_task ∷ busy ∷ [];
  gc_ttl_seconds = 3600;
  gc_running = false;
}

abbrev host : Host memory ℕ
host = record { world = world; scheduler = registry; now = 20; drawn_id = codes "t9" }

abbrev is_busy : Task ℕ → Bool
is_busy t = text_eq t.id (codes "t2")

list_tasks-IsNewestFirst_example :
    (length (list_tasks none none 2 registry) ≡ 2)
    × IsNewestFirst (list_tasks none none 2 registry)
    × IsNewestFirst (sorted_tasks none none registry)
    × (list_tasks none none 2 registry ≡ take 2 (sorted_tasks none none registry))
    × (any is_busy (sorted_tasks none none registry) ≡ true)
list_tasks-IsNewestFirst_example = list_tasks-IsNewestFirst none none 2 registry is_busy
