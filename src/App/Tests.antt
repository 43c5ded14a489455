-- ===== src/App/Tests.antt =====
-- Schedules of two threads.
use smalt_mcp.Prelude.{
  ℕ, ◌≡◌, ◌≤◌, refl, true, some, none, is_some, List, [], ◌∷◌, ◌++◌, All, codes, false,
}
use smalt_mcp.Corpus.{IndexResult}
use smalt_mcp.Storage.Indexes.{built, build_skipped}
use smalt_mcp.App.Observed.{
  Run, Access, begin_record, begin_status, access_field, leave_section, Board, new_board,
  run_accesses,
}
use smalt_mcp.App.Observed.Whole.{replay, IsWhole, run_accesses-IsWhole}
use smalt_mcp.App.{
  returned, Lazy, Move, call, look, take_lock, look_again, release, read, construct, new_lazy, step,
  run_schedule,
}
use smalt_mcp.App.Once.{run_schedule-once}

-- Both threads find no resource; thread 0 makes it, and thread 1 finds it at the second test.
abbrev raced : List (ℕ × Move)
raced =
    (0, call)
    ∷ (1, call)
    ∷ (0, look)
    ∷ (1, look)
    ∷ (0, take_lock)
    ∷ (0, look_again)
    ∷ (0, construct true)
    ∷ (0, release)
    ∷ (1, take_lock)
    ∷ (1, look_again)
    ∷ (1, release)
    ∷ (1, read)
    ∷ []

raced-runs : (s : Lazy) × (run_schedule raced new_lazy ≡ some s) × (s.threads 1 ≡ returned (some 0))
unfolding run_schedule step
raced-runs = (_, refl, refl)

run_schedule-once_example :
    (raced-runs.0.constructed ≤ 1)
    × (some 0 ≡ raced-runs.0.resource)
    × (is_some {A = ℕ} (some 0) ≡ true)
run_schedule-once_example =
    run_schedule-once raced raced-runs.0 1 (some 0) raced-runs.1 raced-runs.2

abbrev counted : IndexResult
counted = record {
  scanned = 1;
  inserted = 1;
  updated = 0;
  skipped = 0;
  deleted = 0;
  failed = 0;
  failures = [];
  cancelled = false;
}

abbrev first_run : Run
first_run = record {
  now = 10;
  duration = 2;
  result = counted;
  fts_status = some ((codes "title", built) ∷ (codes "body", built) ∷ []);
  vector_status = some (build_skipped 1);
}

-- A run that changed no page: the search indexes were not refreshed.
abbrev idle_run : Run
idle_run = record first_run { now = 20; fts_status = none; vector_status = none }

abbrev five_times : ℕ → List (ℕ × Access)
five_times i =
    (i, access_field)
    ∷ (i, access_field)
    ∷ (i, access_field)
    ∷ (i, access_field)
    ∷ (i, access_field)
    ∷ (i, leave_section)
    ∷ []

-- Thread 0 records two runs, thread 1 asks for the status between them.
abbrev accesses : List (ℕ × Access)
accesses =
    ((0, begin_record first_run) ∷ five_times 0)
    ++ ((1, begin_status) ∷ five_times 1)
    ++ ((0, begin_record idle_run) ∷ five_times 0)

accesses-run :
    (b : Board) × (run_accesses accesses new_board ≡ some b)
    × (b.runs ≡ idle_run ∷ first_run ∷ [])
    × (b.observed.last_vector_status ≡ some (build_skipped 1))
    × (b.snapshots ≡ replay (first_run ∷ []) ∷ [])
unfolding run_accesses
accesses-run = (_, refl, refl, refl, refl)

run_accesses-IsWhole_example : All (IsWhole accesses-run.0.runs) accesses-run.0.snapshots
run_accesses-IsWhole_example = run_accesses-IsWhole accesses accesses-run.0 accesses-run.1
