-- ===== src/Mutex/Tests.antt =====
-- A schedule of two threads.
use smalt_mcp.Prelude.{ℕ, ◌≡◌, refl, true, false, none, some, List, [], ◌∷◌, arith, codes}
use smalt_mcp.Mutex.{
  idle, waiting, entering, inside, Mutex, Move, ask, take_lock, enter, new_mutex, step, set_phase,
  run_schedule,
}
use smalt_mcp.Mutex.Exclusion.{holds, run_schedule-exclusive}
use smalt_mcp.Mutex.Progress.{Gets, run_schedule-progress}

-- Thread 0 writes, thread 1 waits.
abbrev contended : List (ℕ × Move)
contended =
    (0, ask (codes "indexer")) ∷ (1, ask (codes "add_link")) ∷ (0, take_lock) ∷ (0, enter) ∷ []

abbrev after : Mutex
after = record {
  lock_held = true;
  holder_name = some (codes "indexer");
  acquires = 1;
  threads = set_phase 0 (inside (codes "indexer")) (
      set_phase 0 (entering (codes "indexer")) (
        set_phase 1 (waiting (codes "add_link"))
          (set_phase 0 (waiting (codes "indexer")) (λ i. idle))));
}

contended-runs : run_schedule contended new_mutex ≡ some after
unfolding run_schedule step
contended-runs = refl

-- Between `self._lock.acquire()` and the assignment, the lock is held and no holder is shown.
unnamed-held :
    (s : Mutex) × (run_schedule ((0, ask (codes "indexer")) ∷ (0, take_lock) ∷ []) new_mutex
      ≡ some s)
    × (s.lock_held ≡ true)
    × (s.holder_name ≡ none)
unfolding run_schedule step
unnamed-held = (_, refl, refl, refl)

run_schedule-exclusive_example : holds (after.threads 1) ≡ false
run_schedule-exclusive_example =
    run_schedule-exclusive contended after 0 1 contended-runs (λ e. omega (arith, e)) refl

run_schedule-progress_example : Gets 1 (codes "add_link") after
run_schedule-progress_example =
    run_schedule-progress contended after 1 (codes "add_link") contended-runs refl
