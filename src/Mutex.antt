-- ===== src/Mutex.antt =====
-- `CorpusWriteMutex` of src/smalt_mcp/mutex.py with threads that run interleaved: each move of a
-- thread is one atomic step of `acquire`, and a schedule is any sequence of moves.
pub mod Exclusion
pub mod Progress
mod Tests
use smalt_mcp.Prelude.{
  ℕ, ◌+◌, Bool, true, false, Option, none, some, List, [], ◌∷◌, if◌then◌else◌, ◌==◌, Text,
}

-- Where a thread stands in `acquire`: before it; blocked at `self._lock.acquire()`; past that and
-- before it names itself; in the body of the `with`; past the reset of the holder.
pub data Phase : Type 0 where
  idle leaving : Phase
  waiting entering inside : Text → Phase

-- The fields of the mutex, and the phase of each thread. Waiting times are left out.
pub record Mutex : Type 0 where
  pub lock_held : Bool
  pub holder_name : Option Text
  pub acquires : ℕ
  pub threads : ℕ → Phase

-- The body ends by `leave`, whether it returns or raises.
pub data Move : Type 0 where
  ask : Text → Move
  take_lock enter leave release : Move

-- `__init__`
abbrev pub new_mutex : Mutex
new_mutex = record { lock_held = false; holder_name = none; acquires = 0; threads = λ i. idle }

abbrev pub set_phase : ℕ → Phase → (ℕ → Phase) → ℕ → Phase
set_phase i phase threads j = if j == i then phase else threads j

-- A move of thread `i` from its phase; `none` where the thread cannot make it.
abbrev pub move_from : Phase → Move → ℕ → Mutex → Option Mutex
move_from idle (ask name) i s = some (record s { threads = set_phase i (waiting name) s.threads })
move_from (waiting name) take_lock i s =
    if s.lock_held
    then none
    else some (record s { lock_held = true; threads = set_phase i (entering name) s.threads })
move_from (entering name) enter i s = some (record s {
  holder_name = some name;
  acquires = s.acquires + 1;
  threads = set_phase i (inside name) s.threads;
})
move_from (inside name) leave i s =
    some (record s { holder_name = none; threads = set_phase i leaving s.threads })
move_from leaving release i s =
    some (record s { lock_held = false; threads = set_phase i idle s.threads })
move_from _ _ i s = none

unfoldable pub step : ℕ × Move → Mutex → Option Mutex
step (i, move) s = move_from (s.threads i) move i s

abbrev pub and_then : Option Mutex → (Mutex → Option Mutex) → Option Mutex
and_then none f = none
and_then (some s) f = f s

unfoldable pub run_schedule : List (ℕ × Move) → Mutex → Option Mutex
unfolding step
run_schedule [] s = some s
run_schedule (m ∷ moves) s = and_then (step m s) (run_schedule moves)
