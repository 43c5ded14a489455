-- ===== src/App.antt =====
-- `App.db` and `App.embedder` of src/smalt_mcp/app.py: a resource that many threads open on demand, by
-- double-checked locking. A schedule is any sequence of moves of the threads, and each move is one
-- atomic step of the method.
pub mod Once
pub mod Observed
mod Tests
use smalt_mcp.Prelude.{
  ℕ, ◌+◌, Bool, true, false, Option, none, some, is_some, List, [], ◌∷◌, if◌then◌else◌, ◌==◌,
}

-- Where a thread stands: before the call; at the first test; blocked at the lock; at the second test;
-- before the resource is made; at the end of the `with`, where an exception may be on its way; before
-- it returns the field; and after the call. The resource goes by its number.
pub data Phase : Type 0 where
  outside looking waiting looking_again constructing leaving raising reading raised : Phase
  returned : Option ℕ → Phase

-- The field, the lock, and how many resources were made.
pub record Lazy : Type 0 where
  pub resource : Option ℕ
  pub init_lock_held : Bool
  pub constructed : ℕ
  pub threads : ℕ → Phase

-- `construct false` raises: the directory is missing, or the package raises.
pub data Move : Type 0 where
  call look take_lock look_again release read : Move
  construct : Bool → Move

-- `__init__`
abbrev pub new_lazy : Lazy
new_lazy = record {
  resource = none;
  init_lock_held = false;
  constructed = 0;
  threads = λ i. outside;
}

abbrev pub set_at : ℕ → Phase → (ℕ → Phase) → ℕ → Phase
set_at i phase threads j = if j == i then phase else threads j

abbrev pub goes : ℕ → Phase → Lazy → Option Lazy
goes i phase s = some (record s { threads = set_at i phase s.threads })

-- A move of thread `i` from its phase; `none` where the thread cannot make it.
abbrev pub move_from : Phase → Move → ℕ → Lazy → Option Lazy
move_from outside call i s = goes i looking s
move_from looking look i s = if is_some s.resource then goes i reading s else goes i waiting s
move_from waiting take_lock i s =
    if s.init_lock_held then none else goes i looking_again (record s { init_lock_held = true })
move_from looking_again look_again i s =
    if is_some s.resource then goes i leaving s else goes i constructing s
move_from constructing (construct true) i s =
    goes i leaving (record s { resource = some s.constructed; constructed = s.constructed + 1 })
move_from constructing (construct false) i s = goes i raising s
move_from leaving release i s = goes i reading (record s { init_lock_held = false })
move_from raising release i s = goes i raised (record s { init_lock_held = false })
move_from reading read i s = goes i (returned s.resource) s
move_from _ _ i s = none

unfoldable pub step : ℕ × Move → Lazy → Option Lazy
step (i, move) s = move_from (s.threads i) move i s

abbrev pub after_step : Option Lazy → (Lazy → Option Lazy) → Option Lazy
after_step none f = none
after_step (some s) f = f s

unfoldable pub run_schedule : List (ℕ × Move) → Lazy → Option Lazy
unfolding step
run_schedule [] s = some s
run_schedule (m ∷ moves) s = after_step (step m s) (run_schedule moves)
