-- ===== src/App/Observed.antt =====
-- The observability fields of `App` in src/smalt_mcp/app.py: `record_indexer_run` writes them one after
-- the other, `index_status_payload` reads them one after the other, and other threads may run between
-- any two accesses. Both do so inside `with self._obs_lock`, where one thread is at a time.
pub mod Whole
use smalt_mcp.Prelude.{
  ℕ, ◌+◌, Bool, true, false, Option, none, some, List, [], ◌∷◌, if◌then◌else◌, ◌==◌, Text,
}
use smalt_mcp.Corpus.{IndexResult}
use smalt_mcp.Storage.Indexes.{IndexState}

-- What a pass of the indexer brings: the clock's reading, and of `IndexResult` the timing, the counts,
-- and the states of the search indexes, where they were refreshed.
pub record Run : Type 0 where
  pub now : ℕ
  pub duration : ℕ
  pub result : IndexResult
  pub fts_status : Option (List (Text × IndexState))
  pub vector_status : Option IndexState

pub record Observed : Type 0 where
  pub last_indexer_run_at : Option ℕ
  pub last_indexer_run_duration : Option ℕ
  pub last_indexer_result : Option IndexResult
  pub last_fts_status : Option (List (Text × IndexState))
  pub last_vector_status : Option IndexState

pub data Field : Type 0 where
  run_at run_duration run_result fts_state vector_state : Field

-- The order in which both methods go through the fields.
abbrev pub all_fields : List Field
all_fields = run_at ∷ run_duration ∷ run_result ∷ fts_state ∷ vector_state ∷ []

-- `if new is not None`
abbrev or_before : {A : Type 0} → Option A → Option A → Option A
or_before (some new) before = some new
or_before none before = before

-- An assignment of `record_indexer_run`.
abbrev pub assign : Field → Run → Observed → Observed
assign run_at r o = record o { last_indexer_run_at = some r.now }
assign run_duration r o = record o { last_indexer_run_duration = some r.duration }
assign run_result r o = record o { last_indexer_result = some r.result }
assign fts_state r o = record o { last_fts_status = or_before r.fts_status o.last_fts_status }
assign vector_state r o = record o {
  last_vector_status = or_before r.vector_status o.last_vector_status;
}

-- An assignment of the snapshot in `index_status_payload`.
abbrev pub copy : Field → Observed → Observed → Observed
copy run_at o taken = record taken { last_indexer_run_at = o.last_indexer_run_at }
copy run_duration o taken = record taken { last_indexer_run_duration = o.last_indexer_run_duration }
copy run_result o taken = record taken { last_indexer_result = o.last_indexer_result }
copy fts_state o taken = record taken { last_fts_status = o.last_fts_status }
copy vector_state o taken = record taken { last_vector_status = o.last_vector_status }

-- What is left to do in a `with` block: fields to write, or fields to read into a snapshot.
pub data Section : Type 0 where
  writing : List Field → Run → Section
  taking : List Field → Observed → Section

-- The fields, the thread that has the lock with what it is about, the runs that were recorded, the
-- last one first, and the snapshots that were taken.
pub record Board : Type 0 where
  pub observed : Observed
  pub section : Option (ℕ × Section)
  pub runs : List Run
  pub snapshots : List Observed

pub data Access : Type 0 where
  begin_record : Run → Access
  begin_status access_field leave_section : Access

-- `__init__`
abbrev pub nothing_observed : Observed
nothing_observed = record {
  last_indexer_run_at = none;
  last_indexer_run_duration = none;
  last_indexer_result = none;
  last_fts_status = none;
  last_vector_status = none;
}

abbrev pub new_board : Board
new_board = record { observed = nothing_observed; section = none; runs = []; snapshots = [] }

-- The thread goes on in its `with` block.
abbrev pub go_on : ℕ → Section → Access → Board → Option Board
go_on i (writing (f ∷ fs) r) access_field b =
    some (record b { observed = assign f r b.observed; section = some (i, writing fs r) })
go_on i (writing [] r) leave_section b = some (record b { section = none; runs = r ∷ b.runs })
go_on i (taking (f ∷ fs) taken) access_field b =
    some (record b { section = some (i, taking fs (copy f b.observed taken)) })
go_on i (taking [] taken) leave_section b =
    some (record b { section = none; snapshots = taken ∷ b.snapshots })
go_on i _ _ b = none

-- An access of thread `i`; `none` where it is not its turn.
abbrev pub access : ℕ → Option (ℕ × Section) → Access → Board → Option Board
access i none (begin_record r) b = some (record b { section = some (i, writing all_fields r) })
access i none begin_status b =
    some (record b { section = some (i, taking all_fields nothing_observed) })
access i none _ b = none
access i (some (j, todo)) a b = if i == j then go_on i todo a b else none

abbrev pub after_access : Option Board → (Board → Option Board) → Option Board
after_access none f = none
after_access (some b) f = f b

unfoldable pub run_accesses : List (ℕ × Access) → Board → Option Board
run_accesses [] b = some b
run_accesses ((i, a) ∷ rest) b = after_access (access i b.section a b) (run_accesses rest)
