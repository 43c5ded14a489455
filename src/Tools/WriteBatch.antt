-- ===== src/Tools/WriteBatch.antt =====
-- `write_batch` of src/smalt_mcp/tools.py: entries of four kinds that are validated, looked up and
-- then committed, with one run of the indexer.
pub mod Validate
pub mod Commit
pub mod Careful
pub mod Results
pub mod Alone
mod Tests
use smalt_mcp.Prelude.{ℕ, ◌+◌, Bool, not, Option, List, [], ◌∷◌, length, Text, codes, ◌==◌}
use smalt_mcp.Corpus.{External, Do, IndexResult}
use smalt_mcp.Corpus.Actions.{missing_argument, ◌>>=◌, ◌>>◌, pure, stop_if, settled}
use smalt_mcp.Corpus.Pages.{ensure_initialized, with_mutex}
use smalt_mcp.Indexer.Run.{run_indexer}
use smalt_mcp.Tools.WriteBatch.Validate.{RawOp, BatchOp, validate_ops}
use smalt_mcp.Tools.WriteBatch.Commit.{OpResult, check_ops, commit_ops}

pub record BatchWritten : Type 0 where
  pub count : ℕ
  pub results : List OpResult
  pub index_result : IndexResult

module _ (x : External) where
  -- Phases 2 and 3.
  unfoldable pub write_batch_locked : List (BatchOp x) → Do x BatchWritten
  unfolding check_ops commit_ops
  write_batch_locked ops = do
    check_ops x 0 ops
    results ← commit_ops x 0 ops
    index_result ← run_indexer x
    pure (record { count = length results; results = results; index_result = index_result })

  unfoldable pub write_batch : List (RawOp x) → Do x BatchWritten
  unfolding validate_ops write_batch_locked
  write_batch ops = do
    ensure_initialized x
    stop_if (length ops == 0) missing_argument
    validated ← settled (validate_ops x 0 ops)
    with_mutex x (codes "write_batch") (write_batch_locked validated)
