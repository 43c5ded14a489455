-- ===== src/Tools/WriteBatch/Careful.antt =====
-- `write_batch` writes nothing before it ends with an error of its first two phases.
use smalt_mcp.Prelude.{ℕ, ◌+◌, List, [], ◌∷◌, Text}
use smalt_mcp.Schema.{Link, Claim}
use smalt_mcp.Storage.Paths.{FilePath}
use smalt_mcp.Ids.{has_sep}
use smalt_mcp.Corpus.{External, Page}
use smalt_mcp.Corpus.Pages.{ParsedPage}
use smalt_mcp.Corpus.Respects.{
  Respects-pure, Respects-stop_if, Respects-bind, Respects-gets, Respects-or_stop, FailsBy-bind,
  FailsBy-pure, FailsBy-if,
}
use smalt_mcp.Tools.Write.{WriteMode, create, update}
use smalt_mcp.Tools.Careful.{
  ReadOnly, SameCorpus-IsPreorder, FailsLate, Careful, Careful-bind, Careful-late, careful_rules,
  FailsLate-index,
}
use smalt_mcp.Tools.Careful.Pages.{
  late_rules, upsert_section-FailsLate, overwrite_page-FailsLate, prepare-FailsLate,
}
use smalt_mcp.Tools.WriteBatch.Validate.{RawOp, BatchOp, page_op, link_op, claim_op, update_op}
use smalt_mcp.Tools.WriteBatch.Commit.{
  check_op, check_ops, insert_op, commit_page, commit_link, commit_claim, commit_update, commit_op,
  commit_ops,
}
use smalt_mcp.Tools.WriteBatch.{write_batch_locked, write_batch}

ruleset read_rules = (
  Respects-pure, Respects-stop_if, Respects-bind, Respects-gets, Respects-or_stop,
  SameCorpus-IsPreorder,
)

module _ (x : External) where
  check_op-ReadOnly : (i : ℕ) (op : BatchOp x) → ReadOnly x (check_op x i op)
  unfolding check_op
  check_op-ReadOnly i (page_op create page body) = search read_rules depth 9
  check_op-ReadOnly i (page_op update page body) = search read_rules depth 9
  check_op-ReadOnly i (link_op from_id l) = search read_rules depth 9
  check_op-ReadOnly i (claim_op page_id c) = search read_rules depth 9
  check_op-ReadOnly i (update_op page_id claim_id c) = search read_rules depth 12

  check_ops-ReadOnly : (i : ℕ) (ops : List (BatchOp x)) → ReadOnly x (check_ops x i ops)
  unfolding check_ops
  check_ops-ReadOnly i [] = Respects-pure (SameCorpus-IsPreorder x) tt
  check_ops-ReadOnly i (op ∷ ops) =
      Respects-bind (SameCorpus-IsPreorder x) _ _ (check_op-ReadOnly i op)
        λ u. check_ops-ReadOnly (i + 1) ops

  insert_op-FailsLate :
      (i : ℕ) (id : Text) (page : Page x) (body : Text) → FailsLate x (insert_op x i id page body)
  unfolding insert_op
  insert_op-FailsLate i id page body = search late_rules depth 9

  commit_page-FailsLate :
      (i : ℕ) (mode : WriteMode) (page : Page x) (body : Text)
      → FailsLate x (commit_page x i mode page body)
  unfolding commit_page
  commit_page-FailsLate i create page body =
      FailsBy-if (has_sep page.id) _ _ (upsert_section-FailsLate x page body) (
        FailsBy-bind _ _ (prepare-FailsLate x page)
          λ new_page. insert_op-FailsLate i page.id new_page body)
  commit_page-FailsLate i update page body = overwrite_page-FailsLate x page body

  commit_link-FailsLate :
      (path : FilePath) (p : ParsedPage x) (l : Link) → FailsLate x (commit_link x path p l)
  unfolding commit_link
  commit_link-FailsLate path p l = search late_rules depth 9

  commit_claim-FailsLate :
      (path : FilePath) (p : ParsedPage x) (c : Claim) → FailsLate x (commit_claim x path p c)
  unfolding commit_claim
  commit_claim-FailsLate path p c = search late_rules depth 9

  commit_update-FailsLate :
      (i : ℕ) (id : Text) (path : FilePath) (p : ParsedPage x) (claim_id : Text) (c : Claim)
      → FailsLate x (commit_update x i id path p claim_id c)
  unfolding commit_update
  commit_update-FailsLate i id path p claim_id c = search late_rules depth 9

  commit_op-FailsLate : (i : ℕ) (op : BatchOp x) → FailsLate x (commit_op x i op)
  unfolding commit_op
  commit_op-FailsLate i (page_op mode page body) =
      search (late_rules, commit_page-FailsLate) depth 12
  commit_op-FailsLate i (link_op from_id l) = search (late_rules, commit_link-FailsLate) depth 12
  commit_op-FailsLate i (claim_op page_id c) = search (late_rules, commit_claim-FailsLate) depth 12
  commit_op-FailsLate i (update_op page_id claim_id c) =
      search (late_rules, commit_update-FailsLate) depth 12

  commit_ops-FailsLate : (i : ℕ) (ops : List (BatchOp x)) → FailsLate x (commit_ops x i ops)
  unfolding commit_ops
  commit_ops-FailsLate i [] = FailsBy-pure []
  commit_ops-FailsLate i (op ∷ ops) =
      FailsBy-bind _ _ (commit_op-FailsLate i op)
        λ r. FailsBy-bind _ _ (commit_ops-FailsLate (i + 1) ops) λ rs. FailsBy-pure _

  write_batch_locked-Careful : (ops : List (BatchOp x)) → Careful x (write_batch_locked x ops)
  unfolding write_batch_locked
  write_batch_locked-Careful ops =
      Careful-bind x _ _ (check_ops-ReadOnly 0 ops) λ u.
        Careful-late x _ (FailsBy-bind _ _ (commit_ops-FailsLate 0 ops) λ r. FailsLate-index x _)

  pub write_batch-Careful : (ops : List (RawOp x)) → Careful x (write_batch x ops)
  unfolding write_batch
  write_batch-Careful ops = search (careful_rules, write_batch_locked-Careful) depth 12
