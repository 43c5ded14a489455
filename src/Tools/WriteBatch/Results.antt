-- ===== src/Tools/WriteBatch/Results.antt =====
-- What `write_batch` returns when it succeeds.
use smalt_mcp.Prelude.{
  ℕ, zero, suc, ◌+◌, ◌≡◌, refl, ap, ◌∙◌, List, [], ◌∷◌, Option, none, some, map, length, Text,
  subst, arith,
}
use smalt_mcp.Corpus.{External, World, Page, Do}
use smalt_mcp.Corpus.Actions.{Outcome, done, fail, cons_outcome}
use smalt_mcp.Corpus.Yields.{Yields, Yields-pure, Yields-bind, Yields-then, Yields-settled}
use smalt_mcp.Corpus.Pages.{with_mutex}
use smalt_mcp.Tools.WriteBatch.Validate.{
  raw_kind, op_kind, RawOp, BatchOp, page_op, link_op, claim_op, update_op, validate_op,
  validate_ops, checked_op, page_entry, no_object, unknown_kind, write_page, add_link, add_claim,
  update_claim, page_kind,
}
use smalt_mcp.Tools.Claims.{not_object, invalid, valid}
use smalt_mcp.Tools.Write.{WriteMode, parse_mode}
use smalt_mcp.Tools.WriteBatch.Commit.{OpResult, commit_op, commit_ops}
use smalt_mcp.Tools.WriteBatch.{BatchWritten, write_batch_locked, write_batch}

-- `n` numbers from `i` on.
abbrev count_up : ℕ → ℕ → List ℕ
count_up i zero = []
count_up i (suc n) = i ∷ count_up (i + 1) n

module _ (x : External) where
  -- One result for each entry, in the order of the entries and of their kinds.
  abbrev IsAnswered : ℕ → List (BatchOp x) → List OpResult → Type 0
  IsAnswered i ops results =
      (map (λ r. r.index) results ≡ count_up i (length ops))
      × (map (λ r. some r.kind) results ≡ map (λ v. some (op_kind x v)) ops)
      × (length results ≡ length ops)

  commit_op-Yields :
      (i : ℕ) (op : BatchOp x)
      → Yields (λ r. (r.index ≡ i) × (r.kind ≡ op_kind x op)) (commit_op x i op)
  unfolding commit_op
  commit_op-Yields i (page_op mode page body) = Yields-then _ _ λ e. Yields-pure _ (refl, refl)
  commit_op-Yields i (link_op from_id l) = Yields-then _ _ λ e. Yields-pure _ (refl, refl)
  commit_op-Yields i (claim_op page_id c) = Yields-then _ _ λ e. Yields-pure _ (refl, refl)
  commit_op-Yields i (update_op page_id claim_id c) =
      Yields-then _ _ λ e. Yields-pure _ (refl, refl)

  commit_ops-Yields :
      (i : ℕ) (ops : List (BatchOp x)) → Yields (IsAnswered i ops) (commit_ops x i ops)
  unfolding commit_ops
  commit_ops-Yields i [] = Yields-pure [] (refl, refl, refl)
  commit_ops-Yields i (op ∷ ops) = Yields-bind _ _ (commit_op-Yields i op) λ r h.
      Yields-bind _ _ (commit_ops-Yields (i + 1) ops) λ rs k. Yields-pure _ (cc, cc, ap suc k.2)

  checked_op-kind :
      (i : ℕ) (mode : WriteMode) (o : Option (Page x)) (body : Text) (v : BatchOp x)
      → checked_op x i mode o body ≡ done v
      → op_kind x v ≡ page_kind
  checked_op-kind i mode none body v h = cc
  checked_op-kind i mode (some page) body v h = ground (arith, h)

  page_entry-kind :
      (i : ℕ) (o : Option WriteMode) (raw : x.Raw) (body : Text) (v : BatchOp x)
      → page_entry x i o raw body ≡ done v
      → some (op_kind x v) ≡ some page_kind
  page_entry-kind i none raw body v h = cc
  page_entry-kind i (some mode) raw body v h = ap some (checked_op-kind i mode _ body v h)

  validate_op-kind :
      (i : ℕ) (op : RawOp x) (v : BatchOp x)
      → validate_op x i op ≡ done v
      → some (op_kind x v) ≡ raw_kind x op
  unfolding validate_op
  validate_op-kind i no_object v h = cc
  validate_op-kind i unknown_kind v h = cc
  validate_op-kind i (write_page none body mode) v h = cc
  validate_op-kind i (write_page (some raw) body mode) v h =
      page_entry-kind i (parse_mode mode) raw _ v h
  validate_op-kind i (add_link from_id to_id none) v h = ground (arith, h)
  validate_op-kind i (add_link from_id to_id (some extras)) v h = ground (arith, h)
  validate_op-kind i (add_claim page_id not_object) v h = ground (arith, h)
  validate_op-kind i (add_claim page_id invalid) v h = ground (arith, h)
  validate_op-kind i (add_claim page_id (valid c)) v h = ground (arith, h)
  validate_op-kind i (update_claim page_id claim_id not_object raw_id) v h = ground (arith, h)
  validate_op-kind i (update_claim page_id claim_id invalid raw_id) v h = ground (arith, h)
  validate_op-kind i (update_claim page_id claim_id (valid c) raw_id) v h = ground (arith, h)

  abbrev IsValidated : List (RawOp x) → List (BatchOp x) → Type 0
  IsValidated ops vs =
      (map (λ v. some (op_kind x v)) vs ≡ map (raw_kind x) ops) × (length vs ≡ length ops)

  cons-IsValidated :
      (op : RawOp x) (ops : List (RawOp x)) (o : Outcome (BatchOp x))
      (rest : Outcome (List (BatchOp x)))
      → ((v : BatchOp x) → o ≡ done v → some (op_kind x v) ≡ raw_kind x op)
      → ((vs : List (BatchOp x)) → rest ≡ done vs → IsValidated ops vs)
      → (vs : List (BatchOp x)) → cons_outcome o rest ≡ done vs
      → IsValidated (op ∷ ops) vs
  cons-IsValidated op ops (fail e) rest h k vs q = cc
  cons-IsValidated op ops (done v) (fail e) h k vs q = cc
  cons-IsValidated op ops (done v) (done rest) h k vs q =
      let same : v ∷ rest ≡ vs = cc in
      let (kinds, len) = k rest refl in
      let kind = h v refl in subst (IsValidated (op ∷ ops)) same (cc, ap suc len)

  validate_ops-IsValidated :
      (i : ℕ) (ops : List (RawOp x)) (vs : List (BatchOp x))
      → validate_ops x i ops ≡ done vs
      → IsValidated ops vs
  unfolding validate_ops
  validate_ops-IsValidated i [] vs q =
      let same : [] ≡ vs = cc in subst (IsValidated []) same (refl, refl)
  validate_ops-IsValidated i (op ∷ ops) vs q =
      cons-IsValidated op ops _ _ (validate_op-kind i op) (validate_ops-IsValidated (i + 1) ops) vs
        q

  abbrev pub IsComplete : List (RawOp x) → BatchWritten → Type 0
  IsComplete ops r =
      (r.count ≡ length ops)
      × (map (λ r. r.index) r.results ≡ count_up 0 (length ops))
      × (map (λ r. some r.kind) r.results ≡ map (raw_kind x) ops)

  write_batch_locked-Yields :
      (ops : List (RawOp x)) (vs : List (BatchOp x))
      → IsValidated ops vs
      → Yields (IsComplete ops) (write_batch_locked x vs)
  unfolding write_batch_locked
  write_batch_locked-Yields ops vs h = Yields-then _ _ λ u.
      Yields-bind _ _ (commit_ops-Yields 0 vs)
        λ rs k. Yields-then _ _ λ r. Yields-pure _ (k.2 ∙ h.1, k.0 ∙ ap (count_up 0) h.1, k.1 ∙ h.0)

  Yields-with_mutex :
      {A : Type 0} {P : A → Type 0} (name : Text) (m : Do x A)
      → Yields P m
      → Yields P (with_mutex x name m)
  unfolding with_mutex
  Yields-with_mutex name m h = record { at = λ w a q. h.at _ a q }

  write_batch-Yields : (ops : List (RawOp x)) → Yields (IsComplete ops) (write_batch x ops)
  unfolding write_batch
  write_batch-Yields ops = Yields-then _ _ λ u. Yields-then _ _ λ u'. Yields-settled _ _ λ vs q.
      Yields-with_mutex _ _ (write_batch_locked-Yields ops vs (validate_ops-IsValidated 0 ops vs q))

  -- A batch that succeeds has committed every entry: it returns one result for each entry, in the
  -- order of the entries, with the index and the kind of the entry, and their number as the count.
  pub write_batch-IsComplete :
      (ops : List (RawOp x)) (w : World x) (r : BatchWritten)
      → (write_batch x ops w).0 ≡ done r
      → IsComplete ops r
  write_batch-IsComplete ops w r h = (write_batch-Yields ops).at w r h
