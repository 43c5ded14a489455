-- ===== src/Tools/WriteBatch/Validate.antt =====
-- Phase 1 of `write_batch`: every entry is validated before anything is read or written.
use smalt_mcp.Prelude.{ℕ, ◌+◌, Bool, Option, none, some, List, [], ◌∷◌, if◌then◌else◌, Text}
use smalt_mcp.Schema.{Link, Claim}
use smalt_mcp.Corpus.{External, Page}
use smalt_mcp.Corpus.Actions.{
  Outcome, done, fail, cons_outcome, validation_error_at, unknown_kind_at, invalid_argument_at,
  forbidden_page_type_at,
}
use smalt_mcp.Corpus.Pages.{validate_page}
use smalt_mcp.Tools.Links.{absent, value_or}
use smalt_mcp.Tools.Claims.{ClaimItem, not_object, invalid, valid, same_id}
use smalt_mcp.Tools.Write.{WriteMode, parse_mode, is_index}

-- `_WRITE_BATCH_OP_KINDS`
pub data OpKind : Type 0 where
  page_kind link_kind claim_kind update_kind : OpKind

-- `label` and `via_source` of an entry that adds a link.
pub record LinkExtras : Type 0 where
  pub label : Option Text
  pub via_source : Option Text

module _ (x : External) where
  -- An entry of `ops`, taken apart by its `kind`. The extras of a link are missing where `Link`
  -- rejects them; the last argument of `update_claim` is `new_claim.get("id")`.
  pub data RawOp : Type 0 where
    no_object unknown_kind : RawOp
    write_page : Option x.Raw → Option Text → Option Text → RawOp
    add_link : Option Text → Option Text → Option LinkExtras → RawOp
    add_claim : Option Text → ClaimItem → RawOp
    update_claim : Option Text → Option Text → ClaimItem → Option Text → RawOp

  -- An entry of `validated`.
  pub data BatchOp : Type 0 where
    page_op : WriteMode → Page x → Text → BatchOp
    link_op : Text → Link → BatchOp
    claim_op : Text → Claim → BatchOp
    update_op : Text → Text → Claim → BatchOp

  -- `op.get("kind")`, where it is one of the kinds
  abbrev pub raw_kind : RawOp → Option OpKind
  raw_kind no_object = none
  raw_kind unknown_kind = none
  raw_kind (write_page _ _ _) = some page_kind
  raw_kind (add_link _ _ _) = some link_kind
  raw_kind (add_claim _ _) = some claim_kind
  raw_kind (update_claim _ _ _ _) = some update_kind

  -- The `kind` that stands beside the arguments in `validated`.
  abbrev pub op_kind : BatchOp → OpKind
  op_kind (page_op _ _ _) = page_kind
  op_kind (link_op _ _) = link_kind
  op_kind (claim_op _ _) = claim_kind
  op_kind (update_op _ _ _) = update_kind

  abbrev pub checked_op : ℕ → WriteMode → Option (Page x) → Text → Outcome BatchOp
  checked_op i mode none body = fail (validation_error_at i)
  checked_op i mode (some page) body =
      if is_index page.type then fail (forbidden_page_type_at i) else done (page_op mode page body)

  abbrev pub page_entry : ℕ → Option WriteMode → x.Raw → Text → Outcome BatchOp
  page_entry i none raw body = fail (invalid_argument_at i)
  page_entry i (some mode) raw body = checked_op i mode (validate_page x raw) body

  abbrev link_entry : ℕ → Text → Text → Option LinkExtras → Outcome BatchOp
  link_entry i from_id to_id none = fail (validation_error_at i)
  link_entry i from_id to_id (some extras) = done (
      link_op from_id
        (record { target = to_id; label = extras.label; via_source = extras.via_source }))

  abbrev claim_entry : ℕ → Text → ClaimItem → Outcome BatchOp
  claim_entry i page_id not_object = fail (validation_error_at i)
  claim_entry i page_id invalid = fail (validation_error_at i)
  claim_entry i page_id (valid c) = done (claim_op page_id c)

  abbrev update_entry : ℕ → Bool → Text → Text → ClaimItem → Outcome BatchOp
  update_entry i same page_id claim_id not_object = fail (validation_error_at i)
  update_entry i same page_id claim_id invalid =
      if same then fail (validation_error_at i) else fail (invalid_argument_at i)
  update_entry i same page_id claim_id (valid c) =
      if same then done (update_op page_id claim_id c) else fail (invalid_argument_at i)

  -- One turn of the loop over `ops`.
  unfoldable pub validate_op : ℕ → RawOp → Outcome BatchOp
  validate_op i no_object = fail (validation_error_at i)
  validate_op i unknown_kind = fail (unknown_kind_at i)
  validate_op i (write_page none body mode) = fail (validation_error_at i)
  validate_op i (write_page (some raw) body mode) =
      page_entry i (parse_mode mode) raw (value_or [] body)
  validate_op i (add_link from_id to_id extras) =
      if absent from_id
      then fail (validation_error_at i)
      else if absent to_id
      then fail (validation_error_at i)
      else link_entry i (value_or [] from_id) (value_or [] to_id) extras
  validate_op i (add_claim page_id claim) =
      if absent page_id
      then fail (validation_error_at i)
      else claim_entry i (value_or [] page_id) claim
  validate_op i (update_claim page_id claim_id new_claim raw_id) =
      if absent page_id
      then fail (validation_error_at i)
      else if absent claim_id
      then fail (validation_error_at i)
      else update_entry i (same_id raw_id claim_id) (value_or [] page_id) (value_or [] claim_id)
          new_claim

  -- The first entry that fails ends the phase.
  unfoldable pub validate_ops : ℕ → List RawOp → Outcome (List BatchOp)
  unfolding validate_op
  validate_ops i [] = done []
  validate_ops i (op ∷ ops) = cons_outcome (validate_op i op) (validate_ops (i + 1) ops)
