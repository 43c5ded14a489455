-- ===== src/Tools/WriteBatch/Commit.antt =====
-- Phases 2 and 3 of `write_batch`: the lookups, and the writes without the indexer.
use smalt_mcp.Prelude.{
  ℕ, ◌+◌, true, not, none, some, List, [], ◌∷◌, ◌++◌, length, if◌then◌else◌, Text, is_some,
}
use smalt_mcp.Schema.{Link, Claim}
use smalt_mcp.Ids.{has_sep}
use smalt_mcp.Storage.Paths.{FilePath}
use smalt_mcp.Corpus.{External, Page, Do}
use smalt_mcp.Corpus.Actions.{
  not_found_at, parse_error_at, claim_not_found_at, claim_lost_at, uuid_collision_at, tool_error,
  ◌>>=◌, ◌>>◌, pure, gets, or_stop, stop_if,
}
use smalt_mcp.Corpus.Pages.{
  ParsedPage, parse_page, serialize_and_write_page, existing_page_path, locate_page_file,
}
use smalt_mcp.Tools.Links.{has_link, parse_or_raise}
use smalt_mcp.Tools.Claims.{has_claim, replace_claim}
use smalt_mcp.Tools.Write.{
  WriteMode, create, update, Written, prepare_create_write, target_or_raise, upsert_section,
  overwrite_page,
}
use smalt_mcp.Tools.WriteBatch.Validate.{
  OpKind, op_kind, BatchOp, page_op, link_op, claim_op, update_op,
}

-- What an entry of `results` says beside `index`, `kind` and `id`.
pub data OpEffect : Type 0 where
  page_written : Written → OpEffect
  link_added : Link → ℕ → OpEffect
  link_duplicate : Link → OpEffect
  claim_added : Text → ℕ → OpEffect
  claim_duplicate claim_updated : Text → OpEffect

pub record OpResult : Type 0 where
  pub index : ℕ
  pub kind : OpKind
  pub id : Text
  pub effect : OpEffect

module _ (x : External) where
  -- `_existing_page_path(app, id) is None`
  abbrev must_exist : ℕ → Text → Do x (Unit {0})
  must_exist i id = do
    existing ← gets (λ w. existing_page_path x w id)
    stop_if (not (is_some existing)) (not_found_at i id)

  -- One turn of the loop of phase 2.
  unfoldable pub check_op : ℕ → BatchOp x → Do x (Unit {0})
  check_op i (page_op create page body) = pure tt
  check_op i (page_op update page body) = must_exist i page.id
  check_op i (link_op from_id l) = must_exist i from_id
  check_op i (claim_op page_id c) = must_exist i page_id
  check_op i (update_op page_id claim_id c) = do
    path ← gets (λ w. locate_page_file x w page_id)
    located ← or_stop path (not_found_at i page_id)
    parsed ← gets (λ w. parse_page x w.files located)
    p ← or_stop parsed (parse_error_at i page_id)
    stop_if (not (has_claim claim_id p.frontmatter.claims)) (claim_not_found_at i page_id claim_id)

  unfoldable pub check_ops : ℕ → List (BatchOp x) → Do x (Unit {0})
  unfolding check_op
  check_ops i [] = pure tt
  check_ops i (op ∷ ops) = do check_op i op; check_ops (i + 1) ops

  -- The slug branch: the page with its mangled id is new.
  unfoldable pub insert_op : ℕ → Text → Page x → Text → Do x Written
  insert_op i original_id page body = do
    target ← target_or_raise x page
    existing ← gets (λ w. existing_page_path x w page.id)
    stop_if (is_some existing) (uuid_collision_at i page.id)
    serialize_and_write_page x target page body
    pure (record {
      id = page.id;
      original_id = some original_id;
      path = target;
      type = page.type;
      mangled = true;
      upserted = none;
    })

  -- A second validation that fails is not caught here.
  unfoldable pub commit_page : ℕ → WriteMode → Page x → Text → Do x Written
  unfolding prepare_create_write upsert_section insert_op overwrite_page
  commit_page i create page body =
      if has_sep page.id
      then upsert_section x page body
      else prepare_create_write x page tool_error >>= λ new_page. insert_op i page.id new_page body
  commit_page i update page body = overwrite_page x page body

  -- The page file behind an id that phase 2 has found; a file that is gone is not caught here.
  abbrev path_or_raise : Text → Do x FilePath
  path_or_raise id = do path ← gets (λ w. locate_page_file x w id); or_stop path tool_error

  unfoldable pub commit_link : FilePath → ParsedPage x → Link → Do x OpEffect
  commit_link path p new_link =
      if has_link new_link p.frontmatter.links_out then pure (link_duplicate new_link) else (do
        serialize_and_write_page x path
            (record p.frontmatter { links_out = p.frontmatter.links_out ++ new_link ∷ [] }) p.body
        pure (link_added new_link (length p.frontmatter.links_out + 1)))

  unfoldable pub commit_claim : FilePath → ParsedPage x → Claim → Do x OpEffect
  commit_claim path p c =
      if has_claim c.id p.frontmatter.claims then pure (claim_duplicate c.id) else (do
        serialize_and_write_page x path
            (record p.frontmatter { claims = p.frontmatter.claims ++ c ∷ [] }) p.body
        pure (claim_added c.id (length p.frontmatter.claims + 1)))

  -- The claim is looked up again, since an entry before may have taken it away.
  unfoldable pub commit_update : ℕ → Text → FilePath → ParsedPage x → Text → Claim → Do x OpEffect
  unfolding replace_claim
  commit_update i page_id path p claim_id new_claim = do
    claims ←
        or_stop (replace_claim claim_id new_claim p.frontmatter.claims)
          (claim_lost_at i page_id claim_id)
    serialize_and_write_page x path (record p.frontmatter { claims = claims }) p.body
    pure (claim_updated claim_id)

  abbrev at_page : Text → (FilePath → ParsedPage x → Do x OpEffect) → Do x OpEffect
  at_page id body = do path ← path_or_raise id; p ← parse_or_raise x path; body path p

  abbrev pub op_result : ℕ → BatchOp x → Text → OpEffect → OpResult
  op_result i op id effect = record { index = i; kind = op_kind x op; id = id; effect = effect }

  -- One turn of the loop of phase 3.
  unfoldable pub commit_op : ℕ → BatchOp x → Do x OpResult
  unfolding commit_page commit_link commit_claim commit_update
  commit_op i (page_op mode page body) = commit_page i mode page body >>= λ written.
      pure (op_result i (page_op mode page body) written.id (page_written written))
  commit_op i (link_op from_id l) = at_page from_id (λ path p. commit_link path p l) >>= λ effect.
      pure (op_result i (link_op from_id l) from_id effect)
  commit_op i (claim_op page_id c) = at_page page_id (λ path p. commit_claim path p c) >>= λ effect.
      pure (op_result i (claim_op page_id c) page_id effect)
  commit_op i (update_op page_id claim_id c) =
      at_page page_id (λ path p. commit_update i page_id path p claim_id c) >>= λ effect.
      pure (op_result i (update_op page_id claim_id c) page_id effect)

  unfoldable pub commit_ops : ℕ → List (BatchOp x) → Do x (List OpResult)
  unfolding commit_op
  commit_ops i [] = pure []
  commit_ops i (op ∷ ops) = do
    result ← commit_op i op
    results ← commit_ops (i + 1) ops
    pure (result ∷ results)
