-- ===== src/Tools/WriteBatch/Alone.antt =====
-- A batch of one entry does what the single call does.
use smalt_mcp.Prelude.{◌≡◌, refl, ◌∙◌, sym, true, List, [], ◌∷◌, some, Text, any-append, text_eq}
use smalt_mcp.Schema.{Claim}
use smalt_mcp.Storage.Paths.{FilePath}
use smalt_mcp.Corpus.{External, World, Page, IndexResult}
use smalt_mcp.Corpus.Actions.{Outcome, done, fail, continue, pure, ◌>>=◌}
use smalt_mcp.Corpus.Pages.{ParsedPage, serialize_and_write_page, parse_page, locate_page_file}
use smalt_mcp.Indexer.Run.{run_indexer}
use smalt_mcp.Tools.Claims.{has_claim, put_claim, update_claim_locked, write_claims, replace_claim}
use smalt_mcp.Tools.Replaced.{replace_claim-IsReplaced}
use smalt_mcp.Tools.WriteBatch.Validate.{update_op}
use smalt_mcp.Tools.WriteBatch.Commit.{check_op, check_ops, commit_op, commit_ops, commit_update}
use smalt_mcp.Tools.WriteBatch.{write_batch_locked}

module _ {W A B : Type 0} where
  -- What only builds the reply keeps the state.
  continue-pure_state : (r : Outcome A) (f : A → B) (v : W) → (continue r (λ a. pure (f a)) v).1 ≡ v
  unfolding ◌>>=◌
  continue-pure_state (done a) f v = refl
  continue-pure_state (fail e) f v = refl

-- A claim that is replaced was there.
replaced-has_claim :
    (claim_id : Text) (c : Claim) (claims new : List Claim)
    → replace_claim claim_id c claims ≡ some new
    → has_claim claim_id claims ≡ true
replaced-has_claim claim_id c claims new h =
    let r = replace_claim-IsReplaced claim_id c claims new h in
    rw (
      r.was,
      any-append (λ d. text_eq d.id claim_id) r.before (r.old ∷ r.after),
      r.first,
      r.same_id,
    )

module _ (x : External) (w : World x) where
  -- The state after a page was rewritten and the indexer ran.
  abbrev reindexed : FilePath → Page x → Text → World x
  reindexed path page body = (run_indexer x (serialize_and_write_page x path page body w).1).1

  index_last :
      {A : Type 0} (v : World x) (f : IndexResult → A)
      → ((run_indexer x >>= λ r. pure (f r)) v).1 ≡ (run_indexer x v).1
  unfolding ◌>>=◌
  index_last v f = continue-pure_state (run_indexer x v).0 f (run_indexer x v).1

  abbrev with_claims : ParsedPage x → List Claim → Page x
  with_claims p claims = record p.frontmatter { claims = claims }

  single_update :
      (id claim_id : Text) (c : Claim) (path : FilePath) (p : ParsedPage x) (claims : List Claim)
      → locate_page_file x w id ≡ some path
      → parse_page x w.files path ≡ some p
      → replace_claim claim_id c p.frontmatter.claims ≡ some claims
      → (update_claim_locked x id claim_id c w).1 ≡ reindexed path (with_claims p claims) p.body
  unfolding update_claim_locked put_claim write_claims ◌>>=◌ serialize_and_write_page
  single_update id claim_id c path p claims located parsed found =
      rw (located, parsed, found) (index_last _ _)

  batched_update :
      (id claim_id : Text) (c : Claim) (path : FilePath) (p : ParsedPage x) (claims : List Claim)
      → locate_page_file x w id ≡ some path
      → parse_page x w.files path ≡ some p
      → replace_claim claim_id c p.frontmatter.claims ≡ some claims
      → (write_batch_locked x (update_op id claim_id c ∷ []) w).1
        ≡ reindexed path (with_claims p claims) p.body
  unfolding write_batch_locked check_ops check_op commit_ops commit_op commit_update ◌>>=◌
      serialize_and_write_page
  batched_update id claim_id c path p claims located parsed found =
      rw (located, parsed, replaced-has_claim claim_id c _ claims found, located, parsed, found)
        (index_last _ _)

  -- Where the id is located at a page file that parses and has the claim: a batch that updates the
  -- claim and does nothing else ends in the state in which `update_claim` ends.
  pub write_batch_locked-update_claim :
      (id claim_id : Text) (c : Claim) (path : FilePath) (p : ParsedPage x) (claims : List Claim)
      → locate_page_file x w id ≡ some path
      → parse_page x w.files path ≡ some p
      → replace_claim claim_id c p.frontmatter.claims ≡ some claims
      → (write_batch_locked x (update_op id claim_id c ∷ []) w).1
        ≡ (update_claim_locked x id claim_id c w).1
  write_batch_locked-update_claim id claim_id c path p claims located parsed found =
      batched_update id claim_id c path p claims located parsed found
      ∙ sym (single_update id claim_id c path p claims located parsed found)
