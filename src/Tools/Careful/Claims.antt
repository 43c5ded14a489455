-- ===== src/Tools/Careful/Claims.antt =====
-- The claim handlers are careful.
use smalt_mcp.Prelude.{Option, Text, List, [], ◌∷◌}
use smalt_mcp.Schema.{Claim}
use smalt_mcp.Storage.Paths.{FilePath}
use smalt_mcp.Corpus.{External, Do, IndexResult}
use smalt_mcp.Corpus.Actions.{Outcome, done, fail, ◌>>=◌, pure}
use smalt_mcp.Corpus.Pages.{ParsedPage}
use smalt_mcp.Corpus.Respects.{FailsBy-bind, FailsBy-pure}
use smalt_mcp.Tools.Careful.{
  Careful, careful_rules, FailsLate, Careful-late, FailsLate-serialize, run_indexer-FailsLate,
}
use smalt_mcp.Tools.Claims.{
  write_claims, ClaimItem, not_object, invalid, valid, ClaimResult, ClaimsAdded, validated,
  append_claim, add_claim_locked, add_claim, append_claims, add_claims_locked, add_claims,
  put_claim, update_claim_locked, update_claim, drop_claim, remove_claim_locked, remove_claim,
}

module _ (x : External) where
  write_claims-FailsLate :
      (path : FilePath) (p : ParsedPage x) (claims : List Claim)
      → FailsLate x (write_claims x path p claims)
  unfolding write_claims
  write_claims-FailsLate path p claims =
      FailsBy-bind _ _ (FailsLate-serialize x path _ p.body) λ u. run_indexer-FailsLate x

  Careful-claims :
      {A : Type 0} (path : FilePath) (p : ParsedPage x) (claims : List Claim) (f : IndexResult → A)
      → Careful x (write_claims x path p claims >>= λ r. pure (f r))
  Careful-claims path p claims f =
      Careful-late x _
        (FailsBy-bind _ _ (write_claims-FailsLate path p claims) λ r. FailsBy-pure (f r))

  append_claim-Careful :
      (path : FilePath) (p : ParsedPage x) (c : Claim) → Careful x (append_claim x path p c)
  unfolding append_claim
  append_claim-Careful path p c = search (careful_rules, Careful-claims)

  add_claim_locked-Careful : (id : Text) (c : Claim) → Careful x (add_claim_locked x id c)
  unfolding add_claim_locked
  add_claim_locked-Careful id c = search (careful_rules, append_claim-Careful) depth 9

  pub add_claim-Careful : (id : Option Text) (c : ClaimItem) → Careful x (add_claim x id c)
  unfolding add_claim
  add_claim-Careful id not_object = search careful_rules
  add_claim-Careful id invalid = search careful_rules
  add_claim-Careful id (valid c) = search (careful_rules, add_claim_locked-Careful) depth 9

  append_claims-Careful :
      (path : FilePath) (p : ParsedPage x) (claims : List Claim) (results : List ClaimResult)
      → Careful x (append_claims x path p claims results)
  unfolding append_claims
  append_claims-Careful path p [] results = search careful_rules
  append_claims-Careful path p (c ∷ claims) results = search (careful_rules, Careful-claims)

  add_claims_locked-Careful :
      (id : Text) (claims : List Claim) → Careful x (add_claims_locked x id claims)
  unfolding add_claims_locked
  add_claims_locked-Careful id claims = search (careful_rules, append_claims-Careful) depth 9

  validated-Careful :
      (o : Outcome (List Claim)) (f : List Claim → Do x ClaimsAdded)
      → ((l : List Claim) → Careful x (f l))
      → Careful x (validated x o f)
  validated-Careful (done l) f k = k l
  validated-Careful (fail e) f k = search careful_rules

  pub add_claims-Careful :
      (id : Option Text) (items : List ClaimItem) → Careful x (add_claims x id items)
  unfolding add_claims
  add_claims-Careful id items =
      search (careful_rules, validated-Careful, add_claims_locked-Careful) depth 9

  put_claim-Careful :
      (id : Text) (path : FilePath) (p : ParsedPage x) (claim_id : Text) (c : Claim)
      → Careful x (put_claim x id path p claim_id c)
  unfolding put_claim
  put_claim-Careful id path p claim_id c = search (careful_rules, Careful-claims)

  update_claim_locked-Careful :
      (id claim_id : Text) (c : Claim) → Careful x (update_claim_locked x id claim_id c)
  unfolding update_claim_locked
  update_claim_locked-Careful id claim_id c = search (careful_rules, put_claim-Careful) depth 9

  pub update_claim-Careful :
      (id claim_id : Option Text) (c : ClaimItem) (raw_id : Option Text)
      → Careful x (update_claim x id claim_id c raw_id)
  unfolding update_claim
  update_claim-Careful id claim_id not_object raw_id = search careful_rules
  update_claim-Careful id claim_id invalid raw_id = search careful_rules
  update_claim-Careful id claim_id (valid c) raw_id =
      search (careful_rules, update_claim_locked-Careful) depth 9

  drop_claim-Careful :
      (id : Text) (path : FilePath) (p : ParsedPage x) (claim_id : Text)
      → Careful x (drop_claim x id path p claim_id)
  unfolding drop_claim
  drop_claim-Careful id path p claim_id = search (careful_rules, Careful-claims)

  remove_claim_locked-Careful : (id claim_id : Text) → Careful x (remove_claim_locked x id claim_id)
  unfolding remove_claim_locked
  remove_claim_locked-Careful id claim_id = search (careful_rules, drop_claim-Careful) depth 9

  pub remove_claim-Careful : (id claim_id : Option Text) → Careful x (remove_claim x id claim_id)
  unfolding remove_claim
  remove_claim-Careful id claim_id = search (careful_rules, remove_claim_locked-Careful) depth 9
