-- ===== src/Tools/Claims.antt =====
-- `add_claim`, `add_claims`, `update_claim` and `remove_claim` of src/smalt_mcp/tools.py.
use smalt_mcp.Prelude.{
  ℕ, ◌+◌, ◌-◌, Bool, false, not, Option, none, some, List, [], ◌∷◌, ◌++◌, map, length, any, keep,
  if◌then◌else◌, Text, codes, text_eq, ◌==◌, member,
}
use smalt_mcp.Schema.{Claim}
use smalt_mcp.Storage.Paths.{FilePath}
use smalt_mcp.Corpus.{External, Do, IndexResult}
use smalt_mcp.Corpus.Actions.{
  Outcome, done, fail, missing_argument, invalid_argument, validation_error, validation_error_at,
  claim_not_found, ◌>>=◌, ◌>>◌, pure, stop, or_stop,
}
use smalt_mcp.Corpus.Pages.{ParsedPage, serialize_and_write_page, ensure_initialized, with_mutex}
use smalt_mcp.Indexer.Run.{run_indexer}
use smalt_mcp.Tools.Links.{absent, value_or, parse_or_raise, locate_or_stop}

-- `any(c.get("id") == claim_id for c in claims)`
abbrev pub has_claim : Text → List Claim → Bool
has_claim claim_id claims = any (λ c. text_eq c.id claim_id) claims

-- A claim that a caller sends: missing, empty or no object; an object that `Claim` rejects; or one
-- that it accepts.
pub data ClaimItem : Type 0 where
  not_object invalid : ClaimItem
  valid : Claim → ClaimItem

pub data ClaimAdded : Type 0 where
  added : Text → ℕ → IndexResult → ClaimAdded
  duplicate_claim_id : Text → ClaimAdded

pub record ClaimResult : Type 0 where
  pub was_added : Bool
  pub claim_id : Text

pub record ClaimsAdded : Type 0 where
  pub added_count : ℕ
  pub duplicate_count : ℕ
  pub results : List ClaimResult
  pub claims_count : ℕ
  pub index_result : Option IndexResult

-- The first phase of `add_claims`.
unfoldable pub validate_claims : ℕ → List ClaimItem → Outcome (List Claim)
validate_claims i [] = done []
validate_claims i (not_object ∷ items) = fail (validation_error_at i)
validate_claims i (invalid ∷ items) = fail (validation_error_at i)
validate_claims i (valid c ∷ items) = elim (validate_claims (i + 1) items) [
  | done claims ↦ done (c ∷ claims)
  | fail e ↦ fail e
]

-- The loop over the validated claims; `existing_ids` holds the ids that are not empty.
unfoldable pub collect_claims : List Text → List Claim → List Claim × List ClaimResult
collect_claims existing_ids [] = ([], [])
collect_claims existing_ids (c ∷ claims) =
    let found = member c.id existing_ids in
    let (to_append, results) =
      collect_claims (if found then existing_ids else c.id ∷ existing_ids) claims in
    (
      (if found then to_append else c ∷ to_append),
      record { was_added = not found; claim_id = c.id } ∷ results,
    )

-- `{cid for c in existing_claims if (cid := c.get("id"))}`
abbrev claim_ids : List Claim → List Text
claim_ids claims = keep (λ id. not (text_eq id [])) (map (λ c. c.id) claims)

abbrev pub kept_before : Claim → Option (List Claim) → Option (List Claim)
kept_before c none = none
kept_before c (some claims) = some (c ∷ claims)

-- `claims[idx] = new_claim` at the first claim with the id; `none` where there is none.
unfoldable pub replace_claim : Text → Claim → List Claim → Option (List Claim)
replace_claim claim_id new_claim [] = none
replace_claim claim_id new_claim (c ∷ claims) =
    let rest = replace_claim claim_id new_claim claims in
    if text_eq c.id claim_id then some (new_claim ∷ claims) else kept_before c rest

pub record ClaimUpdated : Type 0 where
  pub id : Text
  pub claim_id : Text
  pub index_result : IndexResult

pub record ClaimRemoved : Type 0 where
  pub claim_id : Text
  pub claims_remaining : ℕ
  pub index_result : IndexResult

-- `new_claim.get("id") == claim_id`
abbrev pub same_id : Option Text → Option Text → Bool
same_id none claim_id = false
same_id (some id) claim_id = text_eq id (value_or [] claim_id)

module _ (x : External) where
  -- Write `claims` in place of a page's claims, and run the indexer.
  unfoldable pub write_claims : FilePath → ParsedPage x → List Claim → Do x IndexResult
  write_claims path p claims =
      serialize_and_write_page x path (record p.frontmatter { claims = claims }) p.body
      >> run_indexer x

  -- The rest of `add_claim` once the page is parsed.
  unfoldable pub append_claim : FilePath → ParsedPage x → Claim → Do x ClaimAdded
  unfolding write_claims
  append_claim path p c =
      if has_claim c.id p.frontmatter.claims then pure (duplicate_claim_id c.id) else (do
        index_result ← write_claims path p (p.frontmatter.claims ++ c ∷ [])
        pure (added c.id (length p.frontmatter.claims + 1) index_result))

  unfoldable pub add_claim_locked : Text → Claim → Do x ClaimAdded
  unfolding append_claim
  add_claim_locked page_id c = do
    path ← locate_or_stop x page_id
    p ← parse_or_raise x path
    append_claim path p c

  abbrev with_claim : {A : Type 0} → ClaimItem → (Claim → Do x A) → Do x A
  with_claim not_object body = stop missing_argument
  with_claim invalid body = stop validation_error
  with_claim (valid c) body = body c

  unfoldable pub add_claim : Option Text → ClaimItem → Do x ClaimAdded
  unfolding add_claim_locked
  add_claim page_id claim =
      ensure_initialized x
      >> (if absent page_id
          then stop missing_argument
          else with_claim claim
              (λ c. with_mutex x (codes "add_claim") (add_claim_locked (value_or [] page_id) c)))

  -- The rest of `add_claims` once the page is parsed.
  unfoldable pub append_claims :
      FilePath → ParsedPage x → List Claim → List ClaimResult → Do x ClaimsAdded
  unfolding write_claims
  append_claims path p [] results = pure (record {
    added_count = 0;
    duplicate_count = length results;
    results = results;
    claims_count = length p.frontmatter.claims;
    index_result = none;
  })
  append_claims path p (c ∷ to_append) results = do
    index_result ← write_claims path p (p.frontmatter.claims ++ c ∷ to_append)
    pure (record {
      added_count = length (c ∷ to_append);
      duplicate_count = length results - length (c ∷ to_append);
      results = results;
      claims_count = length p.frontmatter.claims + length (c ∷ to_append);
      index_result = some index_result;
    })

  unfoldable pub add_claims_locked : Text → List Claim → Do x ClaimsAdded
  unfolding append_claims collect_claims
  add_claims_locked page_id claims = do
    path ← locate_or_stop x page_id
    p ← parse_or_raise x path
    let batch = collect_claims (claim_ids p.frontmatter.claims) claims
    append_claims path p batch.0 batch.1

  abbrev pub validated : Outcome (List Claim) → (List Claim → Do x ClaimsAdded) → Do x ClaimsAdded
  validated (done claims) body = body claims
  validated (fail e) body = stop e

  unfoldable pub add_claims : Option Text → List ClaimItem → Do x ClaimsAdded
  unfolding validate_claims add_claims_locked
  add_claims page_id claims_in =
      ensure_initialized x
      >> (if absent page_id
          then stop missing_argument
          else if length claims_in == 0
          then stop missing_argument
          else validated (validate_claims 0 claims_in) (λ claims.
            with_mutex x (codes "add_claims") (add_claims_locked (value_or [] page_id) claims)))

  -- The rest of `update_claim` once the page is parsed.
  unfoldable pub put_claim : Text → FilePath → ParsedPage x → Text → Claim → Do x ClaimUpdated
  unfolding write_claims replace_claim
  put_claim page_id path p claim_id new_claim = do
    claims ←
        or_stop (replace_claim claim_id new_claim p.frontmatter.claims)
          (claim_not_found page_id claim_id)
    index_result ← write_claims path p claims
    pure (record { id = page_id; claim_id = claim_id; index_result = index_result })

  unfoldable pub update_claim_locked : Text → Text → Claim → Do x ClaimUpdated
  unfolding put_claim
  update_claim_locked page_id claim_id new_claim = do
    path ← locate_or_stop x page_id
    p ← parse_or_raise x path
    put_claim page_id path p claim_id new_claim

  -- `raw_id` is `new_claim.get("id")`, which is compared before the claim is validated.
  unfoldable pub update_claim :
      Option Text → Option Text → ClaimItem → Option Text → Do x ClaimUpdated
  unfolding update_claim_locked
  update_claim page_id claim_id new_claim raw_id =
      ensure_initialized x
      >> (if absent page_id
          then stop missing_argument
          else if absent claim_id
          then stop missing_argument
          else elim new_claim [
            | not_object ↦ stop missing_argument
            | invalid ↦
                stop (if same_id raw_id claim_id then validation_error else invalid_argument)
            | valid c ↦
                if same_id raw_id claim_id
                then with_mutex x (codes "update_claim")
                    (update_claim_locked (value_or [] page_id) (value_or [] claim_id) c)
                else stop invalid_argument
          ])

  -- The rest of `remove_claim` once the page is parsed.
  unfoldable pub drop_claim : Text → FilePath → ParsedPage x → Text → Do x ClaimRemoved
  unfolding write_claims
  drop_claim page_id path p claim_id =
      let new_claims = keep (λ c. not (text_eq c.id claim_id)) p.frontmatter.claims in
      if length new_claims == length p.frontmatter.claims
      then stop (claim_not_found page_id claim_id)
      else (do
        index_result ← write_claims path p new_claims
        pure (record {
          claim_id = claim_id;
          claims_remaining = length new_claims;
          index_result = index_result;
        }))

  unfoldable pub remove_claim_locked : Text → Text → Do x ClaimRemoved
  unfolding drop_claim
  remove_claim_locked page_id claim_id = do
    path ← locate_or_stop x page_id
    p ← parse_or_raise x path
    drop_claim page_id path p claim_id

  unfoldable pub remove_claim : Option Text → Option Text → Do x ClaimRemoved
  unfolding remove_claim_locked
  remove_claim page_id claim_id =
      ensure_initialized x
      >> (if absent page_id
          then stop missing_argument
          else if absent claim_id
          then stop missing_argument
          else with_mutex x (codes "remove_claim")
              (remove_claim_locked (value_or [] page_id) (value_or [] claim_id)))
