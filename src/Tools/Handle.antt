-- ===== src/Tools/Handle.antt =====
-- The handlers that change the corpus, behind one request type.
use smalt_mcp.Prelude.{◌≡◌, false, Option, List, Text}
use smalt_mcp.Corpus.{External, World, Do}
use smalt_mcp.Corpus.Actions.{Failure, fail, ◌>>=◌, pure}
use smalt_mcp.Tools.Links.{
  LinkArgs, LinkItem, LinkAdded, LinksAdded, LinksRemoved, add_link, add_links, remove_link,
}
use smalt_mcp.Tools.Claims.{
  ClaimItem, ClaimAdded, ClaimsAdded, ClaimUpdated, ClaimRemoved, add_claim, add_claims,
  update_claim, remove_claim,
}
use smalt_mcp.Tools.Write.{PageItem, PageWritten, PagesWritten, write_page, write_pages}
use smalt_mcp.Tools.WriteBatch.{BatchWritten, write_batch}
use smalt_mcp.Tools.WriteBatch.Validate.{RawOp}
use smalt_mcp.Tools.WriteBatch.Careful.{write_batch-Careful}
use smalt_mcp.Tools.Remove.{PageRemoved, PageReindexed, remove_page, reindex_page}
use smalt_mcp.Tools.Careful.{Careful, SameCorpus, may_follow_write, Careful-map}
use smalt_mcp.Tools.Careful.Links.{add_link-Careful, add_links-Careful, remove_link-Careful}
use smalt_mcp.Tools.Careful.Claims.{
  add_claim-Careful, add_claims-Careful, update_claim-Careful, remove_claim-Careful,
}
use smalt_mcp.Tools.Careful.Pages.{
  write_page-Careful, write_pages-Careful, remove_page-Careful, reindex_page-Careful,
}

-- The arguments of a tool that changes the corpus, as its handler takes them apart.
pub data Request (x : External) : Type 0 where
  link_request unlink_request : LinkArgs → Request x
  links_request : Option Text → List LinkItem → Request x
  claim_request : Option Text → ClaimItem → Request x
  claims_request : Option Text → List ClaimItem → Request x
  claim_update : Option Text → Option Text → ClaimItem → Option Text → Request x
  claim_removal : Option Text → Option Text → Request x
  page_write : Option x.Raw → Option Text → Option Text → Request x
  pages_write : List (PageItem x) → Option Text → Request x
  page_removal page_reindex : Option Text → Request x
  batch_write : List (RawOp x) → Request x

pub data Reply : Type 0 where
  link_added : LinkAdded → Reply
  links_added : LinksAdded → Reply
  links_removed : LinksRemoved → Reply
  claim_added : ClaimAdded → Reply
  claims_added : ClaimsAdded → Reply
  claim_updated : ClaimUpdated → Reply
  claim_removed : ClaimRemoved → Reply
  page_written : PageWritten → Reply
  pages_written : PagesWritten → Reply
  page_removed : PageRemoved → Reply
  page_reindexed : PageReindexed → Reply
  batch_written : BatchWritten → Reply

abbrev answer : {x : External} {A : Type 0} → Do x A → (A → Reply) → Do x Reply
answer m reply = m >>= λ a. pure (reply a)

-- `tool.handler(app, arguments)`
unfoldable pub handle : (x : External) → Request x → Do x Reply
handle x (link_request args) = answer (add_link x args) link_added
handle x (unlink_request args) = answer (remove_link x args) links_removed
handle x (links_request id items) = answer (add_links x id items) links_added
handle x (claim_request id c) = answer (add_claim x id c) claim_added
handle x (claims_request id items) = answer (add_claims x id items) claims_added
handle x (claim_update id claim_id c raw_id) =
    answer (update_claim x id claim_id c raw_id) claim_updated
handle x (claim_removal id claim_id) = answer (remove_claim x id claim_id) claim_removed
handle x (page_write fm body mode) = answer (write_page x fm body mode) page_written
handle x (pages_write pages mode) = answer (write_pages x pages mode) pages_written
handle x (page_removal id) = answer (remove_page x id) page_removed
handle x (page_reindex id) = answer (reindex_page x id) page_reindexed
handle x (batch_write ops) = answer (write_batch x ops) batch_written

handle-Careful : (x : External) (request : Request x) → Careful x (handle x request)
unfolding handle
handle-Careful x (link_request args) = Careful-map x _ _ (add_link-Careful x args)
handle-Careful x (unlink_request args) = Careful-map x _ _ (remove_link-Careful x args)
handle-Careful x (links_request id items) = Careful-map x _ _ (add_links-Careful x id items)
handle-Careful x (claim_request id c) = Careful-map x _ _ (add_claim-Careful x id c)
handle-Careful x (claims_request id items) = Careful-map x _ _ (add_claims-Careful x id items)
handle-Careful x (claim_update id claim_id c raw_id) =
    Careful-map x _ _ (update_claim-Careful x id claim_id c raw_id)
handle-Careful x (claim_removal id claim_id) =
    Careful-map x _ _ (remove_claim-Careful x id claim_id)
handle-Careful x (page_write fm body mode) = Careful-map x _ _ (write_page-Careful x fm body mode)
handle-Careful x (pages_write pages mode) = Careful-map x _ _ (write_pages-Careful x pages mode)
handle-Careful x (page_removal id) = Careful-map x _ _ (remove_page-Careful x id)
handle-Careful x (page_reindex id) = Careful-map x _ _ (reindex_page-Careful x id)
handle-Careful x (batch_write ops) = Careful-map x _ _ (write_batch-Careful x ops)

-- A request that ends with an error leaves the files and the four tables as they were, unless the
-- error is an uncaught exception, an id collision, or a claim that an earlier entry of the same batch
-- took away.
pub handle-error :
    (x : External) (request : Request x) (w : World x) (e : Failure)
    → (handle x request w).0 ≡ fail e
    → may_follow_write e ≡ false
    → SameCorpus x w (handle x request w).1
handle-error x request w e = (handle-Careful x request).at w e
