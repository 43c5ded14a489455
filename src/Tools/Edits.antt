-- ===== src/Tools/Edits.antt =====
-- What a link or claim handler leaves on disk when it succeeds.
use smalt_mcp.Prelude.{
  ℕ, ◌≡◌, true, false, Option, some, List, [], ◌∷◌, ◌++◌, keep, not, Text, arith, suc, ◌≤◌,
  length-dropped, any-dropped, any, ◌-◌, ◌==◌,
}
use smalt_mcp.Schema.{Link, Claim}
use smalt_mcp.Storage.Paths.{FilePath}
use smalt_mcp.Corpus.{External, World}
use smalt_mcp.Corpus.Actions.{◌>>=◌, done}
use smalt_mcp.Indexer.Run.{run_indexer}
use smalt_mcp.Corpus.Pages.{
  serialize_and_write_page, ParsedPage, parse_page, parse_page-accepted, locate_page_file,
}
use smalt_mcp.Tools.Links.{
  has_link, append_link, add_link_locked, link_matches, drop_links, remove_link_locked, duplicate,
}
use smalt_mcp.Tools.Claims.{replace_claim, put_claim, write_claims, update_claim_locked}
use smalt_mcp.Tools.Replaced.{IsReplaced, replace_claim-IsReplaced}
use smalt_mcp.Tools.Effects.{IsPageFile, IsRewrite, IsRewrite-parse, rewritten, written-IsRewrite}

-- A link that the page does not have: the page's file holds it behind the others, reads back, and
-- no other page file changes. The id must be located at a file that parses and is no generated index
-- page, which the indexer would write anew.
pub add_link_locked-writes :
    (x : External) (w : World x) (id : Text) (l : Link) (path : FilePath) (p : ParsedPage x)
    → locate_page_file x w id ≡ some path
    → parse_page x w.files path ≡ some p
    → IsPageFile x path
    → has_link l p.frontmatter.links_out ≡ false
    → let fm = record p.frontmatter { links_out = p.frontmatter.links_out ++ l ∷ [] } in
      IsRewrite x w (add_link_locked x id l w).1 path fm p.body
      × (parse_page x (add_link_locked x id l w).1.files path ≡ some (rewritten x path fm p.body))
unfolding add_link_locked append_link ◌>>=◌
add_link_locked-writes x w id l path p located parsed own new =
    let h = written-IsRewrite x _ w path _ p.body own in
    rw (located, parsed, new)
      (h, IsRewrite-parse x w _ path _ p.body h (parse_page-accepted x w.files path p parsed))

-- A link that the page has already: a duplicate, and the state stays.
add_link_locked-duplicate :
    (x : External) (w : World x) (id : Text) (l : Link) (path : FilePath) (p : ParsedPage x)
    → locate_page_file x w id ≡ some path
    → parse_page x w.files path ≡ some p
    → has_link l p.frontmatter.links_out ≡ true
    → add_link_locked x id l w ≡ (done (duplicate l), w)
unfolding add_link_locked append_link ◌>>=◌
add_link_locked-duplicate x w id l path p located parsed old = rw (located, parsed, old)

shorter : (n m : ℕ) → suc m ≤ n → (n - m == 0) ≡ false
shorter n m h = ground arith

-- Where a link of the page matches: its file and the page that reads back have exactly the links
-- that do not match, none of them matches, and no other page file changes. The id must be located at a
-- file that parses and is no generated index page.
pub remove_link_locked-writes :
    (x : External) (w : World x) (id to_id : Text) (label : Option Text) (path : FilePath)
    (p : ParsedPage x)
    → locate_page_file x w id ≡ some path
    → parse_page x w.files path ≡ some p
    → IsPageFile x path
    → any (link_matches to_id label) p.frontmatter.links_out ≡ true
    → let kept = keep (λ l. not (link_matches to_id label l)) p.frontmatter.links_out in
      let fm = record p.frontmatter { links_out = kept } in
      let w' = (remove_link_locked x id to_id label w).1 in
      IsRewrite x w w' path fm p.body
      × (parse_page x w'.files path ≡ some (rewritten x path fm p.body))
      × (any (link_matches to_id label) kept ≡ false)
unfolding remove_link_locked drop_links ◌>>=◌
remove_link_locked-writes x w id to_id label path p located parsed own found =
    let links = p.frontmatter.links_out in
    let h = written-IsRewrite x _ w path _ p.body own in
    rw (located, parsed, shorter _ _ (length-dropped (link_matches to_id label) links found))
      (
        h,
        IsRewrite-parse x w _ path _ p.body h (parse_page-accepted x w.files path p parsed),
        any-dropped (link_matches to_id label) links,
      )

-- A claim that the page has: its file and the page that reads back hold the new claim in place of
-- the first with the id, the other claims stay as they were, and no other page file changes. The file
-- is no generated index page.
pub update_claim_locked-writes :
    (x : External) (w : World x) (id claim_id : Text) (c : Claim) (path : FilePath)
    (p : ParsedPage x) (claims : List Claim)
    → locate_page_file x w id ≡ some path
    → parse_page x w.files path ≡ some p
    → IsPageFile x path
    → replace_claim claim_id c p.frontmatter.claims ≡ some claims
    → let fm = record p.frontmatter { claims = claims } in
      let w' = (update_claim_locked x id claim_id c w).1 in
      IsRewrite x w w' path fm p.body
      × (parse_page x w'.files path ≡ some (rewritten x path fm p.body))
      × IsReplaced claim_id c p.frontmatter.claims claims
unfolding update_claim_locked put_claim write_claims ◌>>=◌ serialize_and_write_page run_indexer
update_claim_locked-writes x w id claim_id c path p claims located parsed own found =
    let h = written-IsRewrite x _ w path _ p.body own in
    rw (located, parsed, found)
      (
        h,
        IsRewrite-parse x w _ path _ p.body h (parse_page-accepted x w.files path p parsed),
        replace_claim-IsReplaced claim_id c p.frontmatter.claims claims found,
      )
