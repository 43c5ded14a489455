-- ===== src/Tools/Careful/Links.antt =====
-- The link handlers are careful.
use smalt_mcp.Prelude.{Option, Text, List, [], ◌∷◌}
use smalt_mcp.Schema.{Link}
use smalt_mcp.Storage.Paths.{FilePath}
use smalt_mcp.Corpus.{External, Do}
use smalt_mcp.Corpus.Actions.{Outcome, done, fail}
use smalt_mcp.Corpus.Pages.{ParsedPage}
use smalt_mcp.Tools.Careful.{Careful, careful_rules}
use smalt_mcp.Tools.Links.{
  LinkArgs, LinkItem, ItemResult, LinksAdded, validated, append_link, add_link_locked, add_link,
  append_links, add_links_locked, add_links, drop_links, remove_link_locked, remove_link,
}

module _ (x : External) where
  append_link-Careful :
      (path : FilePath) (p : ParsedPage x) (l : Link) → Careful x (append_link x path p l)
  unfolding append_link
  append_link-Careful path p l = search careful_rules

  add_link_locked-Careful : (id : Text) (l : Link) → Careful x (add_link_locked x id l)
  unfolding add_link_locked
  add_link_locked-Careful id l = search (careful_rules, append_link-Careful) depth 9

  pub add_link-Careful : (args : LinkArgs) → Careful x (add_link x args)
  unfolding add_link
  add_link-Careful args = search (careful_rules, add_link_locked-Careful) depth 9

  append_links-Careful :
      (path : FilePath) (p : ParsedPage x) (links : List Link) (results : List ItemResult)
      → Careful x (append_links x path p links results)
  unfolding append_links
  append_links-Careful path p [] results = search careful_rules
  append_links-Careful path p (l ∷ links) results = search careful_rules

  add_links_locked-Careful :
      (id : Text) (links : List Link) → Careful x (add_links_locked x id links)
  unfolding add_links_locked
  add_links_locked-Careful id links = search (careful_rules, append_links-Careful) depth 9

  validated-Careful :
      (o : Outcome (List Link)) (f : List Link → Do x LinksAdded)
      → ((l : List Link) → Careful x (f l))
      → Careful x (validated x o f)
  validated-Careful (done l) f k = k l
  validated-Careful (fail e) f k = search careful_rules

  pub add_links-Careful :
      (id : Option Text) (items : List LinkItem) → Careful x (add_links x id items)
  unfolding add_links
  add_links-Careful id items =
      search (careful_rules, validated-Careful, add_links_locked-Careful) depth 9

  drop_links-Careful :
      (path : FilePath) (p : ParsedPage x) (id : Text) (label : Option Text)
      → Careful x (drop_links x path p id label)
  unfolding drop_links
  drop_links-Careful path p id label = search careful_rules

  remove_link_locked-Careful :
      (from_id to_id : Text) (label : Option Text)
      → Careful x (remove_link_locked x from_id to_id label)
  unfolding remove_link_locked
  remove_link_locked-Careful from_id to_id label =
      search (careful_rules, drop_links-Careful) depth 9

  pub remove_link-Careful : (args : LinkArgs) → Careful x (remove_link x args)
  unfolding remove_link
  remove_link-Careful args = search (careful_rules, remove_link_locked-Careful) depth 9
