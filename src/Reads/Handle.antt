-- ===== src/Reads/Handle.antt =====
-- The reading tools behind one request type; they change nothing but the directory of the
-- database, which the first of them makes.
use smalt_mcp.Prelude.{ℕ, Bool, Option, List, Text}
use smalt_mcp.Corpus.{External, World, Do}
use smalt_mcp.Corpus.Actions.{◌>>=◌, pure}
use smalt_mcp.Corpus.Respects.{
  Respects, Respects-pure, Respects-gets, Respects-bind, Respects-stop_if,
}
use smalt_mcp.Corpus.Opened.{
  SameWorld, SameWorld-IsPreorder, ensure_initialized-SameWorld, settled-SameWorld,
}
use smalt_mcp.Reads.Filters.{Moment, FilterArgs}
use smalt_mcp.Reads.Listing.{PageList, list_pages, list_domains}
use smalt_mcp.Reads.Fuzzy.{Score}
use smalt_mcp.Reads.Aliases.{Matches, PageRead, find_by_alias, read_page}
use smalt_mcp.Reads.Search
use smalt_mcp.Reads.Search.{SearchResults, ℤ}

ruleset same_rules = (
  SameWorld-IsPreorder, ensure_initialized-SameWorld, settled-SameWorld, Respects-pure,
  Respects-gets, Respects-bind, Respects-stop_if,
)

module _ (x : External) (lower : Text → Text) (threshold : Score)
    (fromisoformat : Text → Option Moment) (like : Text → Text → Bool) (split : Text → List Text)
    (by_text by_vector : World x → Text → ℤ → Option (List Text)) where
  -- The reading tools with their arguments.
  pub data ReadRequest : Type 0 where
    pages_list : Option Text → Option Text → ℕ → FilterArgs → ReadRequest
    domains_list : ReadRequest
    alias_search page_read : Option Text → Bool → ReadRequest
    page_search : Option Text → ℤ → FilterArgs → ReadRequest

  pub data ReadReply : Type 0 where
    listed : PageList → ReadReply
    matched : Matches x lower threshold → ReadReply
    read : PageRead x → ReadReply
    hits : SearchResults → ReadReply

  -- `tool.handler(app, arguments)`
  unfoldable pub handle_read : ReadRequest → Do x ReadReply
  handle_read (pages_list type prefix limit args) =
      list_pages x fromisoformat like type prefix limit args >>= λ r. pure (listed r)
  handle_read domains_list = list_domains x >>= λ r. pure (listed r)
  handle_read (alias_search alias try_fuzzy) =
      find_by_alias x lower threshold alias try_fuzzy >>= λ r. pure (matched r)
  handle_read (page_read id try_fuzzy) =
      read_page x lower threshold id try_fuzzy >>= λ r. pure (read r)
  handle_read (page_search query top_k args) =
      Search.search x fromisoformat split by_text by_vector query top_k args >>= λ r. pure (hits r)

  -- A reading tool changes nothing but the directory of the database, whatever it answers.
  pub handle_read-SameWorld : (request : ReadRequest) → Respects (SameWorld x) (handle_read request)
  unfolding handle_read list_pages list_domains find_by_alias read_page Search.search
  handle_read-SameWorld (pages_list type prefix limit args) = search same_rules depth 12
  handle_read-SameWorld domains_list = search same_rules depth 12
  handle_read-SameWorld (alias_search alias try_fuzzy) = search same_rules depth 12
  handle_read-SameWorld (page_read id try_fuzzy) = search same_rules depth 12
  handle_read-SameWorld (page_search query top_k args) = search same_rules depth 16
