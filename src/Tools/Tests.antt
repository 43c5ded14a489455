-- ===== src/Tools/Tests.antt =====
-- Runs of the handlers on a corpus of two pages.
use smalt_mcp.Prelude.{ℕ, ◌≡◌, refl, true, none, some, List, [], ◌∷◌, Text, codes, false, any}
use smalt_mcp.Permissions.{read_only, read_write, remove_destructive}
use smalt_mcp.Schema.{Link, Claim, concept, unrated}
use smalt_mcp.Storage.Paths.{FilePath}
use smalt_mcp.Corpus.{World, Page, PageRow}
use smalt_mcp.Corpus.Actions.{◌>>=◌, fail, not_found}
use smalt_mcp.Ids.{validate_id, has_sep, validate_slug_id, matches_slug, is_reserved, matches_up_to}
use smalt_mcp.Ids.Separators.{count_sep}
use smalt_mcp.Ids.Chars.{is_alnum, is_slug_char, lower}
use smalt_mcp.Corpus.Files.{read_file}
use smalt_mcp.Corpus.Pages.{
  parse_content, ensure_initialized, with_mutex, ParsedPage, parse_page, locate_page_file,
  existing_page_path,
}
use smalt_mcp.Corpus.Memory.{memory}
use smalt_mcp.Tools.Links.{add_link, add_link_locked, remove_link_locked, link_matches}
use smalt_mcp.Tools.Claims.{replace_claim, update_claim_locked}
use smalt_mcp.Tools.Remove.{remove_page_locked}
use smalt_mcp.Catalog.Inputs.{anything}
use smalt_mcp.Tools.Dispatch.{ToolDef, dispatch, list_tools, has_spec, is_run, dispatch-list_tools}
use smalt_mcp.Tools.Handle.{Request, link_request, handle, handle-error}
use smalt_mcp.Tools.Careful.{SameCorpus}
use smalt_mcp.Tools.Cascade.{IsErased, remove_page_locked-IsErased}
use smalt_mcp.Tools.Effects.{IsRewrite, rewritten}
use smalt_mcp.Tools.Replaced.{IsReplaced}
use smalt_mcp.Tools.Edits.{
  remove_link_locked-writes, add_link_locked-writes, update_claim_locked-writes,
}

abbrev pub to_dogs : Link
to_dogs = record { target = codes "dogs"; label = none; via_source = none }

abbrev pub to_birds : Link
to_birds = record { target = codes "birds"; label = none; via_source = none }

abbrev pub claim_of : Text → Claim
claim_of text = record {
  id = codes "c1";
  text = text;
  value_type = none;
  value = none;
  unit = none;
  confidence = none;
  confidence_label = unrated;
  source_ref = none;
}

abbrev pub page_of : Text → List Link → List Claim → Page memory
page_of id links claims = record {
  id = id;
  type = concept;
  title = codes "Cats";
  aliases = [];
  links_out = links;
  claims = claims;
  domains = [];
  is_domain = none;
  glossary = none;
  fetched_at = none;
  rest = tt;
}

abbrev pub cats : Page memory
cats = page_of (codes "cats") (to_dogs ∷ []) (claim_of (codes "purr") ∷ [])

abbrev pub cats_path : FilePath
cats_path = codes "pages" ∷ codes "concepts" ∷ codes "cats.md" ∷ []

abbrev pub parsed_cats : ParsedPage memory
parsed_cats = record {
  rel_path = cats_path;
  frontmatter = cats;
  body = codes "Cats.";
  content_hash = memory.hash_bytes (cats, codes "Cats.");
}

abbrev pub cats_row : PageRow memory.Rest
cats_row = record {
  id = codes "cats";
  path = cats_path;
  type = concept;
  title = codes "Cats";
  body = codes "Cats.";
  frontmatter = cats;
  content_hash = [];
  created_at = 0;
  updated_at = 0;
  aliases = [];
}

abbrev pub world : World memory
world = record {
  smalt_exists = true;
  db_opens = true;
  lance_dir = true;
  files = (cats_path, (cats, codes "Cats.")) ∷ [];
  pages = cats_row ∷ [];
  embeddings = [];
  links =
      record { from_id = codes "cats"; to_id = codes "dogs"; label = none; source_page = none }
      ∷ record { from_id = codes "dogs"; to_id = codes "cats"; label = none; source_page = none }
      ∷ [];
  claims = [];
  clock = 0;
  drawn = 0;
  mutex = record { locked = false; holder = none; acquire_count = 0 };
  refreshes = 0;
  last_indexer_result = none;
}

pub cats-located : locate_page_file memory world (codes "cats") ≡ some cats_path
unfolding locate_page_file existing_page_path read_file
cats-located = refl

pub cats-known : existing_page_path memory world (codes "cats") ≡ some cats_path
unfolding existing_page_path
cats-known = refl

pub cats-parsed : parse_page memory world.files cats_path ≡ some parsed_cats
unfolding parse_page parse_content read_file validate_id has_sep count_sep validate_slug_id
    matches_slug is_reserved matches_up_to is_alnum is_slug_char lower
cats-parsed = refl

add_link_locked-writes_example :
    IsRewrite memory world
      (add_link_locked memory (codes "cats") to_birds world).1
      cats_path
      (page_of (codes "cats") (to_dogs ∷ to_birds ∷ []) cats.claims)
      (codes "Cats.")
    × (parse_page memory (add_link_locked memory (codes "cats") to_birds world).1.files cats_path
        ≡ some (
            rewritten memory cats_path
              (page_of (codes "cats") (to_dogs ∷ to_birds ∷ []) cats.claims)
              (codes "Cats.")))
add_link_locked-writes_example =
    add_link_locked-writes memory world (codes "cats") to_birds cats_path parsed_cats cats-located
      cats-parsed (refl, (refl, tt)) refl

remove_link_locked-writes_example :
    let w' = (remove_link_locked memory (codes "cats") (codes "dogs") none world).1 in
    let fm = page_of (codes "cats") [] cats.claims in
    IsRewrite memory world w' cats_path fm (codes "Cats.")
    × (parse_page memory w'.files cats_path ≡ some (rewritten memory cats_path fm (codes "Cats.")))
    × (any (link_matches (codes "dogs") none) [] ≡ false)
remove_link_locked-writes_example =
    remove_link_locked-writes memory world (codes "cats") (codes "dogs") none cats_path parsed_cats
      cats-located cats-parsed (refl, (refl, tt)) refl

pub purr-replaced :
    replace_claim (codes "c1") (claim_of (codes "hiss")) cats.claims
    ≡ some (claim_of (codes "hiss") ∷ [])
unfolding replace_claim
purr-replaced = refl

update_claim_locked-writes_example :
    let claims = claim_of (codes "hiss") ∷ [] in
    let w' =
      (update_claim_locked memory (codes "cats") (codes "c1") (claim_of (codes "hiss")) world).1 in
    let fm = page_of (codes "cats") cats.links_out claims in
    IsRewrite memory world w' cats_path fm (codes "Cats.")
    × (parse_page memory w'.files cats_path ≡ some (rewritten memory cats_path fm (codes "Cats.")))
    × IsReplaced (codes "c1") (claim_of (codes "hiss")) cats.claims claims
update_claim_locked-writes_example =
    update_claim_locked-writes memory world (codes "cats") (codes "c1") (claim_of (codes "hiss"))
      cats_path parsed_cats (claim_of (codes "hiss") ∷ []) cats-located cats-parsed
      (refl, (refl, tt)) purr-replaced

remove_page_locked-IsErased_example :
    IsErased memory world
      (remove_page_locked memory (codes "cats") world).1
      (codes "cats")
      cats_path
remove_page_locked-IsErased_example =
    remove_page_locked-IsErased memory world (codes "cats") cats_path cats-known

-- A link from a page that is not there.
abbrev missing : Request memory
missing = link_request (record {
  from_id = some (codes "fish");
  to_id = some (codes "cats");
  label = none;
  via_source = none;
})

missing-not_found : (handle memory missing world).0 ≡ fail (not_found (codes "fish"))
unfolding handle add_link ◌>>=◌ ensure_initialized with_mutex locate_page_file
missing-not_found = refl

handle-error_example : SameCorpus memory world (handle memory missing world).1
handle-error_example =
    handle-error memory missing world (not_found (codes "fish")) missing-not_found refl

abbrev sample_tools : List (ToolDef ℕ)
sample_tools =
    record {
      spec = record { name = codes "status"; input_schema = anything };
      scope = read_only;
      handler = 0;
    }
    ∷ record {
      spec = record { name = codes "remove_page"; input_schema = anything };
      scope = remove_destructive;
      handler = 1;
    }
    ∷ []

dispatch-list_tools_example :
    is_run (dispatch (codes "remove_page") read_write sample_tools)
    ≡ has_spec (codes "remove_page") (list_tools read_write sample_tools)
dispatch-list_tools_example =
    dispatch-list_tools (codes "remove_page") read_write sample_tools (refl, (refl, tt))
