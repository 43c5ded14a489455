-- ===== src/Corpus/Pages.antt =====
-- `parse_page` of src/smalt_mcp/storage/markdown.py, validation, and the atomic page write of
-- src/smalt_mcp/tools.py.
use smalt_mcp.Prelude.{
  ◌+◌, ◌≡◌, Option, none, some, List, [], ◌∷◌, if◌then◌else◌, Text, text_eq, refl, subst, true,
  false,
}
use smalt_mcp.Ids.{Checked, accepted, rejected, validate_id}
use smalt_mcp.Storage.Paths.{FilePath}
use smalt_mcp.Corpus.{External, World, Page, Do, PageRow}
use smalt_mcp.Corpus.Actions.{done, fail, smalt_not_initialized}
use smalt_mcp.Corpus.Files.{read_file, write_file}

module _ (x : External) where
  -- `ParsedPage`; `path` and `raw_frontmatter` are `rel_path` and `frontmatter`.
  pub record ParsedPage : Type 0 where
    pub rel_path : FilePath
    pub frontmatter : Page x
    pub body : Text
    pub content_hash : Text

  -- pydantic, with the validator `_check_id` of `PageBase`
  unfoldable pub checked_page : Option (Page x) → Option (Page x)
  checked_page none = none
  checked_page (some page) = elim (validate_id page.id) [ accepted ↦ some page | rejected _ ↦ none ]

  -- `PAGE_ADAPTER.validate_python`
  unfoldable pub validate_page : x.Raw → Option (Page x)
  unfolding checked_page
  validate_page raw = checked_page (x.view_page raw)

  abbrev pub if_accepted : Checked → ParsedPage → Option ParsedPage
  if_accepted accepted p = some p
  if_accepted (rejected _) p = none

  abbrev parsed : FilePath → x.Content → Option (Page x × Text) → Option ParsedPage
  parsed path content none = none
  parsed path content (some (page, body)) = if_accepted (validate_id page.id) (record {
    rel_path = path;
    frontmatter = page;
    body = body;
    content_hash = x.hash_bytes content;
  })

  -- `parse_page` on bytes; `none` is any of `ValidationError`, `ValueError`, `OSError`.
  unfoldable pub parse_content : FilePath → x.Content → Option ParsedPage
  parse_content path content = parsed path content (x.load_page content)

  abbrev parse_read : FilePath → Option x.Content → Option ParsedPage
  parse_read path none = none
  parse_read path (some content) = parse_content path content

  unfoldable pub parse_page : List (FilePath × x.Content) → FilePath → Option ParsedPage
  parse_page files path = parse_read path (read_file path files)

  if_accepted-inverse :
      (c : Checked) (p q : ParsedPage) → if_accepted c p ≡ some q → (c ≡ accepted) × (p ≡ q)
  if_accepted-inverse accepted p q h = (refl, cc)
  if_accepted-inverse (rejected e) p q h = cc

  parsed-accepted :
      (path : FilePath) (content : x.Content) (o : Option (Page x × Text)) (p : ParsedPage)
      → parsed path content o ≡ some p
      → validate_id p.frontmatter.id ≡ accepted
  parsed-accepted path content none p h = cc
  parsed-accepted path content (some (page, body)) p h =
      let (valid, same) = if_accepted-inverse (validate_id page.id) _ p h in
      subst (λ q. validate_id q.frontmatter.id ≡ accepted) same valid

  parse_read-accepted :
      (path : FilePath) (o : Option x.Content) (p : ParsedPage)
      → parse_read path o ≡ some p
      → validate_id p.frontmatter.id ≡ accepted
  unfolding parse_content
  parse_read-accepted path none p h = cc
  parse_read-accepted path (some content) p h = parsed-accepted path content _ p h

  -- A page that parses has an accepted id.
  pub parse_page-accepted :
      (files : List (FilePath × x.Content)) (path : FilePath) (p : ParsedPage)
      → parse_page files path ≡ some p
      → validate_id p.frontmatter.id ≡ accepted
  unfolding parse_page
  parse_page-accepted files path p h = parse_read-accepted path (read_file path files) p h

  -- `_serialize_and_write_page`
  unfoldable pub serialize_and_write_page : FilePath → Page x → Text → Do x (Unit {0})
  serialize_and_write_page target fm body w =
      (done tt, record w { files = write_file target (x.dump_page fm body) w.files })

  -- `_ensure_initialized`; `app.db()` makes the directory of the database when it connects, and a
  -- connection that is open made it before.
  unfoldable pub ensure_initialized : Do x (Unit {0})
  ensure_initialized w =
      if w.smalt_exists
      then (if w.db_opens
          then (done tt, record w { lance_dir = true })
          else (fail smalt_not_initialized, w))
      else (fail smalt_not_initialized, w)

  -- `with app.mutex.acquire(name):` in a handler that finds the lock free: it is taken and named,
  -- and on every way out the name is cleared and the lock released.
  unfoldable pub with_mutex : {A : Type 0} → Text → Do x A → Do x A
  with_mutex name body w =
      let (r, w') = body (record w {
        mutex = record {
          locked = true;
          holder = some name;
          acquire_count = w.mutex.acquire_count + 1;
        };
      }) in
      (
        r,
        record w' {
          mutex = record { locked = false; holder = none; acquire_count = w'.mutex.acquire_count };
        },
      )

  abbrev first_path : List (PageRow x.Rest) → Option FilePath
  first_path [] = none
  first_path (row ∷ _) = some row.path

  -- `_existing_page_path`
  unfoldable pub existing_page_path : World x → Text → Option FilePath
  existing_page_path w page_id = first_path (x.pages.select (λ r. text_eq r.id page_id) 1 w.pages)

  -- `_locate_page_file`, and that the file exists
  unfoldable pub locate_page_file : World x → Text → Option FilePath
  unfolding existing_page_path
  locate_page_file w page_id = elim (existing_page_path w page_id) [
    | none ↦ none
    | some path ↦ elim (read_file path w.files) [ none ↦ none | some _ ↦ some path ]
  ]
