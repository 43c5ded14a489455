-- ===== src/Tools/Write.antt =====
-- The writes of whole pages: `_mangle_id`, `_prepare_create_write`, `write_page` and `write_pages` of
-- src/smalt_mcp/tools.py.
use smalt_mcp.Prelude.{
  ℕ, ◌+◌, Bool, true, false, not, Option, none, some, List, [], ◌∷◌, ◌++◌, length, if◌then◌else◌,
  Text, codes, text_eq, ◌==◌, is_some, member,
}
use smalt_mcp.Schema.{PageType, index}
use smalt_mcp.Storage.Paths.{FilePath}
use smalt_mcp.Ids.{has_sep}
use smalt_mcp.Ids.Paths.{page_target_path}
use smalt_mcp.Corpus.{External, Page, Do, IndexResult}
use smalt_mcp.Corpus.Actions.{
  Outcome, done, fail, Failure, cons_outcome, settled, missing_argument, invalid_argument,
  validation_error, validation_error_at, not_found, not_found_at, tool_error, uuid_collision,
  forbidden_page_type, forbidden_page_type_at, ◌>>=◌, ◌>>◌, pure, stop_if, gets, or_stop,
}
use smalt_mcp.Corpus.Pages.{
  serialize_and_write_page, ensure_initialized, with_mutex, existing_page_path, validate_page,
  checked_page,
}
use smalt_mcp.Indexer.Run.{run_indexer}
use smalt_mcp.Tools.Links.{value_or}

pub data WriteMode : Type 0 where
  create update : WriteMode

-- `arguments.get("mode") or "create"`, and the test against `_VALID_WRITE_MODES`
abbrev pub parse_mode : Option Text → Option WriteMode
parse_mode none = some create
parse_mode (some t) =
    if text_eq t []
    then some create
    else if text_eq t (codes "create")
    then some create
    else if text_eq t (codes "update")
    then some update
    else none

abbrev pub is_index : PageType → Bool
is_index index = true
is_index _ = false

-- What a write reports of one page.
pub record Written : Type 0 where
  pub id : Text
  pub original_id : Option Text
  pub path : FilePath
  pub type : PageType
  pub mangled : Bool
  pub upserted : Option Bool

pub record PageWritten : Type 0 where
  pub written : Written
  pub index_result : IndexResult

pub record PagesWritten : Type 0 where
  pub written : List Written
  pub count : ℕ
  pub index_result : IndexResult

-- `f"{caller_id}-{suffix}"`
unfoldable pub mangle_id : Text → Text → Text
mangle_id caller_id suffix = caller_id ++ b'-' ∷ suffix

-- `aliases` with the caller's id, which is added where it is missing.
abbrev pub with_alias : Text → List Text → List Text
with_alias original_id aliases =
    if member original_id aliases then aliases else aliases ++ original_id ∷ []

module _ (x : External) where
  -- `fm_out` of `_prepare_create_write`
  unfoldable pub mangled_page : Page x → Text → Page x
  unfolding mangle_id
  mangled_page page suffix = record page {
    id = mangle_id page.id suffix;
    aliases = with_alias page.id page.aliases;
  }

  -- `uuid.uuid4`
  abbrev pub draw : Do x Text
  draw w = (done (x.suffix w.drawn), record w { drawn = w.drawn + 1 })

  -- `_prepare_create_write`: it draws a suffix, and validates the page again.
  unfoldable pub prepare_create_write : Page x → Failure → Do x (Page x)
  unfolding mangled_page
  prepare_create_write page e = do
    suffix ← draw
    or_stop (checked_page x (some (mangled_page page suffix))) e

  -- `_page_target_path`; its `KeyError` is not caught.
  abbrev pub target_or_raise : Page x → Do x FilePath
  target_or_raise page = or_stop (page_target_path [] page.type page.id) tool_error

  -- A write over whatever the path holds, with no check before it.
  unfoldable pub upsert_section : Page x → Text → Do x Written
  upsert_section page body = do
    target ← target_or_raise page
    existing ← gets (λ w. existing_page_path x w page.id)
    serialize_and_write_page x target page body
    pure (record {
      id = page.id;
      original_id = none;
      path = target;
      type = page.type;
      mangled = false;
      upserted = some (is_some existing);
    })

  -- The write of a new page; `page` has its mangled id.
  unfoldable pub insert_page : Text → Page x → Text → Do x Written
  insert_page original_id page body = do
    target ← target_or_raise page
    existing ← gets (λ w. existing_page_path x w page.id)
    stop_if (is_some existing) (uuid_collision page.id)
    serialize_and_write_page x target page body
    pure (record {
      id = page.id;
      original_id = some original_id;
      path = target;
      type = page.type;
      mangled = true;
      upserted = none;
    })

  -- The write of a known page; the caller has checked that it exists.
  unfoldable pub overwrite_page : Page x → Text → Do x Written
  overwrite_page page body = do
    target ← target_or_raise page
    serialize_and_write_page x target page body
    pure (record {
      id = page.id;
      original_id = none;
      path = target;
      type = page.type;
      mangled = false;
      upserted = none;
    })

  abbrev pub then_index : Do x Written → Do x PageWritten
  then_index write = do
    written ← write
    index_result ← run_indexer x
    pure (record { written = written; index_result = index_result })

  -- The update of a page that must be indexed.
  unfoldable pub update_known : Page x → Text → Do x PageWritten
  unfolding overwrite_page
  update_known page body = do
    existing ← gets (λ w. existing_page_path x w page.id)
    stop_if (not (is_some existing)) (not_found page.id)
    then_index (overwrite_page page body)

  -- The creation of a page with its mangled id.
  unfoldable pub create_new : Text → Page x → Text → Do x PageWritten
  unfolding insert_page
  create_new original_id page body = then_index (insert_page original_id page body)

  -- `write_page` behind its checks.
  unfoldable pub write_checked : WriteMode → Page x → Text → Do x PageWritten
  unfolding prepare_create_write upsert_section update_known create_new
  write_checked create page body =
      if has_sep page.id
      then with_mutex x (codes "write_page") (then_index (upsert_section page body))
      else prepare_create_write page validation_error >>= λ new_page.
          with_mutex x (codes "write_page") (create_new page.id new_page body)
  write_checked update page body = with_mutex x (codes "write_page") (update_known page body)

  abbrev reject_index : Page x → Failure → Do x (Unit {0})
  reject_index page e = stop_if (is_index page.type) e

  unfoldable pub write_page : Option x.Raw → Option Text → Option Text → Do x PageWritten
  unfolding write_checked
  write_page frontmatter body mode = do
    ensure_initialized x
    raw ← or_stop frontmatter missing_argument
    write_mode ← or_stop (parse_mode mode) invalid_argument
    page ← or_stop (validate_page x raw) validation_error
    reject_index page forbidden_page_type
    write_checked write_mode page (value_or [] body)

  -- An entry of `pages`: no object, or an object with these keys.
  pub data PageItem : Type 0 where
    not_object : PageItem
    object : Option x.Raw → Option Text → PageItem

  abbrev check_item : ℕ → Option (Page x) → Text → Outcome (Page x × Text)
  check_item i none body = fail (validation_error_at i)
  check_item i (some page) body =
      if is_index page.type then fail (forbidden_page_type_at i) else done (page, body)

  unfoldable pub validate_item : ℕ → PageItem → Outcome (Page x × Text)
  validate_item i not_object = fail (validation_error_at i)
  validate_item i (object none body) = fail (validation_error_at i)
  validate_item i (object (some raw) body) = check_item i (validate_page x raw) (value_or [] body)

  -- Phase 1 of `write_pages`: the first entry that fails ends it.
  unfoldable pub validate_items : ℕ → List PageItem → Outcome (List (Page x × Text))
  unfolding validate_item
  validate_items i [] = done []
  validate_items i (item ∷ items) =
      cons_outcome (validate_item i item) (validate_items (i + 1) items)

  -- Phase 2: every id must be indexed.
  unfoldable pub check_exist : ℕ → List (Page x × Text) → Do x (Unit {0})
  check_exist i [] = pure tt
  check_exist i ((page, body) ∷ items) = do
    existing ← gets (λ w. existing_page_path x w page.id)
    stop_if (not (is_some existing)) (not_found_at i page.id)
    check_exist (i + 1) items

  -- One entry of phase 3. A second validation that fails is not caught here.
  unfoldable pub commit_item : WriteMode → Page x → Text → Do x Written
  unfolding prepare_create_write upsert_section insert_page overwrite_page
  commit_item create page body =
      if has_sep page.id
      then upsert_section page body
      else prepare_create_write page tool_error >>= λ new_page. insert_page page.id new_page body
  commit_item update page body = overwrite_page page body

  -- Phase 3.
  unfoldable pub commit_items : WriteMode → List (Page x × Text) → Do x (List Written)
  unfolding commit_item
  commit_items mode [] = pure []
  commit_items mode ((page, body) ∷ items) = do
    written ← commit_item mode page body
    rest ← commit_items mode items
    pure (written ∷ rest)

  abbrev phase_2 : WriteMode → List (Page x × Text) → Do x (Unit {0})
  phase_2 create items = pure tt
  phase_2 update items = check_exist 0 items

  unfoldable pub write_pages_locked : WriteMode → List (Page x × Text) → Do x PagesWritten
  unfolding check_exist commit_items
  write_pages_locked mode items = do
    phase_2 mode items
    written ← commit_items mode items
    index_result ← run_indexer x
    pure (record { written = written; count = length written; index_result = index_result })

  unfoldable pub write_pages : List PageItem → Option Text → Do x PagesWritten
  unfolding validate_items write_pages_locked
  write_pages pages mode = do
    ensure_initialized x
    stop_if (length pages == 0) missing_argument
    write_mode ← or_stop (parse_mode mode) invalid_argument
    items ← settled (validate_items 0 pages)
    with_mutex x (codes "write_pages") (write_pages_locked write_mode items)
