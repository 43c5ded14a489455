-- ===== src/Tools/Links.antt =====
-- `add_link`, `add_links` and `remove_link` of src/smalt_mcp/tools.py.
use smalt_mcp.Prelude.{
  ℕ, ◌+◌, ◌-◌, Bool, true, false, not, ◌&&◌, Option, none, some, List, [], ◌∷◌, ◌++◌, length, any,
  keep, if◌then◌else◌, Text, codes, text_eq, ◌==◌,
}
use smalt_mcp.Schema.{Link}
use smalt_mcp.Storage.Paths.{FilePath}
use smalt_mcp.Corpus.{External, Do, IndexResult}
use smalt_mcp.Corpus.Actions.{
  Outcome, done, fail, missing_argument, validation_error_at, not_found, tool_error, ◌>>=◌, ◌>>◌,
  pure, stop, gets, or_stop,
}
use smalt_mcp.Corpus.Pages.{
  ParsedPage, parse_page, serialize_and_write_page, ensure_initialized, with_mutex,
  locate_page_file,
}
use smalt_mcp.Indexer.Run.{run_indexer}

-- `not value` for a string argument
abbrev pub absent : Option Text → Bool
absent none = true
absent (some t) = text_eq t []

-- `a == b` for labels, which may be `None`
abbrev pub label_eq : Option Text → Option Text → Bool
label_eq none none = true
label_eq none (some _) = false
label_eq (some _) none = false
label_eq (some s) (some t) = text_eq s t

-- The identity of a link on its page: `(target, label)`.
abbrev pub same_link : Link → Link → Bool
same_link l existing = text_eq existing.target l.target && label_eq existing.label l.label

abbrev pub has_link : Link → List Link → Bool
has_link l links = any (same_link l) links

-- The text of an argument that is known to be there.
abbrev pub value_or : Text → Option Text → Text
value_or d none = d
value_or d (some t) = t

pub record LinkArgs : Type 0 where
  pub from_id : Option Text
  pub to_id : Option Text
  pub label : Option Text
  pub via_source : Option Text

-- `added: true` with the count and the indexer's result, or `added: false, reason: duplicate`.
pub data LinkAdded : Type 0 where
  added : Link → ℕ → IndexResult → LinkAdded
  duplicate : Link → LinkAdded

-- An entry of `links`: not an object, an object that `Link` rejects, or one that it accepts.
pub data LinkItem : Type 0 where
  not_object invalid : LinkItem
  valid : Link → LinkItem

pub record ItemResult : Type 0 where
  pub was_added : Bool
  pub link : Link

pub record LinksAdded : Type 0 where
  pub added_count : ℕ
  pub duplicate_count : ℕ
  pub results : List ItemResult
  pub links_out_count : ℕ
  pub index_result : Option IndexResult

-- The first phase of `add_links`: the first entry that fails ends it with its index.
unfoldable pub validate_links : ℕ → List LinkItem → Outcome (List Link)
validate_links i [] = done []
validate_links i (not_object ∷ items) = fail (validation_error_at i)
validate_links i (invalid ∷ items) = fail (validation_error_at i)
validate_links i (valid l ∷ items) = elim (validate_links (i + 1) items) [
  | done links ↦ done (l ∷ links)
  | fail e ↦ fail e
]

-- The loop over the validated links. `seen` are the links whose keys were seen.
unfoldable pub collect_links : List Link → List Link → List Link × List ItemResult
collect_links seen [] = ([], [])
collect_links seen (l ∷ links) =
    let found = has_link l seen in
    let (to_append, results) = collect_links (if found then seen else l ∷ seen) links in
    (
      (if found then to_append else l ∷ to_append),
      record { was_added = not found; link = l } ∷ results,
    )

pub data LinksRemoved : Type 0 where
  no_matching_link : LinksRemoved
  removed : ℕ → ℕ → IndexResult → LinksRemoved

-- `matches` of `remove_link`: no label matches any.
abbrev pub link_matches : Text → Option Text → Link → Bool
link_matches to_id none l = text_eq l.target to_id
link_matches to_id (some label) l = text_eq l.target to_id && label_eq l.label (some label)

module _ (x : External) where
  -- `parse_page` under the lock; what it raises is not caught.
  abbrev pub parse_or_raise : FilePath → Do x (ParsedPage x)
  parse_or_raise path = do parsed ← gets (λ w. parse_page x w.files path); or_stop parsed tool_error

  -- The page file of an id, or `not_found`.
  abbrev pub locate_or_stop : Text → Do x FilePath
  locate_or_stop page_id = do
    path ← gets (λ w. locate_page_file x w page_id)
    or_stop path (not_found page_id)

  -- The rest of `add_link` once the page is parsed.
  unfoldable pub append_link : FilePath → ParsedPage x → Link → Do x LinkAdded
  append_link path p new_link =
      if has_link new_link p.frontmatter.links_out then pure (duplicate new_link) else (do
        serialize_and_write_page x path
            (record p.frontmatter { links_out = p.frontmatter.links_out ++ new_link ∷ [] }) p.body
        index_result ← run_indexer x
        pure (added new_link (length p.frontmatter.links_out + 1) index_result))

  unfoldable pub add_link_locked : Text → Link → Do x LinkAdded
  unfolding append_link
  add_link_locked from_id new_link = do
    path ← locate_or_stop from_id
    p ← parse_or_raise path
    append_link path p new_link

  unfoldable pub add_link : LinkArgs → Do x LinkAdded
  unfolding add_link_locked
  add_link args =
      ensure_initialized x
      >> (if absent args.from_id
          then stop missing_argument
          else if absent args.to_id
          then stop missing_argument
          else with_mutex x (codes "add_link") (
              add_link_locked (value_or [] args.from_id) (record {
                target = value_or [] args.to_id;
                label = args.label;
                via_source = args.via_source;
              })))

  -- The rest of `add_links` once the page is parsed.
  unfoldable pub append_links :
      FilePath → ParsedPage x → List Link → List ItemResult → Do x LinksAdded
  append_links path p [] results = pure (record {
    added_count = 0;
    duplicate_count = length results;
    results = results;
    links_out_count = length p.frontmatter.links_out;
    index_result = none;
  })
  append_links path p (l ∷ to_append) results = do
    serialize_and_write_page x path
        (record p.frontmatter { links_out = p.frontmatter.links_out ++ l ∷ to_append }) p.body
    index_result ← run_indexer x
    pure (record {
      added_count = length (l ∷ to_append);
      duplicate_count = length results - length (l ∷ to_append);
      results = results;
      links_out_count = length p.frontmatter.links_out + length (l ∷ to_append);
      index_result = some index_result;
    })

  unfoldable pub add_links_locked : Text → List Link → Do x LinksAdded
  unfolding append_links collect_links
  add_links_locked page_id links = do
    path ← locate_or_stop page_id
    p ← parse_or_raise path
    let batch = collect_links p.frontmatter.links_out links
    append_links path p batch.0 batch.1

  abbrev pub validated : Outcome (List Link) → (List Link → Do x LinksAdded) → Do x LinksAdded
  validated (done links) body = body links
  validated (fail e) body = stop e

  unfoldable pub add_links : Option Text → List LinkItem → Do x LinksAdded
  unfolding validate_links add_links_locked
  add_links page_id links_in =
      ensure_initialized x
      >> (if absent page_id
          then stop missing_argument
          else if length links_in == 0
          then stop missing_argument
          else validated (validate_links 0 links_in) (λ links.
            with_mutex x (codes "add_links") (add_links_locked (value_or [] page_id) links)))

  -- The rest of `remove_link` once the page is parsed.
  unfoldable pub drop_links : FilePath → ParsedPage x → Text → Option Text → Do x LinksRemoved
  drop_links path p to_id label =
      let kept = keep (λ l. not (link_matches to_id label l)) p.frontmatter.links_out in
      if length p.frontmatter.links_out - length kept == 0 then pure no_matching_link else (do
        serialize_and_write_page x path (record p.frontmatter { links_out = kept }) p.body
        index_result ← run_indexer x
        pure (removed (length p.frontmatter.links_out - length kept) (length kept) index_result))

  unfoldable pub remove_link_locked : Text → Text → Option Text → Do x LinksRemoved
  unfolding drop_links
  remove_link_locked from_id to_id label = do
    path ← locate_or_stop from_id
    p ← parse_or_raise path
    drop_links path p to_id label

  unfoldable pub remove_link : LinkArgs → Do x LinksRemoved
  unfolding remove_link_locked
  remove_link args =
      ensure_initialized x
      >> (if absent args.from_id
          then stop missing_argument
          else if absent args.to_id
          then stop missing_argument
          else with_mutex x (codes "remove_link")
              (remove_link_locked (value_or [] args.from_id) (value_or [] args.to_id) args.label))
