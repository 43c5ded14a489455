-- ===== src/Tools/Publish.antt =====
-- What `write_page` leaves on disk when it succeeds.
mod Tests
use smalt_mcp.Prelude.{
  ℕ, ◌≡◌, ◌≢◌, refl, ap, ◌∙◌, sym, subst, inl, inr, arith, Bool, true, false, not, ◌&&◌, Option,
  none, some, is_some, List, [], ◌∷◌, ◌++◌, Text, codes, text_eq, text_eq_iff,
}
use mathlib.Core.Option.{some-injective}
use smalt_mcp.Schema.{PageType, entity, concept, source, synthesis, index}
use smalt_mcp.Storage.Paths.{FilePath, pages_dir}
use smalt_mcp.Ids.{accepted, validate_id, has_sep}
use smalt_mcp.Ids.Paths.{type_to_subdir, page_target_path, page_target_path-inside}
use smalt_mcp.Corpus.{External, World, Page}
use smalt_mcp.Corpus.Actions.{◌>>=◌}
use smalt_mcp.Corpus.Files.{path_eq}
use smalt_mcp.Corpus.Pages.{
  parse_page, existing_page_path, serialize_and_write_page, with_mutex, checked_page,
}
use smalt_mcp.Indexer.Run.{run_indexer}
use smalt_mcp.Tools.Write.{
  update_known, create_new, write_checked, overwrite_page, insert_page, prepare_create_write,
  mangled_page, mangle_id,
}
use smalt_mcp.Tools.Effects.{IsPageFile, IsRewrite, IsRewrite-parse, rewritten, written-IsRewrite}

module _ (x : External) where
  -- A directory of pages is no generated index page.
  subdir-IsPageFile :
      (type : PageType) (subdir : Text) (entries : FilePath)
      → type_to_subdir type ≡ some subdir
      → IsPageFile x (codes "pages" ∷ subdir ∷ entries)
  subdir-IsPageFile entity subdir entries e =
      subst (λ s. IsPageFile x (codes "pages" ∷ s ∷ entries)) (some-injective _ _ e)
        (refl, (refl, tt))
  subdir-IsPageFile concept subdir entries e =
      subst (λ s. IsPageFile x (codes "pages" ∷ s ∷ entries)) (some-injective _ _ e)
        (refl, (refl, tt))
  subdir-IsPageFile source subdir entries e =
      subst (λ s. IsPageFile x (codes "pages" ∷ s ∷ entries)) (some-injective _ _ e)
        (refl, (refl, tt))
  subdir-IsPageFile synthesis subdir entries e =
      subst (λ s. IsPageFile x (codes "pages" ∷ s ∷ entries)) (some-injective _ _ e)
        (refl, (refl, tt))
  subdir-IsPageFile index subdir entries e = cc

  -- The page is on disk at its target path, reads back, and no other page file changed.
  pub record IsPublished (w w' : World x) (page : Page x) (body : Text) : Type 0 where
    pub target : FilePath
    pub is_target : page_target_path [] page.type page.id ≡ some target
    pub rewrite : IsRewrite x w w' target page body
    pub reads_back : parse_page x w'.files target ≡ some (rewritten x target page body)

  published :
      (w w' : World x) (page : Page x) (body : Text) (target : FilePath)
      → page_target_path [] page.type page.id ≡ some target
      → validate_id page.id ≡ accepted
      → IsRewrite x w w' target page body
      → IsPublished w w' page body
  published w w' page body target e valid h = record {
    target = target;
    is_target = e;
    rewrite = h;
    reads_back = IsRewrite-parse x w w' target page body h valid;
  }

-- Under the lock, an update of an indexed page with an accepted id and a type that has a directory
-- publishes the page: it is at its target path, reads back, and no other page file changes.
pub update_known-IsPublished :
    (x : External) (w : World x) (page : Page x) (body : Text) (known : FilePath) {subdir : Text}
    → validate_id page.id ≡ accepted
    → type_to_subdir page.type ≡ some subdir
    → existing_page_path x w page.id ≡ some known
    → IsPublished x w (update_known x page body w).1 page body
unfolding update_known overwrite_page serialize_and_write_page run_indexer ◌>>=◌
update_known-IsPublished x w page body known {subdir} valid dir old =
    let (entries, at_target, ne, parts) = page_target_path-inside [] page.type page.id valid dir in
    let own = subdir-IsPageFile x page.type subdir entries dir in
    let h = written-IsRewrite x _ w (codes "pages" ∷ subdir ∷ entries) page body own in
    published x w _ page body _ at_target valid (rw (old, at_target) h)

-- Under the lock, the creation of a page that is not indexed, with an accepted id and a type that
-- has a directory, publishes the page: it is at its target path, reads back, and no other page file changes.
pub create_new-IsPublished :
    (x : External) (w : World x) (original_id : Text) (page : Page x) (body : Text) {subdir : Text}
    → validate_id page.id ≡ accepted
    → type_to_subdir page.type ≡ some subdir
    → existing_page_path x w page.id ≡ none
    → IsPublished x w (create_new x original_id page body w).1 page body
unfolding create_new insert_page serialize_and_write_page run_indexer ◌>>=◌
create_new-IsPublished x w original_id page body {subdir} valid dir fresh =
    let (entries, at_target, ne, parts) = page_target_path-inside [] page.type page.id valid dir in
    let own = subdir-IsPageFile x page.type subdir entries dir in
    let h = written-IsRewrite x _ w (codes "pages" ∷ subdir ∷ entries) page body own in
    published x w _ page body _ at_target valid (rw (at_target, fresh) h)
