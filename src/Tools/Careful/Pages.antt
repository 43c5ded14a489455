-- ===== src/Tools/Careful/Pages.antt =====
-- The handlers that write, remove and reindex whole pages are careful.
use smalt_mcp.Prelude.{ℕ, ◌+◌, refl, Option, Text, List, [], ◌∷◌, arith}
use smalt_mcp.Ids.{has_sep}
use smalt_mcp.Storage.Paths.{FilePath}
use smalt_mcp.Indexer.Run.{Mode, run_with, never}
use smalt_mcp.Indexer.Effects.{run_with-Raises}
use smalt_mcp.Corpus.{External, Page, Do}
use smalt_mcp.Corpus.Actions.{Failure, tool_error}
use smalt_mcp.Corpus.Respects.{
  FailsBy-bind, FailsBy-pure, FailsBy-gets, FailsBy-or_stop, FailsBy-stop_if, FailsBy-if,
  Respects-pure, Respects-bind, Respects-gets, Respects-stop_if, Respects-or_stop,
}
use smalt_mcp.Tools.Careful.{
  Careful, careful_rules, Careful-if, Careful-with_mutex, Careful-gets, Careful-stop_if,
  FailsLate-index, Careful-bind, Careful-late, SameCorpus-IsPreorder, ReadOnly, FailsLate,
  SameCorpus-refl, FailsLate-serialize,
}
use smalt_mcp.Tools.Write.{
  WriteMode, Written, then_index, create, update, PageItem, draw, prepare_create_write,
  upsert_section, insert_page, overwrite_page, write_checked, update_known, create_new, write_page,
  check_exist, commit_item, commit_items, write_pages_locked, write_pages,
}
use smalt_mcp.Tools.Remove.{
  erase_page, remove_page_locked, remove_page, reindex_target, reindex_page_locked, reindex_page,
}

pub ruleset late_rules = (
  FailsBy-bind, FailsBy-pure, FailsBy-gets, FailsBy-or_stop, FailsBy-stop_if, FailsBy-if,
  FailsLate-serialize,
)

module _ (x : External) where
  draw-ReadOnly : ReadOnly x (draw x)
  draw-ReadOnly = record {
    at = λ w. record {
      same_files = refl;
      same_pages = refl;
      same_embeddings = refl;
      same_links = refl;
      same_claims = refl;
    };
  }

  draw-FailsLate : FailsLate x (draw x)
  draw-FailsLate = record { at = λ w e q. cc }

  pub upsert_section-FailsLate :
      (page : Page x) (body : Text) → FailsLate x (upsert_section x page body)
  unfolding upsert_section
  upsert_section-FailsLate page body = search late_rules depth 9

  insert_page-FailsLate :
      (id : Text) (page : Page x) (body : Text) → FailsLate x (insert_page x id page body)
  unfolding insert_page
  insert_page-FailsLate id page body = search late_rules depth 9

  pub overwrite_page-FailsLate :
      (page : Page x) (body : Text) → FailsLate x (overwrite_page x page body)
  unfolding overwrite_page
  overwrite_page-FailsLate page body = search late_rules depth 9

  pub prepare-FailsLate : (page : Page x) → FailsLate x (prepare_create_write x page tool_error)
  unfolding prepare_create_write
  prepare-FailsLate page = search (late_rules, draw-FailsLate) depth 9

  prepare-ReadOnly : (page : Page x) (e : Failure) → ReadOnly x (prepare_create_write x page e)
  unfolding prepare_create_write
  prepare-ReadOnly page e =
      Respects-bind (SameCorpus-IsPreorder x) _ _ draw-ReadOnly
        λ s. Respects-or_stop (SameCorpus-IsPreorder x) _ e

  then_index-FailsLate : (m : Do x Written) → FailsLate x m → FailsLate x (then_index x m)
  then_index-FailsLate m h = FailsBy-bind _ _ h λ r. FailsLate-index x _

  write_checked-Careful :
      (mode : WriteMode) (page : Page x) (body : Text) → Careful x (write_checked x mode page body)
  unfolding write_checked update_known create_new
  write_checked-Careful create page body =
      Careful-if x (has_sep page.id) _ _
        (Careful-with_mutex x _ _
          (Careful-late x _ (then_index-FailsLate _ (upsert_section-FailsLate page body))))
        (Careful-bind x _ _ (prepare-ReadOnly page _) λ new_page.
          Careful-with_mutex x _ _
            (Careful-late x _ (then_index-FailsLate _ (insert_page-FailsLate _ new_page body))))
  write_checked-Careful update page body = Careful-with_mutex x _ _ (
      Careful-gets x _ _ λ existing.
        Careful-stop_if x _ _ _
          λ u. Careful-late x _ (then_index-FailsLate _ (overwrite_page-FailsLate page body)))

  pub write_page-Careful :
      (frontmatter : Option x.Raw) (body mode : Option Text)
      → Careful x (write_page x frontmatter body mode)
  unfolding write_page
  write_page-Careful frontmatter body mode = search (careful_rules, write_checked-Careful) depth 9

  check_exist-ReadOnly : (i : ℕ) (items : List (Page x × Text)) → ReadOnly x (check_exist x i items)
  unfolding check_exist
  check_exist-ReadOnly i [] = Respects-pure (SameCorpus-IsPreorder x) tt
  check_exist-ReadOnly i ((page, body) ∷ items) =
      Respects-bind (SameCorpus-IsPreorder x) _ _ (Respects-gets (SameCorpus-IsPreorder x) _) λ o.
        Respects-bind (SameCorpus-IsPreorder x) _ _ (Respects-stop_if (SameCorpus-IsPreorder x) _ _)
          λ u. check_exist-ReadOnly (i + 1) items

  commit_item-FailsLate :
      (mode : WriteMode) (page : Page x) (body : Text) → FailsLate x (commit_item x mode page body)
  unfolding commit_item
  commit_item-FailsLate create page body =
      FailsBy-if (has_sep page.id) _ _ (upsert_section-FailsLate page body) (
        FailsBy-bind _ _ (prepare-FailsLate page)
          λ new_page. insert_page-FailsLate page.id new_page body)
  commit_item-FailsLate update page body = overwrite_page-FailsLate page body

  commit_items-FailsLate :
      (mode : WriteMode) (items : List (Page x × Text)) → FailsLate x (commit_items x mode items)
  unfolding commit_items
  commit_items-FailsLate mode [] = FailsBy-pure []
  commit_items-FailsLate mode ((page, body) ∷ items) =
      FailsBy-bind _ _ (commit_item-FailsLate mode page body)
        λ r. FailsBy-bind _ _ (commit_items-FailsLate mode items) λ rs. FailsBy-pure _

  write_pages_locked-Careful :
      (mode : WriteMode) (items : List (Page x × Text))
      → Careful x (write_pages_locked x mode items)
  unfolding write_pages_locked
  write_pages_locked-Careful create items =
      Careful-bind x _ _ (Respects-pure (SameCorpus-IsPreorder x) tt) λ u.
        Careful-late x _
          (FailsBy-bind _ _ (commit_items-FailsLate create items) λ r. FailsLate-index x _)
  write_pages_locked-Careful update items = Careful-bind x _ _ (check_exist-ReadOnly 0 items) λ u.
      Careful-late x _
        (FailsBy-bind _ _ (commit_items-FailsLate update items) λ r. FailsLate-index x _)

  pub write_pages-Careful :
      (pages : List (PageItem x)) (mode : Option Text) → Careful x (write_pages x pages mode)
  unfolding write_pages
  write_pages-Careful pages mode = search (careful_rules, write_pages_locked-Careful) depth 12

  erase_page-Careful : (id : Text) (path : FilePath) → Careful x (erase_page x id path)
  unfolding erase_page
  erase_page-Careful id path = record { at = λ w e q c. cc }

  remove_page_locked-Careful : (id : Text) → Careful x (remove_page_locked x id)
  unfolding remove_page_locked
  remove_page_locked-Careful id = search (careful_rules, erase_page-Careful)

  pub remove_page-Careful : (id : Option Text) → Careful x (remove_page x id)
  unfolding remove_page
  remove_page-Careful id = search (careful_rules, remove_page_locked-Careful) depth 9

  reindex_target-ReadOnly : (id : Text) → ReadOnly x (reindex_target x id)
  unfolding reindex_target
  reindex_target-ReadOnly id = record { at = λ w. ground (arith, SameCorpus-refl x w) }

  run_path-FailsLate : (mode : Mode x) → FailsLate x (run_with x mode (never x))
  run_path-FailsLate mode = record {
    at = λ w e q. rw ((run_with-Raises x mode (never x)).at w e q);
  }

  reindex_page_locked-Careful : (id : Text) → Careful x (reindex_page_locked x id)
  unfolding reindex_page_locked
  reindex_page_locked-Careful id = Careful-bind x _ _ (reindex_target-ReadOnly id) λ path.
      Careful-late x _ (
        FailsBy-bind _ _ (run_path-FailsLate _)
          λ r. FailsBy-bind _ _ (record { at = λ w e q. cc }) λ u. FailsBy-pure _)

  pub reindex_page-Careful : (id : Option Text) → Careful x (reindex_page x id)
  unfolding reindex_page
  reindex_page-Careful id = search (careful_rules, reindex_page_locked-Careful) depth 9
