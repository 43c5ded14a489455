-- ===== src/Indexer/Fresh.antt =====
-- After an incremental run, the index shows the page files.
use smalt_mcp.Prelude.{
  ◌≡◌, refl, ap, ◌∙◌, sym, arith, true, false, ◌&&◌, Option, none, some, List, [], ◌∷◌, any,
  any-ext, map, Text, text_eq, text_eq_refl, text_eq→eq, member, subst, inl, inr, Bool-cases,
}
use smalt_mcp.Storage.Paths.{FilePath}
use smalt_mcp.Corpus.{External, World, IndexResult}
use smalt_mcp.Corpus.Actions.{done}
use smalt_mcp.Corpus.Hoare.{Hoare, Hoare-bind, Hoare-pure}
use smalt_mcp.Corpus.Files.{path_eq, write_file}
use smalt_mcp.Corpus.Pages.{ParsedPage, parse_page}
use smalt_mcp.Indexer.{iter_page_files}
use smalt_mcp.Indexer.Run.{
  Canonical, canonical_index_pages, regenerate, regenerate_index_pages, prepend_parsed, index_path,
  format_index_page, file_content_matches, collect_concept_entries, finish, run_with, run_indexer,
  incremental, full, never, scan_files, start_scan, sweep, Scan,
}
use smalt_mcp.Indexer.Owned.{sweep-rows}
use smalt_mcp.Indexer.Scanned.{shows, clashes, is_handed_on, scan_files-handed_on, scan_files-clash}
use smalt_mcp.Indexer.Projected.{
  same_id, is_due, IsIndexed, IsNotGenerated, generated-id, project_and_refresh-IsIndexed,
}

text_eq_sym : (s t : Text) → text_eq s t ≡ false → text_eq t s ≡ false
text_eq_sym s t h = elim (Bool-cases (text_eq t s)) [
  | inl e ↦
      let back : text_eq s t ≡ true = ap (λ u. text_eq s u) (text_eq→eq t s e) ∙ text_eq_refl s in
      cc
  | inr e ↦ e
]

module _ (x : External) where
  regenerate-pages :
      (start : World x) (cs : List Canonical) (w : World x)
      → (regenerate x start cs w).1.pages ≡ w.pages
  unfolding regenerate
  regenerate-pages start [] w = refl
  regenerate-pages start (c ∷ cs) w = regenerate-pages start cs _ ∙ ground arith

  prepend_parsed-ids :
      (p : ParsedPage x) (o : Option (ParsedPage x)) (changed : List (ParsedPage x))
      → ((q : ParsedPage x) → o ≡ some q → same_id x p q ≡ false)
      → any (same_id x p) changed ≡ false
      → any (same_id x p) (prepend_parsed x o changed) ≡ false
  prepend_parsed-ids p none changed h k = k
  prepend_parsed-ids p (some q) changed h k = ground (arith, h q refl, k)

  regenerate-ids :
      (p : ParsedPage x) (start : World x) (cs : List Canonical) (w : World x)
      → member p.frontmatter.id (map (λ c. c.page_id) cs) ≡ false
      → any (same_id x p) (regenerate x start cs w).0 ≡ false
  unfolding regenerate
  regenerate-ids p start [] w h = refl
  regenerate-ids p start (c ∷ cs) w h =
      let entries = collect_concept_entries x start c.by_domain in
      let content = format_index_page x c entries in
      let written = record w { files = write_file (index_path x c) content w.files } in
      let other = text_eq_sym p.frontmatter.id c.page_id (ground (arith, h)) in
      let rest = regenerate-ids p start cs in
      elim (Bool-cases (file_content_matches x w (index_path x c) content)) [
        | inl e ↦ rw e (rest w (ground (arith, h)))
        | inr e ↦ rw e (
            prepend_parsed-ids p _ _
              (λ q parsed.
                ap (λ i. text_eq i p.frontmatter.id) (generated-id x c entries w.files q parsed)
                ∙ other)
              (rest written (ground (arith, h))))
      ]

  same_id-clashes :
      (p : ParsedPage x) (items : List (ParsedPage x))
      → any (same_id x p) items ≡ false
      → any (clashes x p) items ≡ false
  same_id-clashes p [] h = refl
  same_id-clashes p (q ∷ items) h = ground (arith, h, same_id-clashes p items)

  regenerate-IsIndexed :
      (p : ParsedPage x)
      → IsNotGenerated x p
      → Hoare
          (IsIndexed x p)
          (λ changed w. IsIndexed x p w × (any (same_id x p) changed ≡ false))
          (regenerate_index_pages x)
  unfolding regenerate_index_pages
  regenerate-IsIndexed p h = record {
    at = λ w changed k q.
        let made = regenerate x w canonical_index_pages w in
        let same : made.0 ≡ changed = cc in
        (
          ap (λ t. any (shows x p) (x.pages.scan t)) (regenerate-pages w canonical_index_pages w)
              ∙ k,
          subst (λ l. any (same_id x p) l ≡ false) same
              (regenerate-ids p w canonical_index_pages w h),
        );
  }

  finish-IsIndexed :
      (p : ParsedPage x) (items : List (ParsedPage x)) (result : IndexResult)
      → any (clashes x p) items ≡ false
      → IsNotGenerated x p
      → Hoare (λ w. is_due x items p w ≡ true) (λ r. IsIndexed x p) (finish x items result)
  unfolding finish
  finish-IsIndexed p items result c h =
      Hoare-bind _ _ (project_and_refresh-IsIndexed x p items c) λ u.
        Hoare-bind _ _ (regenerate-IsIndexed p h) λ changed.
          Hoare-bind {Q = λ v. IsIndexed x p} _ _
            (record {
              at = λ w v k q.
                  (project_and_refresh-IsIndexed x p changed (same_id-clashes p changed k.1)).at w v
                    (ground (arith, k.0)) q;
            })
            λ v. Hoare-pure result

  -- A page that the scan handed on is due after the sweep.
  sweep-is_due :
      (p : ParsedPage x) (s : Scan x) (w : World x)
      → is_handed_on x (x.pages.scan w.pages) p s ≡ true
      → is_due x s.to_index p (sweep x (x.pages.scan w.pages) s w).1 ≡ true
  sweep-is_due p s w h =
      let seen : member p.frontmatter.id s.seen ≡ true = ground (arith, h) in
      let kept =
        any-ext (λ r. shows x p r && member r.id s.seen) (shows x p) (x.pages.scan w.pages)
          (λ r. elim (Bool-cases (text_eq r.id p.frontmatter.id)) [
            | inl e ↦
                let here = ap (λ i. member i s.seen) (text_eq→eq r.id p.frontmatter.id e) ∙ seen in
                ground (arith, e, here)
            | inr e ↦ ground (arith, e)
          ]) in
      ground (arith, h, sweep-rows x s w (shows x p), kept)

  -- No page file of the corpus has the id of `p` and other content.
  abbrev pub IsAlone : ParsedPage x → World x → Type 0
  IsAlone p w =
      (other : FilePath) (q : ParsedPage x)
      → any (path_eq other) (iter_page_files x w) ≡ true
      → parse_page x w.files other ≡ some q
      → clashes x p q ≡ false

  run_with-IsIndexed :
      (w : World x) (path : FilePath) (p : ParsedPage x) (r : IndexResult)
      → any (path_eq path) (iter_page_files x w) ≡ true
      → parse_page x w.files path ≡ some p
      → IsNotGenerated x p
      → IsAlone p w
      → (run_with x incremental (never x) w).0 ≡ done r
      → IsIndexed x p (run_with x incremental (never x) w).1
  unfolding run_with
  run_with-IsIndexed w path p r file parsed own alone ok =
      let files = iter_page_files x w in
      let rows = x.pages.scan w.pages in
      let s = scan_files x (never x) rows w files 0 (start_scan x files) in
      let handed = scan_files-handed_on x rows w p path files 0 (start_scan x files) file parsed in
      let no_clash = scan_files-clash x rows w p files 0 (start_scan x files) alone refl in
      (finish-IsIndexed p s.to_index _ no_clash own).at _ r (sweep-is_due p s w handed) ok

  -- A full run hands on every page that parses, whatever the index says.
  pub run_full-IsIndexed :
      (w : World x) (path : FilePath) (p : ParsedPage x) (r : IndexResult)
      → any (path_eq path) (iter_page_files x w) ≡ true
      → parse_page x w.files path ≡ some p
      → IsNotGenerated x p
      → IsAlone p w
      → (run_with x full (never x) w).0 ≡ done r
      → IsIndexed x p (run_with x full (never x) w).1
  unfolding run_with
  run_full-IsIndexed w path p r file parsed own alone ok =
      let files = iter_page_files x w in
      let s = scan_files x (never x) [] w files 0 (start_scan x files) in
      let handed = scan_files-handed_on x [] w p path files 0 (start_scan x files) file parsed in
      let no_clash = scan_files-clash x [] w p files 0 (start_scan x files) alone refl in
      let due : is_due x s.to_index p (sweep x [] s w).1 ≡ true = ground (arith, handed) in
      (finish-IsIndexed p s.to_index _ no_clash own).at _ r due ok

  -- After the indexer ran without an error, every page file that parses has a row with its id and
  -- the hash of its content, whether the run skipped, inserted or updated it. The page must not be a
  -- generated index page, and no other page file may have the same id and other content.
  pub run_indexer-IsIndexed :
      (w : World x) (path : FilePath) (p : ParsedPage x) (r : IndexResult)
      → any (path_eq path) (iter_page_files x w) ≡ true
      → parse_page x w.files path ≡ some p
      → IsNotGenerated x p
      → IsAlone p w
      → (run_indexer x w).0 ≡ done r
      → IsIndexed x p (run_indexer x w).1
  unfolding run_indexer
  run_indexer-IsIndexed w path p r file parsed own alone ok =
      let indexer = run_with x incremental (never x) in
      let ran : Hoare (λ v. v ≡ w) (λ u. IsIndexed x p) indexer = record {
        at = λ v u e q.
            subst (λ z. (indexer z).0 ≡ done u → IsIndexed x p (indexer z).1) (sym e)
              (λ q'. run_with-IsIndexed w path p u file parsed own alone q') q;
      } in
      let recorded : Hoare (λ v. v ≡ w) (λ u. IsIndexed x p) (run_indexer x) =
        Hoare-bind indexer _ ran λ u. record { at = λ v u' k q. k } in
      recorded.at w r refl ok
