-- ===== src/Indexer/Projected.antt =====
-- What a projection leaves in the pages table.
use smalt_mcp.Prelude.{
  ℕ, ◌≡◌, refl, ap, ◌∙◌, arith, Bool, true, false, not, ◌&&◌, ◌||◌, Option, none, some, List, [],
  ◌∷◌, any, any-ext, Text, text_eq, text_eq→eq, length, map, member, inl, inr, Bool-cases,
}
use smalt_mcp.Storage.Paths.{FilePath}
use smalt_mcp.Ids.{Checked, accepted, rejected, validate_id}
use smalt_mcp.Corpus.{External, World, Page, PageRow, EmbeddingRow}
use smalt_mcp.Corpus.Actions.{◌>>=◌}
use smalt_mcp.Corpus.Hoare.{Hoare, Hoare-bind}
use smalt_mcp.Corpus.Files.{write_file, read_file-write_file_self}
use smalt_mcp.Corpus.Pages.{ParsedPage, parse_page, parse_content, if_accepted}
use smalt_mcp.Indexer.{page_ids, distinct, page_rows, replace_owned, upsert, project}
use smalt_mcp.Indexer.Rows.{page_row}
use smalt_mcp.Indexer.Prose.{Entry}
use smalt_mcp.Indexer.Run.{
  Canonical, canonical_index_pages, project_and_refresh, index_path, format_index_page, index_page,
}
use smalt_mcp.Indexer.Scanned.{shows, same_page, clashes}

module _ (x : External) where
  replace_owned-pages :
      (items : List (ParsedPage x)) (w : World x) → (replace_owned x items w).pages ≡ w.pages
  unfolding replace_owned
  replace_owned-pages [] w = refl
  replace_owned-pages (p ∷ items) w = replace_owned-pages items _

  page_rows-shows :
      (rows : List (PageRow x.Rest)) (now : ℕ) (p : ParsedPage x) (items : List (ParsedPage x))
      → any (shows x p) (page_rows x rows now items) ≡ any (same_page x p) items
  unfolding page_rows page_row
  page_rows-shows rows now p [] = refl
  page_rows-shows rows now p (q ∷ items) = ground (arith, page_rows-shows rows now p items)

  -- A projected file of the same page.
  abbrev pub same_id : ParsedPage x → ParsedPage x → Bool
  same_id p q = text_eq q.frontmatter.id p.frontmatter.id

  page_rows-ids :
      (rows : List (PageRow x.Rest)) (now : ℕ) (p : ParsedPage x) (items : List (ParsedPage x))
      → any (λ s. text_eq s.id p.frontmatter.id) (page_rows x rows now items)
        ≡ any (same_id p) items
  unfolding page_rows page_row
  page_rows-ids rows now p [] = refl
  page_rows-ids rows now p (q ∷ items) = ground (arith, page_rows-ids rows now p items)

  same_id-parts :
      (p : ParsedPage x) (items : List (ParsedPage x))
      → any (clashes x p) items ≡ false
      → any (same_id p) items ≡ any (same_page x p) items
  same_id-parts p [] h = refl
  same_id-parts p (q ∷ items) h = ground (arith, h, same_id-parts p items)

  -- A row of `p` is replaced exactly if a row with its id is merged.
  kept-shows :
      (p : ParsedPage x) (new old : List (PageRow x.Rest))
      → any (λ s. text_eq s.id p.frontmatter.id) new ≡ false
      → any (λ r. shows x p r && not (any (λ s. text_eq s.id r.id) new)) old ≡ any (shows x p) old
  kept-shows p new old h = any-ext _ _ old λ r. elim (Bool-cases (text_eq r.id p.frontmatter.id)) [
    | inl e ↦
        let same : any (λ s. text_eq s.id r.id) new ≡ false =
          ap (λ i. any (λ s. text_eq s.id i) new) (text_eq→eq r.id p.frontmatter.id e) ∙ h in
        ground (arith, e, same)
    | inr e ↦ ground (arith, e)
  ]

  -- The page has its row, or is about to be projected, and nothing that clashes with it is.
  abbrev pub is_due : List (ParsedPage x) → ParsedPage x → World x → Bool
  is_due items p w = any (same_page x p) items || any (shows x p) (x.pages.scan w.pages)

  abbrev pub IsIndexed : ParsedPage x → World x → Type 0
  IsIndexed p w = any (shows x p) (x.pages.scan w.pages) ≡ true

  merged-shows :
      (p : ParsedPage x) (items : List (ParsedPage x)) (rows : List (PageRow x.Rest)) (now : ℕ)
      (t : x.pages.Store)
      → any (clashes x p) items ≡ false
      → (any (same_page x p) items || any (shows x p) (x.pages.scan t)) ≡ true
      → any (shows x p) (x.pages.scan (x.pages.merge (λ r. r.id) (page_rows x rows now items) t))
        ≡ true
  merged-shows p items rows now t c h =
      let new = page_rows x rows now items in
      let merged = x.pages.any-merge (λ r. r.id) new t (shows x p) in
      elim (Bool-cases (any (same_page x p) items)) [
        | inl e ↦ merged ∙ ground (arith, page_rows-shows rows now p items, e)
        | inr e ↦
            let fresh = page_rows-ids rows now p items ∙ (same_id-parts p items c ∙ e) in
            merged ∙ ground (arith, h, e, kept-shows p new (x.pages.scan t) fresh)
      ]

  upsert-IsIndexed :
      (p : ParsedPage x) (items : List (ParsedPage x))
      (vectors : Option (List (EmbeddingRow x.Vector)))
      → any (clashes x p) items ≡ false
      → Hoare (λ w. is_due items p w ≡ true) (λ u. IsIndexed p) (upsert x items vectors)
  unfolding upsert
  upsert-IsIndexed p items none c = record { at = λ w a h q. cc }
  upsert-IsIndexed p items (some vectors) c = record {
    at = λ w a h q.
        let ids = page_ids x items in
        let known = x.pages.select (λ r. member r.id ids) (length (distinct ids)) w.pages in
        rw (replace_owned-pages items) (merged-shows p items known w.clock w.pages c h);
  }

  project-IsIndexed :
      (p : ParsedPage x) (items : List (ParsedPage x))
      → any (clashes x p) items ≡ false
      → Hoare (λ w. is_due items p w ≡ true) (λ u. IsIndexed p) (project x items)
  unfolding project
  project-IsIndexed p [] c = record { at = λ w a h q. h }
  project-IsIndexed p (q ∷ items) c = record {
    at = λ w a h e. (upsert-IsIndexed p (q ∷ items) _ c).at w a h e;
  }

  -- A page that has its row or is projected has its row afterwards, if the projected files do not
  -- clash with it.
  pub project_and_refresh-IsIndexed :
      (p : ParsedPage x) (items : List (ParsedPage x))
      → any (clashes x p) items ≡ false
      → Hoare (λ w. is_due items p w ≡ true) (λ u. IsIndexed p) (project_and_refresh x items)
  unfolding project_and_refresh ◌>>=◌
  project_and_refresh-IsIndexed p [] c = record { at = λ w a h q. h }
  project_and_refresh-IsIndexed p (q ∷ items) c =
      Hoare-bind _ _ (project-IsIndexed p (q ∷ items) c) λ u. record { at = λ w a h e. h }

  -- The generated pages are others.
  abbrev pub IsNotGenerated : ParsedPage x → Type 0
  IsNotGenerated p = member p.frontmatter.id (map (λ c. c.page_id) canonical_index_pages) ≡ false

  if_accepted-id :
      (c : Checked) (page : Page x) (path : FilePath) (body hash : Text) (q : ParsedPage x)
      → if_accepted x c
          (record { rel_path = path; frontmatter = page; body = body; content_hash = hash })
        ≡ some q
      → q.frontmatter.id ≡ page.id
  if_accepted-id accepted page path body hash q h = cc
  if_accepted-id (rejected e) page path body hash q h = cc

  -- The page that a generated file parses to.
  pub generated-id :
      (c : Canonical) (entries : List Entry) (files : List (FilePath × x.Content))
      (q : ParsedPage x)
      → parse_page x
          (write_file (index_path x c) (format_index_page x c entries) files)
          (index_path x c)
        ≡ some q
      → q.frontmatter.id ≡ c.page_id
  unfolding parse_page parse_content format_index_page
  generated-id c entries files q h =
      if_accepted-id (validate_id c.page_id) (index_page x c) (index_path x c) _ _ q (
        rw
          (
            read_file-write_file_self (index_path x c) (format_index_page x c entries) files,
            x.load-dump,
          )
          at h)
