-- ===== src/Indexer/Scanned.antt =====
-- What the scan of an incremental run hands on of a page file.
use smalt_mcp.Prelude.{
  ℕ, ◌+◌, ◌≡◌, refl, ap, ◌∙◌, sym, arith, Bool, true, false, not, ◌&&◌, ◌||◌, Option, none, some,
  List, [], ◌∷◌, any, any-append, Text, text_eq, text_eq_refl, member, inl, inr, Bool-cases,
}
use smalt_mcp.Storage.Paths.{FilePath}
use smalt_mcp.Corpus.{External, World, PageRow}
use smalt_mcp.Corpus.Files.{path_eq, path_eq→eq, path_eq_refl}
use smalt_mcp.Corpus.Pages.{ParsedPage, parse_page}
use smalt_mcp.Indexer.{hash_of}
use smalt_mcp.Indexer.Run.{Scan, scan_parsed, scan_file, scan_files, never}

module _ (x : External) where
  -- A row of the page `p`, with the hash of its file.
  abbrev pub shows : ParsedPage x → PageRow x.Rest → Bool
  shows p r = text_eq r.id p.frontmatter.id && text_eq r.content_hash p.content_hash

  -- A file of the same page with the same content.
  abbrev pub same_page : ParsedPage x → ParsedPage x → Bool
  same_page p q = text_eq q.frontmatter.id p.frontmatter.id && text_eq q.content_hash p.content_hash

  -- A file of the same page with other content.
  abbrev pub clashes : ParsedPage x → ParsedPage x → Bool
  clashes p q =
      text_eq q.frontmatter.id p.frontmatter.id && not (text_eq q.content_hash p.content_hash)

  hash_of-shows :
      (p : ParsedPage x) (rows : List (PageRow x.Rest)) (h : Text)
      → hash_of x p.frontmatter.id rows ≡ some h
      → text_eq h p.content_hash ≡ true
      → any (shows p) rows ≡ true
  unfolding hash_of
  hash_of-shows p [] h e k = cc
  hash_of-shows p (r ∷ rows) h e k = ground (arith, e, k, hash_of-shows p rows h)

  -- The page was seen, and is to be indexed or in the index already.
  abbrev pub is_handed_on : List (PageRow x.Rest) → ParsedPage x → Scan x → Bool
  is_handed_on rows p s =
      member p.frontmatter.id s.seen && (any (same_page p) s.to_index || any (shows p) rows)

  scan_parsed-handed_on :
      (rows : List (PageRow x.Rest)) (p : ParsedPage x) (o : Option Text) (s : Scan x)
      → hash_of x p.frontmatter.id rows ≡ o
      → is_handed_on rows p (scan_parsed x p o s) ≡ true
  unfolding scan_parsed
  scan_parsed-handed_on rows p none s h = ground (
    arith,
    text_eq_refl p.frontmatter.id,
    text_eq_refl p.content_hash,
    any-append (same_page p) s.to_index (p ∷ []),
  )
  scan_parsed-handed_on rows p (some old) s h = elim (Bool-cases (text_eq old p.content_hash)) [
    | inl e ↦ ground (arith, e, text_eq_refl p.frontmatter.id, hash_of-shows p rows old h e)
    | inr e ↦ ground (
      arith,
      e,
      text_eq_refl p.frontmatter.id,
      text_eq_refl p.content_hash,
      any-append (same_page p) s.to_index (p ∷ []),
    )
  ]

  scan_parsed-keeps :
      (rows : List (PageRow x.Rest)) (p q : ParsedPage x) (o : Option Text) (s : Scan x)
      → is_handed_on rows p s ≡ true
      → is_handed_on rows p (scan_parsed x q o s) ≡ true
  unfolding scan_parsed
  scan_parsed-keeps rows p q none s h =
      ground (arith, h, any-append (same_page p) s.to_index (q ∷ []))
  scan_parsed-keeps rows p q (some old) s h =
      ground (arith, h, any-append (same_page p) s.to_index (q ∷ []))

  scan_file-keeps :
      (rows : List (PageRow x.Rest)) (p : ParsedPage x) (path : FilePath)
      (o : Option (ParsedPage x)) (s : Scan x)
      → is_handed_on rows p s ≡ true
      → is_handed_on rows p (scan_file x rows path o s) ≡ true
  unfolding scan_file
  scan_file-keeps rows p path none s h = h
  scan_file-keeps rows p path (some q) s h = scan_parsed-keeps rows p q _ s h

  scan_files-keeps :
      (rows : List (PageRow x.Rest)) (w : World x) (p : ParsedPage x) (files : List FilePath)
      (n : ℕ) (s : Scan x)
      → is_handed_on rows p s ≡ true
      → is_handed_on rows p (scan_files x (never x) rows w files n s) ≡ true
  unfolding scan_files
  scan_files-keeps rows w p [] n s h = h
  scan_files-keeps rows w p (path ∷ files) n s h =
      scan_files-keeps rows w p files (n + 1) _ (scan_file-keeps rows p path _ s h)

  scan_file-handed_on :
      (rows : List (PageRow x.Rest)) (p : ParsedPage x) (path : FilePath) (s : Scan x)
      → is_handed_on rows p (scan_file x rows path (some p) s) ≡ true
  unfolding scan_file
  scan_file-handed_on rows p path s = scan_parsed-handed_on rows p _ s refl

  -- A scanned file that parses is handed on.
  pub scan_files-handed_on :
      (rows : List (PageRow x.Rest)) (w : World x) (p : ParsedPage x) (path : FilePath)
      (files : List FilePath) (n : ℕ) (s : Scan x)
      → any (path_eq path) files ≡ true
      → parse_page x w.files path ≡ some p
      → is_handed_on rows p (scan_files x (never x) rows w files n s) ≡ true
  unfolding scan_files
  scan_files-handed_on rows w p path [] n s h k = cc
  scan_files-handed_on rows w p path (other ∷ files) n s h k =
      elim (Bool-cases (path_eq path other)) [
        | inl e ↦
            let here = path_eq→eq path other e in
            let read : parse_page x w.files other ≡ some p =
              ap (λ o. parse_page x w.files o) (sym here) ∙ k in
            scan_files-keeps rows w p files (n + 1) _ (rw read (scan_file-handed_on rows p other s))
        | inr e ↦ scan_files-handed_on rows w p path files (n + 1) _ (ground (arith, h, e)) k
      ]

  scan_parsed-clash :
      (p q : ParsedPage x) (o : Option Text) (s : Scan x)
      → clashes p q ≡ false
      → any (clashes p) s.to_index ≡ false
      → any (clashes p) (scan_parsed x q o s).to_index ≡ false
  unfolding scan_parsed
  scan_parsed-clash p q none s h k =
      ground (arith, h, k, any-append (clashes p) s.to_index (q ∷ []))
  scan_parsed-clash p q (some old) s h k =
      ground (arith, h, k, any-append (clashes p) s.to_index (q ∷ []))

  scan_file-clash :
      (rows : List (PageRow x.Rest)) (p : ParsedPage x) (path : FilePath)
      (o : Option (ParsedPage x)) (s : Scan x)
      → ((q : ParsedPage x) → o ≡ some q → clashes p q ≡ false)
      → any (clashes p) s.to_index ≡ false
      → any (clashes p) (scan_file x rows path o s).to_index ≡ false
  unfolding scan_file
  scan_file-clash rows p path none s h k = k
  scan_file-clash rows p path (some q) s h k = scan_parsed-clash p q _ s (h q refl) k

  -- Where no file has other content for the page, none is handed on.
  pub scan_files-clash :
      (rows : List (PageRow x.Rest)) (w : World x) (p : ParsedPage x) (files : List FilePath)
      (n : ℕ) (s : Scan x)
      → ((path : FilePath) (q : ParsedPage x)
          → any (path_eq path) files ≡ true
          → parse_page x w.files path ≡ some q
          → clashes p q ≡ false)
      → any (clashes p) s.to_index ≡ false
      → any (clashes p) (scan_files x (never x) rows w files n s).to_index ≡ false
  unfolding scan_files
  scan_files-clash rows w p [] n s h k = k
  scan_files-clash rows w p (path ∷ files) n s h k =
      scan_files-clash rows w p files (n + 1) _ (λ other q m e. h other q (ground (arith, m)) e)
        (scan_file-clash rows p path _ s (λ q e. h path q (ground (arith, path_eq_refl path)) e) k)
