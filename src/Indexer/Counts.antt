-- ===== src/Indexer/Counts.antt =====
-- The counters of `IndexResult`.
use smalt_mcp.Prelude.{
  ℕ, suc, ◌+◌, ◌≡◌, Bool, true, false, Option, none, some, List, [], ◌∷◌, length, length-append,
  if◌then◌else◌, inl, inr, Bool-cases, Text, text_eq, arith,
}
use smalt_mcp.Storage.Paths.{FilePath}
use smalt_mcp.Corpus.{External, World, PageRow, IndexResult}
use smalt_mcp.Corpus.Pages.{ParsedPage, parse_page}
use smalt_mcp.Indexer.Run.{Scan, scan_parsed, scan_file, scan_files, start_scan, never}

-- The files that a run has classified.
abbrev pub classified : IndexResult → ℕ
classified r = r.inserted + r.updated + r.skipped + r.failed

-- The counters agree with what the scan collected.
pub record IsCounted (x : External) (s : Scan x) : Type 0 where
  pub indexed : length s.to_index ≡ s.result.inserted + s.result.updated
  pub named : length s.result.failures ≡ s.result.failed
  pub ids : length s.seen ≡ s.result.inserted + s.result.updated + s.result.skipped

module _ (x : External) where
  scan_parsed-classified :
      (p : ParsedPage x) (old : Option Text) (s : Scan x)
      → classified (scan_parsed x p old s).result ≡ suc (classified s.result)
  unfolding scan_parsed
  scan_parsed-classified p none s = omega arith
  scan_parsed-classified p (some old) s = ground arith

  scan_file-classified :
      (rows : List (PageRow x.Rest)) (path : FilePath) (o : Option (ParsedPage x)) (s : Scan x)
      → classified (scan_file x rows path o s).result ≡ suc (classified s.result)
  unfolding scan_file
  scan_file-classified rows path none s = omega arith
  scan_file-classified rows path (some p) s = scan_parsed-classified p _ s

  scan_parsed-IsCounted :
      (p : ParsedPage x) (old : Option Text) (s : Scan x)
      → IsCounted x s
      → IsCounted x (scan_parsed x p old s)
  unfolding scan_parsed
  scan_parsed-IsCounted p none s h = record {
    indexed = omega (arith, length-append s.to_index (p ∷ []), h.indexed);
    named = h.named;
    ids = omega (arith, h.ids);
  }
  scan_parsed-IsCounted p (some old) s h = elim (Bool-cases (text_eq old p.content_hash)) [
    | inl e ↦ rw e (record { indexed = h.indexed; named = h.named; ids = omega (arith, h.ids) })
    | inr e ↦ rw e (record {
      indexed = omega (arith, length-append s.to_index (p ∷ []), h.indexed);
      named = h.named;
      ids = omega (arith, h.ids);
    })
  ]

  scan_file-IsCounted :
      (rows : List (PageRow x.Rest)) (path : FilePath) (o : Option (ParsedPage x)) (s : Scan x)
      → IsCounted x s
      → IsCounted x (scan_file x rows path o s)
  unfolding scan_file
  scan_file-IsCounted rows path none s h = record {
    indexed = h.indexed;
    named = omega (arith, length-append s.result.failures (path ∷ []), h.named);
    ids = h.ids;
  }
  scan_file-IsCounted rows path (some p) s h = scan_parsed-IsCounted p _ s h

  scan_files-classified :
      (rows : List (PageRow x.Rest)) (w : World x) (files : List FilePath) (n : ℕ) (s : Scan x)
      → classified (scan_files x (never x) rows w files n s).result
        ≡ classified s.result + length files
  unfolding scan_files
  scan_files-classified rows w [] n s = omega arith
  scan_files-classified rows w (path ∷ files) n s =
      let next = scan_file x rows path (parse_page x w.files path) s in
      omega (
        arith,
        scan_files-classified rows w files (n + 1) next,
        scan_file-classified rows path (parse_page x w.files path) s,
      )

  set_cancelled-IsCounted :
      (b : Bool) (s t : Scan x)
      → IsCounted x s
      → IsCounted x t
      → IsCounted x (if b then record s { result = record s.result { cancelled = true } } else t)
  set_cancelled-IsCounted true s t h k = record {
    indexed = h.indexed;
    named = h.named;
    ids = h.ids;
  }
  set_cancelled-IsCounted false s t h k = k

  -- Whether a scan is cut short or not, its counters agree with the pages to index, the failures
  -- and the ids that it collected, if they did at its start.
  scan_files-IsCounted :
      (is_cancelled : ℕ → Bool) (rows : List (PageRow x.Rest)) (w : World x) (files : List FilePath)
      (n : ℕ) (s : Scan x)
      → IsCounted x s
      → IsCounted x (scan_files x is_cancelled rows w files n s)
  unfolding scan_files
  scan_files-IsCounted is_cancelled rows w [] n s h = h
  scan_files-IsCounted is_cancelled rows w (path ∷ files) n s h =
      set_cancelled-IsCounted (is_cancelled n) s _ h (
        scan_files-IsCounted is_cancelled rows w files (n + 1) _
          (scan_file-IsCounted rows path (parse_page x w.files path) s h))

  -- A scan that is not cancelled classifies every file exactly once, as inserted, updated, skipped
  -- or failed.
  scan_files-total :
      (rows : List (PageRow x.Rest)) (w : World x) (files : List FilePath)
      → classified (scan_files x (never x) rows w files 0 (start_scan x files)).result
        ≡ length files
  scan_files-total rows w files =
      omega (arith, scan_files-classified rows w files 0 (start_scan x files))
