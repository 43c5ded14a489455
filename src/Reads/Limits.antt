-- ===== src/Reads/Limits.antt =====
-- What `list_pages` returns of the rows that it fetched.
use smalt_mcp.Prelude.{
  ℕ, zero, suc, ◌+◌, ◌≡◌, refl, arith, Bool, true, false, List, [], ◌∷◌, keep, leb, if◌then◌else◌,
  Text, Option, take, max,
}
use smalt_mcp.Corpus.Actions.{Outcome, done, fail}
use smalt_mcp.Corpus.{External, PageRow}
use smalt_mcp.Reads.Filters.{Moment, Filters}
use smalt_mcp.Reads.Listing.{list_rows, passes_props, collect, collect_row, prepend}

-- Whether a row passes, where the test raises nothing.
abbrev pub passes : Outcome Bool → Bool
passes (fail e) = false
passes (done b) = b

module _ {Row : Type 0} where
  prepend-take :
      (r : Row) (more : Outcome (List Row)) (out kept : List Row) (k : ℕ)
      → ((l : List Row) → more ≡ done l → l ≡ take k kept)
      → prepend r more ≡ done out
      → out ≡ r ∷ take k kept
  prepend-take r (fail e) out kept k h q = cc
  prepend-take r (done l) out kept k h q = let rest = h l refl in cc

  collect_row-take :
      (o : Outcome Bool) (limit found k : ℕ) (r : Row) (more same : Outcome (List Row))
      (out kept : List Row)
      → max (found + 1) limit ≡ found + suc k
      → ((j : ℕ) (l : List Row) → k ≡ suc j → more ≡ done l → l ≡ take k kept)
      → ((l : List Row) → same ≡ done l → l ≡ take (suc k) kept)
      → collect_row o (leb limit (found + 1)) r more same ≡ done out
      → out ≡ take (suc k) (if passes o then r ∷ kept else kept)
  collect_row-take (fail e) limit found k r more same out kept c h g q = cc
  collect_row-take (done false) limit found k r more same out kept c h g q = g out q
  collect_row-take (done true) limit found zero r more same out kept c h g q =
      let full : leb limit (found + 1) ≡ true = ground (arith, c) in
      let q2 : collect_row (done true) true r more same ≡ done out = rw full at q in cc
  collect_row-take (done true) limit found (suc j) r more same out kept c h g q =
      let more_room : leb limit (found + 1) ≡ false = ground (arith, c) in
      let q2 : collect_row (done true) false r more same ≡ done out = rw more_room at q in
      prepend-take r more out kept (suc j) (λ l e. h j l refl e) q2

  collect-take :
      (test : Row → Outcome Bool) (limit found k : ℕ) (rows out : List Row)
      → max (found + 1) limit ≡ found + suc k
      → collect test limit found rows ≡ done out
      → out ≡ take (suc k) (keep (λ r. passes (test r)) rows)
  unfolding collect
  collect-take test limit found k [] out c q = cc
  collect-take test limit found k (r ∷ rows) out c q =
      collect_row-take (test r) limit found k r _ _ out _ c
        (λ j l e p. rw e (collect-take test limit (found + 1) j rows l (omega (arith, c, e)) p))
        (λ l p. collect-take test limit found k rows l c p) q

module _ (x : External) (fromisoformat : Text → Option Moment) (like : Text → Text → Bool) where
  -- Where no filter raises, `list_pages` lists the fetched rows that pass its filters, in their
  -- order, as many as `limit` says; with a limit of zero it lists one.
  list_rows-take :
      (f : Filters) (limit : ℕ) (rows out : List (PageRow x.Rest))
      → list_rows x fromisoformat like f limit rows ≡ done out
      → out ≡ take (max 1 limit) (keep (λ r. passes (passes_props x fromisoformat like f r)) rows)
  unfolding list_rows
  list_rows-take f zero rows out q = collect-take _ zero 0 zero rows out (omega arith) q
  list_rows-take f (suc n) rows out q =
      let same : max 1 (suc n) ≡ suc n = omega arith in
      rw same (collect-take _ (suc n) 0 n rows out (omega arith) q)
