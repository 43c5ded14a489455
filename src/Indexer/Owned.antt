-- ===== src/Indexer/Owned.antt =====
-- The rows that the indexer replaces and sweeps.
use smalt_mcp.Prelude.{
  ◌≡◌, refl, ap, ◌∙◌, Bool, true, false, not, ◌&&◌, ◌||◌, List, [], ◌∷◌, any, any-ext, keep, map,
  inl, inr, Bool-cases, Text, text_eq, text_eq_iff, text_eq_refl, member, arith,
}
use smalt_mcp.Corpus.{External, World, PageRow, LinkRow, ClaimRow}
use smalt_mcp.Indexer.{
  replace_links_for_page, replace_claims_for_page, delete_page, delete_pages, distinct,
}
use smalt_mcp.Indexer.Run.{Scan, stale_ids, sweep}

module _ (x : External) where
  -- Afterwards the links from the page are the new rows, and every other link is still there: a row
  -- with any property `q` is in the table exactly if it is new, or was there from another page.
  replace_links_for_page-rows :
      (id : Text) (rows : List LinkRow) (t : x.links.Store) (q : LinkRow → Bool)
      → any q (x.links.scan (replace_links_for_page x id rows t))
        ≡ (any (λ r. q r && not (text_eq r.from_id id)) (x.links.scan t) || any q rows)
  unfolding replace_links_for_page
  replace_links_for_page-rows id [] t q =
      ground (arith, x.links.any-delete (λ r. text_eq r.from_id id) t q)
  replace_links_for_page-rows id (row ∷ rows) t q =
      x.links.any-add (row ∷ rows) _ q
      ∙ ap (λ b. b || any q (row ∷ rows)) (x.links.any-delete (λ r. text_eq r.from_id id) t q)

  -- The same of a page's claims.
  pub replace_claims_for_page-rows :
      (id : Text) (rows : List ClaimRow) (t : x.claims.Store) (q : ClaimRow → Bool)
      → any q (x.claims.scan (replace_claims_for_page x id rows t))
        ≡ (any (λ r. q r && not (text_eq r.page_id id)) (x.claims.scan t) || any q rows)
  unfolding replace_claims_for_page
  replace_claims_for_page-rows id [] t q =
      ground (arith, x.claims.any-delete (λ r. text_eq r.page_id id) t q)
  replace_claims_for_page-rows id (row ∷ rows) t q =
      x.claims.any-add (row ∷ rows) _ q
      ∙ ap (λ b. b || any q (row ∷ rows)) (x.claims.any-delete (λ r. text_eq r.page_id id) t q)

neither : (a b c : Bool) → (a && not b) && not c ≡ (a && not (c || b))
neither true true true = refl
neither true true false = refl
neither true false true = refl
neither true false false = refl
neither false b c = refl

member-keep :
    (t : Text) (p : Text → Bool) (ts : List Text) → member t (keep p ts) ≡ (member t ts && p t)
member-keep t p [] = refl
member-keep t p (s ∷ ts) = elim (Bool-cases (text_eq t s)) [
  | inl e ↦ ground (arith, e, ap p ((text_eq_iff t s).0 e), member-keep t p ts)
  | inr e ↦ ground (arith, e, member-keep t p ts)
]

member-distinct : (t : Text) (ts : List Text) → member t (distinct ts) ≡ member t ts
unfolding distinct
member-distinct t [] = refl
member-distinct t (s ∷ ts) = elim (Bool-cases (text_eq t s)) [
  | inl e ↦ ground (arith, e, ap (λ u. member u ts) ((text_eq_iff t s).0 e), member-distinct t ts)
  | inr e ↦ ground (arith, e, member-distinct t ts)
]

module _ (x : External) where
  delete_pages-rows :
      (ids : List Text) (w : World x) (q : PageRow x.Rest → Bool)
      → any q (x.pages.scan (delete_pages x ids w).pages)
        ≡ any (λ r. q r && not (member r.id ids)) (x.pages.scan w.pages)
  unfolding delete_pages delete_page
  delete_pages-rows [] w q = any-ext _ _ (x.pages.scan w.pages) λ r. ground arith
  delete_pages-rows (id ∷ ids) w q =
      delete_pages-rows ids (delete_page x id w) q
      ∙ (x.pages.any-delete _ w.pages _
          ∙ any-ext _ _ (x.pages.scan w.pages)
              λ r. neither (q r) (member r.id ids) (text_eq r.id id))

  -- The known ids that were not seen are the stale ones.
  stale-member :
      (rows : List (PageRow x.Rest)) (seen : List Text) (t : Text)
      → member t (map (λ r. r.id) rows) ≡ true
      → not (member t (stale_ids x rows seen)) ≡ member t seen
  unfolding stale_ids
  stale-member rows seen t h =
      let ids = map (λ r. r.id) rows in
      ground
        (arith, h, member-keep t (λ id. not (member id seen)) (distinct ids), member-distinct t ids)

  any-covered :
      (ids : List Text) (f : Text → Bool) (g : Text → Bool) (rows : List (PageRow x.Rest))
      (q : PageRow x.Rest → Bool)
      → ((t : Text) → member t ids ≡ true → f t ≡ g t)
      → ((t : Text) → member t (map (λ r. r.id) rows) ≡ true → member t ids ≡ true)
      → any (λ r. q r && f r.id) rows ≡ any (λ r. q r && g r.id) rows
  any-covered ids f g [] q h k = refl
  any-covered ids f g (r ∷ rows) q h k =
      let here = h r.id (k r.id (ground (arith, text_eq_refl r.id))) in
      let there = any-covered ids f g rows q h (λ t m. k t (ground (arith, m))) in
      ground (arith, here, there)

  -- The sweep of an incremental run keeps exactly the pages whose id the scan saw: a row with any
  -- property `q` is left exactly if there was one with a seen id.
  pub sweep-rows :
      (s : Scan x) (w : World x) (q : PageRow x.Rest → Bool)
      → any q (x.pages.scan (sweep x (x.pages.scan w.pages) s w).1.pages)
        ≡ any (λ r. q r && member r.id s.seen) (x.pages.scan w.pages)
  unfolding sweep
  sweep-rows s w q =
      let rows = x.pages.scan w.pages in
      delete_pages-rows (stale_ids x rows s.seen) w q
      ∙ any-covered (map (λ r. r.id) rows) (λ t. not (member t (stale_ids x rows s.seen)))
          (λ t. member t s.seen) rows q (stale-member rows s.seen) λ t m. m
