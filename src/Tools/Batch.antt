-- ===== src/Tools/Batch.antt =====
-- `add_links` and `add_claims` add their batches as single calls would.
use smalt_mcp.Prelude.{
  ◌≡◌, refl, ◌∙◌, sym, List, [], ◌∷◌, ◌++◌, any-append, append_assoc, append-nil, inl, inr,
  Bool-cases, arith, if◌then◌else◌,
}
use smalt_mcp.Schema.{Link}
use smalt_mcp.Tools.Links.{has_link, same_link, collect_links}

-- `add_link` for each link in turn, on the links of the page.
pub add_each : List Link → List Link → List Link
add_each existing [] = existing
add_each existing (l ∷ links) =
    add_each (if has_link l existing then existing else existing ++ l ∷ []) links

-- The keys that were seen are the keys that the page would have by then.
abbrev SameLinks : List Link → List Link → Type 0
SameLinks seen existing = (l : Link) → has_link l seen ≡ has_link l existing

SameLinks-extend :
    (seen existing : List Link) (l : Link)
    → SameLinks seen existing
    → SameLinks (l ∷ seen) (existing ++ l ∷ [])
SameLinks-extend seen existing l h k =
    ground (arith, h k, any-append (same_link k) existing (l ∷ []))

collect_links-add_each_from :
    (seen existing links : List Link)
    → SameLinks seen existing
    → existing ++ (collect_links seen links).0 ≡ add_each existing links
unfolding collect_links add_each
collect_links-add_each_from seen existing [] h = append-nil existing
collect_links-add_each_from seen existing (l ∷ links) h = elim (Bool-cases (has_link l seen)) [
  | inl e ↦ rw (e, sym (h l) ∙ e) (collect_links-add_each_from seen existing links h)
  | inr e ↦
      rw (e, sym (h l) ∙ e)
        (sym (append_assoc existing (l ∷ []) (collect_links (l ∷ seen) links).0)
          ∙ collect_links-add_each_from (l ∷ seen) (existing ++ l ∷ []) links
              (SameLinks-extend seen existing l h))
]

-- The links of the page with those that a batch appends are the links after adding the batch one
-- link at a time, each skipped where the page already has its target and label.
collect_links-add_each :
    (existing links : List Link)
    → existing ++ (collect_links existing links).0 ≡ add_each existing links
collect_links-add_each existing links =
    collect_links-add_each_from existing existing links λ l. refl
