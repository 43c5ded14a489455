-- ===== src/Tools/Graph/Traverse.antt =====
-- What a reply of `traverse` says about the links table.
use smalt_mcp.Prelude.{
  ℕ, ◌≡◌, ◌↔◌, refl, ap, ◌∙◌, sym, arith, Bool, true, false, Option, some, Text, text_eq, member,
}
use smalt_mcp.Corpus.{External, World}
use smalt_mcp.Corpus.Actions.{Failure, done, ◌>>=◌, stop_if}
use smalt_mcp.Corpus.Hoare.{Hoare, Hoare-bind, Hoare-gets}
use smalt_mcp.Corpus.Pages.{ensure_initialized}
use smalt_mcp.Indexer.Order.{text_le, any-sort_by}
use smalt_mcp.Tools.Graph.{Traversal, hop_count, traversal, walk, start_walk, traverse}
use smalt_mcp.Tools.Graph.Reach.{Within}
use smalt_mcp.Tools.Graph.Complete.{walk_complete}

module _ (x : External) (w : World x) where
  -- The links table is as it was.
  abbrev HasLinks : World x → Type 0
  HasLinks v = v.links ≡ w.links

  ensure_initialized-Hoare : Hoare HasLinks (λ u. HasLinks) (ensure_initialized x)
  unfolding ensure_initialized
  ensure_initialized-Hoare = record { at = λ v a k q. ground (arith, k) }

  stop_if-Hoare : (b : Bool) (e : Failure) → Hoare HasLinks (λ u. HasLinks) (stop_if b e)
  unfolding ◌>>=◌
  stop_if-Hoare b e = record { at = λ v a k q. k }

  -- The reply shows a walk over the links table.
  abbrev Walks : Text → Option Text → Option ℕ → Traversal → Type 0
  Walks from_id label hops r =
      r
      ≡ traversal x from_id (hop_count x hops)
          (walk x (hop_count x hops) label w.links (start_walk x from_id))

  traverse-Walks :
      (from_id : Text) (label : Option Text) (hops : Option ℕ)
      → Hoare HasLinks (λ r v. Walks from_id label hops r) (traverse x (some from_id) label hops)
  unfolding traverse
  traverse-Walks from_id label hops = Hoare-bind _ _ ensure_initialized-Hoare λ u1.
      Hoare-bind _ _ (stop_if-Hoare _ _) λ u2. Hoare-bind _ _ (stop_if-Hoare _ _) λ u3.
        Hoare-bind _ _ (stop_if-Hoare _ _) λ u4. Hoare-gets _ λ v k.
          ap
            (λ z.
              traversal x from_id (hop_count x hops)
                (walk x (hop_count x hops) label z (start_walk x from_id)))
            k

  -- Where `traverse` succeeds and reports no truncation, it lists exactly the nodes that are at most as
  -- many links away from the given one as asked for, one where no number is given, by links of the
  -- table that the label lets through.
  pub traverse_complete :
      (from_id : Text) (label : Option Text) (hops : Option ℕ) (r : Traversal)
      → (traverse x (some from_id) label hops w).0 ≡ done r
      → r.truncated ≡ false
      → (v : Text)
      → (member v r.visited_nodes ≡ true)
        ↔ Within (x.links.scan w.links) label from_id (hop_count x hops) v
  traverse_complete from_id label hops r ok whole v =
      let same = (traverse-Walks from_id label hops).at w r refl ok in
      let s = walk x (hop_count x hops) label w.links (start_walk x from_id) in
      let listed : member v r.visited_nodes ≡ member v s.visited =
        ap (λ z. member v z.visited_nodes) same ∙ any-sort_by text_le (text_eq v) s.visited in
      let (there, back) =
        walk_complete x from_id label w.links (hop_count x hops)
          (sym (ap (λ z. z.truncated) same) ∙ whole) v in
      (λ h. there (sym listed ∙ h), λ d. listed ∙ back d)
