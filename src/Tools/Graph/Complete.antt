-- ===== src/Tools/Graph/Complete.antt =====
-- A walk that was not truncated visits all that is within its hops.
use smalt_mcp.Prelude.{
  ℕ, zero, suc, ◌+◌, ◌≡◌, ◌↔◌, refl, ap, ◌∙◌, arith, true, false, ◌&&◌, Option, List, [], ◌∷◌, any,
  length, ◌==◌, inl, inr, Bool-cases, Text, text_eq, text_eq_refl, text_eq→eq, member,
}
use smalt_mcp.Corpus.{External, LinkRow}
use smalt_mcp.Tools.Graph.{
  Walk, follows, visit, visit-visited, hop, walk, start_walk, per_hop_edge_limit,
}
use smalt_mcp.Tools.Graph.Reach.{is_edge, Within, start, along, Within-eq, walk-Within}

-- A node that `visit` adds is one that it hands on.
visit-added :
    (rows : List LinkRow) (visited : List Text) (v : Text)
    → member v (visit rows visited).0 ≡ true
    → member v visited ≡ false
    → member v (visit rows visited).1 ≡ true
unfolding visit
visit-added [] visited v h new = cc
visit-added (r ∷ rows) visited v h new = elim (Bool-cases (member r.to_id visited)) [
  | inl e ↦ rw e (visit-added rows visited v (rw e at h) new)
  | inr e ↦
      let rest = visit-added rows (r.to_id ∷ visited) v (rw e at h) in
      rw e (ground (arith, rest, new))
]

-- A link from a node of the frontier is a link from the frontier.
any-frontier :
    (label : Option Text) (nodes : List Text) (u v : Text) (rows : List LinkRow)
    → member u nodes ≡ true
    → any (is_edge label u v) rows ≡ true
    → any (λ r. text_eq v r.to_id && (member r.from_id nodes && follows label r)) rows ≡ true
any-frontier label nodes u v [] known h = cc
any-frontier label nodes u v (r ∷ rows) known h = elim (Bool-cases (is_edge label u v r)) [
  | inl e ↦
      let same : r.from_id ≡ u = text_eq→eq r.from_id u (ground (arith, e)) in
      let here : member r.from_id nodes ≡ true = ap (λ i. member i nodes) same ∙ known in
      ground (arith, e, here)
  | inr e ↦ let rest = any-frontier label nodes u v rows known in ground (arith, e, h, rest)
]

member-empty : (nodes : List Text) (u : Text) → (length nodes == 0) ≡ true → member u nodes ≡ false
member-empty [] u h = refl
member-empty (v ∷ nodes) u h = ground (arith, h)

module _ (x : External) (from_id : Text) (label : Option Text) (t : x.links.Store) where
  -- All that is within `n` links was visited, and behind a visited node that is not in the frontier
  -- every link leads to a visited node.
  record IsExplored (n : ℕ) (s : Walk) : Type 0 where
    near : (v : Text) → Within (x.links.scan t) label from_id n v → member v s.visited ≡ true
    closed :
        (u v : Text)
        → member u s.visited ≡ true
        → member u s.frontier ≡ false
        → any (is_edge label u v) (x.links.scan t) ≡ true
        → member v s.visited ≡ true

  -- After a hop that was not truncated, a visited node's links lead to visited nodes.
  hop-closed :
      (n : ℕ) (s : Walk)
      → IsExplored n s
      → (hop x label t s).truncated ≡ false
      → (u v : Text) → member u s.visited ≡ true
      → any (is_edge label u v) (x.links.scan t) ≡ true
      → member v (hop x label t s).visited ≡ true
  unfolding hop
  hop-closed n s h whole u v seen edge =
      let p = λ (r : LinkRow). member r.from_id s.frontier && follows label r in
      let rows = x.links.select p per_hop_edge_limit t in
      let reached = visit-visited rows s.visited v in
      elim (Bool-cases (member u s.frontier)) [
        | inl e ↦
            let found = any-frontier label s.frontier u v (x.links.scan t) e edge in
            let all =
              x.links.select_all p per_hop_edge_limit t (λ r. text_eq v r.to_id)
                (ground (arith, whole)) in
            let target : any (λ r. text_eq v r.to_id) rows ≡ true = all ∙ found in
            ground (arith, reached, target)
        | inr e ↦ ground (arith, reached, h.closed u v seen e edge)
      ]

  hop-keeps :
      (s : Walk) (v : Text) → member v s.visited ≡ true → member v (hop x label t s).visited ≡ true
  unfolding hop
  hop-keeps s v h =
      let rows =
        x.links.select (λ r. member r.from_id s.frontier && follows label r) per_hop_edge_limit t in
      ground (arith, h, visit-visited rows s.visited v)

  hop-near :
      (n : ℕ) (s : Walk)
      → IsExplored n s
      → (hop x label t s).truncated ≡ false
      → (v : Text) → Within (x.links.scan t) label from_id (suc n) v
      → member v (hop x label t s).visited ≡ true
  hop-near n s h whole v start = hop-keeps s from_id (h.near from_id start)
  hop-near n s h whole v (along {u = u} w edge) = hop-closed n s h whole u v (h.near u w) edge

  hop-added :
      (s : Walk) (u : Text)
      → member u (hop x label t s).visited ≡ true
      → member u (hop x label t s).frontier ≡ false
      → member u s.visited ≡ true
  unfolding hop
  hop-added s u seen left = elim (Bool-cases (member u s.visited)) [
    | inl e ↦ e
    | inr e ↦
        let rows =
          x.links.select (λ r. member r.from_id s.frontier && follows label r) per_hop_edge_limit
            t in
        let added : member u (visit rows s.visited).1 ≡ true =
          visit-added rows s.visited u seen e in
        ground (arith, added, left)
  ]

  hop-IsExplored :
      (n : ℕ) (s : Walk)
      → IsExplored n s
      → (hop x label t s).truncated ≡ false
      → IsExplored (suc n) (hop x label t s)
  hop-IsExplored n s h whole = record {
    near = hop-near n s h whole;
    closed = λ u v seen left edge. hop-closed n s h whole u v (hop-added s u seen left) edge;
  }

  walk-truncated :
      (hops : ℕ) (s : Walk) → (walk x hops label t s).truncated ≡ false → s.truncated ≡ false
  unfolding walk hop
  walk-truncated zero s h = h
  walk-truncated (suc hops) s h = elim (Bool-cases (length s.frontier == 0)) [
    | inl e ↦ rw e at h
    | inr e ↦ let rest = walk-truncated hops (hop x label t s) (rw e at h) in ground (arith, rest)
  ]

  -- Where the frontier is empty, all that can be reached was visited.
  stopped :
      (n : ℕ) (s : Walk) {m : ℕ}
      → IsExplored n s
      → (length s.frontier == 0) ≡ true
      → (v : Text) → Within (x.links.scan t) label from_id m v
      → member v s.visited ≡ true
  stopped n s h e v start = h.near from_id start
  stopped n s h e v (along {u = u} w edge) =
      h.closed u v (stopped n s h e u w) (member-empty s.frontier u e) edge

  walk-visits :
      (hops n : ℕ) (s : Walk)
      → IsExplored n s
      → (walk x hops label t s).truncated ≡ false
      → (v : Text) → Within (x.links.scan t) label from_id (hops + n) v
      → member v (walk x hops label t s).visited ≡ true
  unfolding walk
  walk-visits zero n s h whole v w = h.near v (Within-eq x from_id label t w (ground arith))
  walk-visits (suc hops) n s h whole v w = elim (Bool-cases (length s.frontier == 0)) [
    | inl e ↦ rw e (stopped n s h e v w)
    | inr e ↦
        let next = rw e at whole in
        rw e (
          walk-visits hops (suc n) _ (hop-IsExplored n s h (walk-truncated hops _ next)) next v
            (Within-eq x from_id label t w (ground arith)))
  ]

  start-near :
      (v : Text) → Within (x.links.scan t) label from_id 0 v → member v (from_id ∷ []) ≡ true
  start-near v start = ground (arith, text_eq_refl from_id)

  start-IsExplored : IsExplored 0 (start_walk x from_id)
  start-IsExplored = record {
    near = start-near;
    closed = λ u v seen left edge. ground (arith, seen, left);
  }

  -- A walk that reports no truncation visits exactly the nodes that are at most as many links away
  -- from its start as it has hops, by links that the label lets through.
  pub walk_complete :
      (hops : ℕ)
      → (walk x hops label t (start_walk x from_id)).truncated ≡ false
      → (v : Text)
      → (member v (walk x hops label t (start_walk x from_id)).visited ≡ true)
        ↔ Within (x.links.scan t) label from_id hops v
  walk_complete hops whole v = (
    walk-Within x from_id label t hops v,
    λ w.
        walk-visits hops 0 (start_walk x from_id) start-IsExplored whole v
          (Within-eq x from_id label t w (ground arith)),
  )
