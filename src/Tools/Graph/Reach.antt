-- ===== src/Tools/Graph/Reach.antt =====
-- What a walk can visit within its hops.
use smalt_mcp.Prelude.{
  ℕ, zero, suc, ◌+◌, ◌≡◌, sym, arith, subst, Bool, true, ◌&&◌, Option, List, [], ◌∷◌, any, length,
  ◌==◌, inl, inr, Bool-cases, Text, text_eq, text_eq_refl, text_eq→eq, member,
}
use smalt_mcp.Corpus.{External, LinkRow}
use smalt_mcp.Tools.Graph.{
  Walk, follows, visit, visit-visited, hop, walk, start_walk, per_hop_edge_limit,
}

-- The row is a link from `u` to `v` that the label lets through.
abbrev pub is_edge : Option Text → Text → Text → LinkRow → Bool
is_edge label u v r = text_eq v r.to_id && (text_eq r.from_id u && follows label r)

-- `v` is at most so many links away from `from_id`.
pub data Within (rows : List LinkRow) (label : Option Text) (from_id : Text)
    : ℕ → Text → Type 0 where
  start : {n : ℕ} → Within rows label from_id n from_id
  along :
      {n : ℕ} {u v : Text}
      → Within rows label from_id n u
      → any (is_edge label u v) rows ≡ true
      → Within rows label from_id (suc n) v

-- The nodes that `visit` hands on are targets of the rows.
visit-next :
    (rows : List LinkRow) (visited : List Text) (v : Text)
    → member v (visit rows visited).1 ≡ true
    → any (λ r. text_eq v r.to_id) rows ≡ true
unfolding visit
visit-next [] visited v h = h
visit-next (r ∷ rows) visited v h = elim (Bool-cases (member r.to_id visited)) [
  | inl e ↦ let rest = visit-next rows visited v (rw e at h) in ground (arith, rest)
  | inr e ↦ let rest = visit-next rows (r.to_id ∷ visited) v in ground (arith, (rw e at h), rest)
]

-- A row that leaves the frontier leaves one of its nodes.
any-edge :
    (label : Option Text) (nodes : List Text) (v : Text) (rows : List LinkRow)
    → any (λ r. text_eq v r.to_id && (member r.from_id nodes && follows label r)) rows ≡ true
    → (u : Text) × (member u nodes ≡ true) × (any (is_edge label u v) rows ≡ true)
any-edge label nodes v [] h = cc
any-edge label nodes v (r ∷ rows) h =
    elim (Bool-cases (text_eq v r.to_id && (member r.from_id nodes && follows label r))) [
      | inl e ↦ (r.from_id, ground (arith, e), ground (arith, e, text_eq_refl r.from_id))
      | inr e ↦
          let (u, known, edge) = any-edge label nodes v rows (ground (arith, e, h)) in
          (u, known, ground (arith, edge))
    ]

module _ (x : External) (from_id : Text) (label : Option Text) (t : x.links.Store) where
  abbrev Near : ℕ → List Text → Type 0
  Near n nodes = (v : Text) → member v nodes ≡ true → Within (x.links.scan t) label from_id n v

  Within-suc :
      {n : ℕ} {v : Text}
      → Within (x.links.scan t) label from_id n v
      → Within (x.links.scan t) label from_id (suc n) v
  Within-suc start = start
  Within-suc (along w edge) = along (Within-suc w) edge

  pub Within-eq :
      {m n : ℕ} {v : Text}
      → Within (x.links.scan t) label from_id m v
      → m ≡ n
      → Within (x.links.scan t) label from_id n v
  Within-eq {v = v} w e = subst (λ k. Within (x.links.scan t) label from_id k v) e w

  Within-add :
      (m : ℕ) {n : ℕ} {v : Text}
      → Within (x.links.scan t) label from_id n v
      → Within (x.links.scan t) label from_id (m + n) v
  Within-add zero w = Within-eq w (ground arith)
  Within-add (suc m) w = Within-eq (Within-suc (Within-add m w)) (ground arith)

  -- The targets of a hop's rows are one link away from its frontier.
  hop_target-Within :
      (n : ℕ) (s : Walk)
      → Near n s.frontier
      → (v : Text)
      → any
          (λ r. text_eq v r.to_id)
          (x.links.select
            (λ r. member r.from_id s.frontier && follows label r)
            per_hop_edge_limit
            t)
        ≡ true
      → Within (x.links.scan t) label from_id (suc n) v
  hop_target-Within n s near v h =
      let (u, known, edge) =
        any-edge label s.frontier v (x.links.scan t)
          (x.links.select_sound _ per_hop_edge_limit t (λ r. text_eq v r.to_id) h) in
      along (near u known) edge

  hop-Near :
      (n : ℕ) (s : Walk)
      → Near n s.frontier
      → Near n s.visited
      → Near (suc n) (hop x label t s).frontier × Near (suc n) (hop x label t s).visited
  unfolding hop
  hop-Near n s near seen = (
    λ v h. hop_target-Within n s near v (visit-next _ s.visited v h),
    λ v h. elim (Bool-cases (member v s.visited)) [
      | inl old ↦ Within-suc (seen v old)
      | inr new ↦
          let rows =
            x.links.select (λ r. member r.from_id s.frontier && follows label r) per_hop_edge_limit
              t in
          let reached = visit-visited rows s.visited v in
          hop_target-Within n s near v (ground (arith, h, new, reached))
    ],
  )

  walk-Near :
      (hops n : ℕ) (s : Walk)
      → Near n s.frontier
      → Near n s.visited
      → Near (hops + n) (walk x hops label t s).visited
  unfolding walk
  walk-Near zero n s near seen = λ v h. Within-eq (seen v h) (ground arith)
  walk-Near (suc hops) n s near seen = elim (Bool-cases (length s.frontier == 0)) [
    | inl e ↦ rw e (λ v h. Within-add (suc hops) (seen v h))
    | inr e ↦
        let next = hop-Near n s near seen in
        rw e (λ v h. Within-eq (walk-Near hops (suc n) _ next.0 next.1 v h) (ground arith))
  ]

  start-Near : Near 0 (from_id ∷ [])
  start-Near v h =
      let same : from_id ≡ v = sym (text_eq→eq v from_id (ground (arith, h))) in
      subst (Within (x.links.scan t) label from_id 0) same start

  -- Every node that a walk visits is at most as many links away from its start as the walk has hops,
  -- by links of the table that the label lets through.
  pub walk-Within :
      (hops : ℕ) (v : Text)
      → member v (walk x hops label t (start_walk x from_id)).visited ≡ true
      → Within (x.links.scan t) label from_id hops v
  walk-Within hops v h =
      Within-eq (walk-Near hops 0 (start_walk x from_id) start-Near start-Near v h) (ground arith)
