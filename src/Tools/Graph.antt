-- ===== src/Tools/Graph.antt =====
-- `traverse` and `incoming_links` of src/smalt_mcp/tools.py.
mod Complete
mod Reach
mod Traverse
mod Tests
use smalt_mcp.Prelude.{
  ℕ, zero, suc, ◌+◌, ◌≡◌, refl, ap, ◌∙◌, sym, arith, Bool, true, false, not, ◌&&◌, ◌||◌, Option,
  none, some, List, [], ◌∷◌, ◌++◌, any, any-append, length, leb, ltb, ◌==◌, if◌then◌else◌, inl, inr,
  Bool-cases, Text, text_eq, text_eq_iff, member,
}
use smalt_mcp.Corpus.{External, World, Do, LinkRow}
use smalt_mcp.Corpus.Actions.{
  missing_argument, invalid_argument, ◌>>=◌, ◌>>◌, pure, stop, stop_if, gets,
}
use smalt_mcp.Corpus.Pages.{ensure_initialized}
use smalt_mcp.Indexer.Order.{text_le, sort_by}
use smalt_mcp.Tools.Links.{absent, label_eq, value_or}

abbrev max_traverse_hops : ℕ
max_traverse_hops = 5

abbrev per_hop_edge_limit : ℕ
per_hop_edge_limit = 1000

-- What the loop over the hops carries along.
pub record Walk : Type 0 where
  pub visited : List Text
  pub edges : List LinkRow
  pub frontier : List Text
  pub truncated : Bool

-- An edge is its row; the reply leaves out `source_page`.
pub record Traversal : Type 0 where
  pub from_id : Text
  pub hops : ℕ
  pub edges : List LinkRow
  pub count : ℕ
  pub visited_nodes : List Text
  pub truncated : Bool

pub record Incoming : Type 0 where
  pub to_id : Text
  pub edges : List LinkRow
  pub count : ℕ

-- `AND label = ...`, which an empty label leaves out
abbrev pub follows : Option Text → LinkRow → Bool
follows label r = if absent label then true else label_eq r.label label

-- The loop over the rows of one hop: the nodes visited, and those to expand next.
unfoldable pub visit : List LinkRow → List Text → List Text × List Text
visit [] visited = (visited, [])
visit (r ∷ rows) visited =
    let known = member r.to_id visited in
    let (visited', next) = visit rows (if known then visited else r.to_id ∷ visited) in
    (visited', (if known then next else r.to_id ∷ next))

module _ (x : External) where
  unfoldable pub hop : Option Text → x.links.Store → Walk → Walk
  unfolding visit
  hop label t s =
      let rows =
        x.links.select (λ r. member r.from_id s.frontier && follows label r) per_hop_edge_limit t in
      let (visited, next) = visit rows s.visited in
      record {
        visited = visited;
        edges = s.edges ++ rows;
        frontier = next;
        truncated = s.truncated || leb per_hop_edge_limit (length rows);
      }

  -- An empty frontier ends the loop.
  unfoldable pub walk : ℕ → Option Text → x.links.Store → Walk → Walk
  unfolding hop
  walk zero label t s = s
  walk (suc hops) label t s =
      let next = walk hops label t (hop label t s) in if length s.frontier == 0 then s else next

  abbrev pub start_walk : Text → Walk
  start_walk from_id = record {
    visited = from_id ∷ [];
    edges = [];
    frontier = from_id ∷ [];
    truncated = false;
  }

  abbrev pub traversal : Text → ℕ → Walk → Traversal
  traversal from_id hops s = record {
    from_id = from_id;
    hops = hops;
    edges = s.edges;
    count = length s.edges;
    visited_nodes = sort_by text_le s.visited;
    truncated = s.truncated;
  }

  -- A count below 1 stands for every integer below 1; an absent one is 1.
  abbrev pub hop_count : Option ℕ → ℕ
  hop_count none = 1
  hop_count (some n) = n

  unfoldable pub traverse : Option Text → Option Text → Option ℕ → Do x Traversal
  unfolding walk sort_by
  traverse from_id label hops = do
    ensure_initialized x
    stop_if (absent from_id) missing_argument
    stop_if (ltb (hop_count hops) 1) invalid_argument
    stop_if (ltb max_traverse_hops (hop_count hops)) invalid_argument
    gets (λ w.
        traversal (value_or [] from_id) (hop_count hops)
          (walk (hop_count hops) label w.links (start_walk (value_or [] from_id))))

  abbrev incoming : Text → List LinkRow → Incoming
  incoming to_id edges = record { to_id = to_id; edges = edges; count = length edges }

  unfoldable pub incoming_links : Option Text → Option Text → Do x Incoming
  incoming_links page_id label = do
    ensure_initialized x
    stop_if (absent page_id) missing_argument
    gets (λ w. incoming (value_or [] page_id) (
        x.links.select (λ r. text_eq r.to_id (value_or [] page_id) && follows label r) 10000
          w.links))

-- A target that was visited adds nothing.
seen-target :
    (target : Text) (rows : List LinkRow) (visited : List Text) (t : Text) {b : Bool}
    → member target visited ≡ true
    → b ≡ (member t visited || any (λ r. text_eq t r.to_id) rows)
    → b ≡ (member t visited || (text_eq t target || any (λ r. text_eq t r.to_id) rows))
seen-target target rows visited t e h = elim (Bool-cases (text_eq t target)) [
  | inl same ↦
      let known : member t visited ≡ true =
        ap (λ u. member u visited) ((text_eq_iff t target).0 same) ∙ e in
      ground (arith, known, h)
  | inr other ↦ ground (arith, other, h)
]

-- What was visited: the nodes from before, and the targets of the rows.
pub visit-visited :
    (rows : List LinkRow) (visited : List Text) (t : Text)
    → member t (visit rows visited).0 ≡ (member t visited || any (λ r. text_eq t r.to_id) rows)
unfolding visit
visit-visited [] visited t = ground arith
visit-visited (r ∷ rows) visited t = elim (Bool-cases (member r.to_id visited)) [
  | inl e ↦ rw e (seen-target r.to_id rows visited t e (visit-visited rows visited t))
  | inr e ↦ rw e (ground (arith, visit-visited rows (r.to_id ∷ visited) t))
]

any-weaken :
    (q a b : LinkRow → Bool) (rows : List LinkRow)
    → any (λ r. q r && (a r && b r)) rows ≡ true
    → any (λ r. q r && b r) rows ≡ true
any-weaken q a b [] h = h
any-weaken q a b (r ∷ rows) h = ground (arith, h, any-weaken q a b rows)

module _ (x : External) where
  -- The visited nodes are the start and the targets of the edges, at every point of the walk.
  abbrev Targets : Text → Walk → Type 0
  Targets from_id s =
      (t : Text) → member t s.visited ≡ (text_eq t from_id || any (λ r. text_eq t r.to_id) s.edges)

  hop-Targets :
      (from_id : Text) (label : Option Text) (t : x.links.Store) (s : Walk)
      → Targets from_id s
      → Targets from_id (hop x label t s)
  unfolding hop
  hop-Targets from_id label t s h u =
      let rows =
        x.links.select (λ r. member r.from_id s.frontier && follows label r) per_hop_edge_limit t in
      ground (
        arith,
        h u,
        visit-visited rows s.visited u,
        any-append (λ r. text_eq u r.to_id) s.edges rows,
      )

  walk-Targets :
      (from_id : Text) (hops : ℕ) (label : Option Text) (t : x.links.Store) (s : Walk)
      → Targets from_id s
      → Targets from_id (walk x hops label t s)
  unfolding walk
  walk-Targets from_id zero label t s h = h
  walk-Targets from_id (suc hops) label t s h = elim (Bool-cases (length s.frontier == 0)) [
    | inl e ↦ rw e h
    | inr e ↦ rw e (walk-Targets from_id hops label t _ λ u. hop-Targets from_id label t s h u)
  ]

  -- All edges are rows of the table that the label lets through.
  abbrev Rows : Option Text → x.links.Store → Walk → Type 0
  Rows label t s =
      (q : LinkRow → Bool)
      → any q s.edges ≡ true
      → any (λ r. q r && follows label r) (x.links.scan t) ≡ true

  hop-Rows :
      (label : Option Text) (t : x.links.Store) (s : Walk)
      → Rows label t s
      → Rows label t (hop x label t s)
  unfolding hop
  hop-Rows label t s h q e =
      let p = λ (r : LinkRow). member r.from_id s.frontier && follows label r in
      let rows = x.links.select p per_hop_edge_limit t in
      elim (Bool-cases (any q s.edges)) [
        | inl old ↦ h q old
        | inr new ↦ any-weaken q _ _ (x.links.scan t) (
            x.links.select_sound p per_hop_edge_limit t q
              (ground (arith, e, new, any-append q s.edges rows)))
      ]

  walk-Rows :
      (hops : ℕ) (label : Option Text) (t : x.links.Store) (s : Walk)
      → Rows label t s
      → Rows label t (walk x hops label t s)
  unfolding walk
  walk-Rows zero label t s h = h
  walk-Rows (suc hops) label t s h = elim (Bool-cases (length s.frontier == 0)) [
    | inl e ↦ rw e h
    | inr e ↦ rw e (walk-Rows hops label t _ (hop-Rows label t s h))
  ]

-- A walk from a node visits exactly the node and the targets of the edges that it returns, and every
-- edge that it returns is a row of the links table that the label lets through.
walk_sound :
    (x : External) (from_id : Text) (hops : ℕ) (label : Option Text) (t : x.links.Store)
    → let s = walk x hops label t (start_walk x from_id) in
      ((u : Text)
        → member u s.visited ≡ (text_eq u from_id || any (λ r. text_eq u r.to_id) s.edges))
      × ((q : LinkRow → Bool)
          → any q s.edges ≡ true
          → any (λ r. q r && follows label r) (x.links.scan t) ≡ true)
walk_sound x from_id hops label t = (
  walk-Targets x from_id hops label t (start_walk x from_id) (λ u. ground arith),
  walk-Rows x hops label t (start_walk x from_id) (λ q e. cc),
)
