-- ===== src/Graph/Mst.antt =====
-- `mst_kruskal` of src/graph.c: which connections carry broadcasts.
pub mod Closed
pub mod Spanning
pub mod Result
use tinc.Base.{
  ℕ, zero, suc, Bool, true, false, not, ◌&&◌, ◌||◌, Option, none, some, List, [], ◌∷◌, ◌==◌,
  if◌then◌else◌, length,
}
use tinc.Graph.{NodeId}

-- A connection is its place on the list of connections.
abbrev pub ConnectionId : Type 0
ConnectionId = ℕ

-- `edge_t` as an element of `edge_weight_tree`: with its connection, and, if there is an edge in the
-- opposite direction, the connection of that one.
pub record Link : Type 0 where
  pub from : NodeId
  pub to : NodeId
  pub connection : Option ConnectionId
  pub reverse : Option (Option ConnectionId)

-- `status.visited` of the nodes, `status.mst` of the connections, and the edges added, the latest
-- first, which are only logged.
pub record MstState : Type 0 where
  pub visited : NodeId → Bool
  pub mst : ConnectionId → Bool
  pub added : List Link

-- A status set for one more.
abbrev pub also : ℕ → (ℕ → Bool) → ℕ → Bool
also k status m = (m == k) || status m

unfoldable pub mark_mst : Option ConnectionId → (ConnectionId → Bool) → ConnectionId → Bool
mark_mst none mst = mst
mark_mst (some c) mst = also c mst

unfoldable pub mark_link :
    Option ConnectionId → Option (Option ConnectionId) → (ConnectionId → Bool) → ConnectionId → Bool
mark_link connection none mst = mark_mst connection mst
mark_link connection (some reverse) mst = mark_mst reverse (mark_mst connection mst)

unfoldable pub has_reverse : Link → Bool
has_reverse e = elim e.reverse [ none ↦ false | some c ↦ true ]

abbrev pub same : Bool → Bool → Bool
same true b = b
same false b = not b

-- `!e->reverse || (e->from->status.visited == e->to->status.visited)`
unfoldable pub is_skipped : Link → MstState → Bool
is_skipped e t = not (has_reverse e) || same (t.visited e.from) (t.visited e.to)

unfoldable pub add_edge : Link → MstState → MstState
add_edge e t = record {
  visited = also e.to (also e.from t.visited);
  mst = mark_link e.connection e.reverse t.mst;
  added = e ∷ t.added;
}

-- Add safe edges: `fuel` bounds how often the walk starts again at the head of the tree, and none is
-- a walk that would start again.
unfoldable pub walk : ℕ → List Link → Bool → List Link → MstState → Option MstState
walk fuel all skipped [] t = some t
walk zero all skipped (e ∷ es) t = elim (is_skipped e t) [
  | true ↦ walk zero all true es t
  | false ↦ elim skipped [ true ↦ none | false ↦ walk zero all false es (add_edge e t) ]
]
walk (suc fuel) all skipped (e ∷ es) t = elim (is_skipped e t) [
  | true ↦ walk (suc fuel) all true es t
  | false ↦ elim skipped [
    | true ↦ walk fuel all false all (add_edge e t)
    | false ↦ walk (suc fuel) all false es (add_edge e t)
  ]
]

-- Starting point.
unfoldable pub starting_point : (NodeId → Bool) → List Link → MstState
starting_point reachable [] = record { visited = λ n. false; mst = λ c. false; added = [] }
starting_point reachable (e ∷ es) =
    if reachable e.from
    then record { visited = also e.from (λ n. false); mst = λ c. false; added = [] }
    else starting_point reachable es

unfoldable pub mst_kruskal : (NodeId → Bool) → List Link → Option MstState
mst_kruskal reachable all = walk (length all) all false all (starting_point reachable all)
