-- ===== src/Graph.antt =====
-- `sssp_bfs` of src/graph.c: which nodes are reachable from this one, over which neighbour, and
-- how packets get there.
pub mod Sound
pub mod Explored
pub mod Reached
pub mod Reachability
mod Tests
pub mod Mst
use tinc.Base.{
  ℕ, zero, suc, ◌+◌, Bool, true, false, not, ◌&&◌, ◌||◌, Option, none, some, List, [], ◌∷◌, ◌++◌,
  ◌==◌, if◌then◌else◌, ltb, bit_and,
}
use tinc.Base.Bytes.{Bytes}
use tinc.Subnet.{ℤ, pos, negsuc}

-- A node is its place in the tree of nodes.
abbrev pub NodeId : Type 0
NodeId = ℕ

-- `sockaddr_t`: its family and what else it says.
pub record Sockaddr : Type 0 where
  pub family : ℕ
  pub rest : Bytes

abbrev pub af_unspec : ℕ
af_unspec = 0

abbrev pub af_unknown : ℕ
af_unknown = 255

-- `edge_t`, as an element of the tree of edges of its `from`; of `reverse` whether it is there.
pub record Edge : Type 0 where
  pub to : NodeId
  pub reverse : Bool
  pub options : ℕ
  pub weight : ℤ
  pub address : Sockaddr

-- The fields of `node_t` that the search reads and writes. A pointer may be NULL; the distance
-- -1 is none.
pub record Vertex : Type 0 where
  pub visited : Bool
  pub reachable : Bool
  pub indirect : Bool
  pub distance : Option ℕ
  pub nexthop : Option NodeId
  pub prevedge : Option Edge
  pub via : Option NodeId
  pub options : ℕ
  pub address : Sockaddr
  pub sock : ℕ
  pub in_udp_tree : Bool
  pub udp_confirmed : Bool
  pub maxrecentlen : ℕ
  pub mtuprobes : ℕ
  pub minmtu : ℕ
  pub maxmtu : ℕ

abbrev pub Store : Type 0
Store = NodeId → Vertex

abbrev pub write : NodeId → Vertex → Store → Store
write n v s m = if m == n then v else s m

-- The nodes, and those on the list behind the one in hand.
pub record Search : Type 0 where
  pub store : Store
  pub todo : List NodeId

-- The first listening socket of a family, or else the first of all.
unfoldable pub socket_for : ℕ → ℕ → List ℕ → ℕ
socket_for family i [] = 0
socket_for family i (f ∷ families) = if f == family then i else socket_for family (suc i) families

-- `OPTION_INDIRECT`
abbrev pub is_indirect : ℕ → Bool
is_indirect options = not (bit_and options 1 == 0)

unfoldable pub less : ℤ → ℤ → Bool
less (pos a) (pos b) = ltb a b
less (pos a) (negsuc b) = false
less (negsuc a) (pos b) = true
less (negsuc a) (negsuc b) = ltb b a

-- `n->distance + 1`, and whether a distance is that.
unfoldable pub next_distance : Option ℕ → ℕ
next_distance none = 0
next_distance (some d) = suc d

unfoldable pub is_distance : Option ℕ → ℕ → Bool
is_distance none d = false
is_distance (some a) d = a == d

-- `e->to->distance == n->distance + 1 && e->weight < e->to->prevedge->weight`; none where
-- `prevedge` is read and is NULL.
unfoldable pub is_closer : Bool → Option Edge → Edge → Option Bool
is_closer false prev e = some false
is_closer true none e = none
is_closer true (some prev) e = some (less e.weight prev.weight)

-- The constants of a search: this node, the edges of each node in their order, the families of the
-- listening sockets, and `MTU`.
pub record Topology : Type 0 where
  pub myself : NodeId
  pub edges : NodeId → List Edge
  pub families : List ℕ
  pub mtu : ℕ

module _ (net : Topology) where
  -- `update_node_udp` with an address, for a node other than this one.
  unfoldable pub update_node_udp : Sockaddr → Vertex → Vertex
  update_node_udp address v = record v {
    address = address;
    sock = socket_for address.family 0 net.families;
    in_udp_tree = true;
    udp_confirmed = false;
    maxrecentlen = 0;
    mtuprobes = 0;
    minmtu = 0;
    maxmtu = net.mtu;
  }

  -- The node that packets for the end of an edge go to.
  unfoldable pub hop_over : Option NodeId → NodeId → Option NodeId
  hop_over none to = none
  hop_over (some hop) to = if hop == net.myself then some to else some hop

  -- What the edge `e` from a node makes of the node it leads to.
  unfoldable pub updated : Vertex → Edge → Bool → Vertex → Vertex
  updated from e closer to =
      let indirect = from.indirect || is_indirect e.options in
      let to' : Vertex = record to {
        nexthop = if closer then hop_over from.nexthop e.to else to.nexthop;
        visited = true;
        indirect = indirect;
        prevedge = some e;
        via = if indirect then from.via else some e.to;
        options = e.options;
        distance = some (next_distance from.distance);
      } in
      if not to.reachable
        || ((to.address.family == af_unspec) && not (e.address.family == af_unknown))
      then update_node_udp e.address to'
      else to'

  unfoldable pub reach : NodeId → Edge → Bool → Search → Search
  reach n e closer s = record {
    store = write e.to (updated (s.store n) e closer (s.store e.to)) s.store;
    todo = s.todo ++ (e.to ∷ []);
  }

  -- One edge of the node `n`; none where a null pointer is read.
  unfoldable pub examine_visited : NodeId → Edge → Search → Option Search
  examine_visited n e s =
      let from = s.store n in
      let to = s.store e.to in
      let indirect = from.indirect || is_indirect e.options in
      elim (is_closer (is_distance to.distance (next_distance from.distance)) to.prevedge e) [
        | none ↦ none
        | some closer ↦
            if (not to.indirect || indirect) && not closer
            then some s
            else some (reach n e closer s)
      ]

  unfoldable pub examine : NodeId → Edge → Search → Option Search
  examine n e s =
      if not e.reverse || (e.to == net.myself)
      then some s
      else (if (s.store e.to).visited then examine_visited n e s else some (reach n e true s))

  unfoldable pub examine_all : NodeId → List Edge → Search → Option Search
  examine_all n [] s = some s
  examine_all n (e ∷ es) s = elim (examine n e s) [ none ↦ none | some s' ↦ examine_all n es s' ]

  -- One round of the loop: none is also what `abort` leaves.
  unfoldable pub round : Search → Option Search
  round s = elim s.todo [
    | [] ↦ some s
    | n ∷ rest ↦ elim (s.store n).distance [
      | none ↦ none
      | some d ↦ examine_all n (net.edges n) (record { store = s.store; todo = rest })
    ]
  ]

  -- The search after some rounds.
  unfoldable pub rounds : ℕ → Search → Option Search
  rounds zero s = some s
  rounds (suc k) s = elim (round s) [ none ↦ none | some s' ↦ rounds k s' ]

  unfoldable pub reset_node : Vertex → Vertex
  reset_node v = record v { visited = false; indirect = true; distance = none }

  -- Begin with myself.
  unfoldable pub own : Vertex → Vertex
  own v = record v {
    visited = true;
    indirect = false;
    nexthop = some net.myself;
    prevedge = none;
    via = some net.myself;
    distance = some 0;
  }

  -- The state in which the loop starts.
  unfoldable pub begin : Store → Search
  begin store = record {
    store = write net.myself (own (reset_node (store net.myself))) (λ n. reset_node (store n));
    todo = net.myself ∷ [];
  }
