-- ===== src/Graph/Tests.antt =====
-- Runs of the model of src/graph.c on small networks.
use tinc.Base.{
  ℕ, ◌≡◌, refl, ◌↔◌, Bool, true, false, Option, none, some, List, [], ◌∷◌, ◌++◌, ◌==◌, map,
  if◌then◌else◌,
}
use tinc.Subnet.{pos}
use tinc.Graph.{
  NodeId, Sockaddr, Edge, Vertex, Store, Search, Topology, less, next_distance, is_distance,
  is_closer, socket_for, update_node_udp, hop_over, updated, reach, examine_visited, examine,
  examine_all, round, rounds, reset_node, own, begin,
}
use tinc.Graph.Sound.{Returns, IsIn, IsConnected}
use tinc.Graph.Explored.{IsRight}
use tinc.Graph.Reached.{rounds-begin, visited_iff_IsConnected}
use tinc.Graph.Mst.{Link, mst_kruskal}
use tinc.Graph.Mst.Closed.{IsClosed}
use tinc.Graph.Mst.Spanning.{IsGrown}
use tinc.Graph.Mst.Result.{mst_kruskal-IsGrown}
use tinc.Graph.Reachability.{NodeState, Daemon, enabled, check_node, check_reachability}
use tinc.Graph.Reachability.Laws.{concat_events, device_events, check_reachability-device_events}

abbrev nowhere : Sockaddr
nowhere = record { family = 0; rest = [] }

abbrev blank : Vertex
blank = record {
  visited = false;
  reachable = false;
  indirect = false;
  distance = none;
  nexthop = none;
  prevedge = none;
  via = none;
  options = 0;
  address = nowhere;
  sock = 0;
  in_udp_tree = false;
  udp_confirmed = false;
  maxrecentlen = 0;
  mtuprobes = 0;
  minmtu = 0;
  maxmtu = 1518;
}

-- An edge to a node, direct or not, of a weight.
abbrev leading : NodeId → ℕ → ℕ → Edge
leading to options weight = record {
  to = to;
  reverse = true;
  options = options;
  weight = pos weight;
  address = nowhere;
}

-- This node is 0; node 3 has a direct edge from node 1 and a lighter, indirect one from node 2.
abbrev diamond_edges : NodeId → List Edge
diamond_edges n =
    if n == 0
    then leading 1 0 10 ∷ (leading 2 0 10 ∷ [])
    else (if n == 1 then leading 3 0 10 ∷ [] else (if n == 2 then leading 3 1 5 ∷ [] else []))

abbrev diamond : Topology
diamond = record { myself = 0; edges = diamond_edges; families = []; mtu = 1518 }

abbrev blanks : Store
blanks n = blank

rounds-begin_example : Returns (IsRight diamond) (rounds diamond 5 (begin diamond blanks))
rounds-begin_example = rounds-begin diamond 5 blanks

abbrev end_of : Option Search → Search
end_of none = begin diamond blanks
end_of (some s) = s

abbrev diamond_end : Search
diamond_end = end_of (rounds diamond 6 (begin diamond blanks))

diamond_run : rounds diamond 6 (begin diamond blanks) ≡ some diamond_end
unfolding rounds round begin own reset_node examine_all examine examine_visited reach updated
    update_node_udp hop_over is_closer is_distance next_distance less socket_for
diamond_run = refl

diamond_done : diamond_end.todo ≡ []
unfolding rounds round begin own reset_node examine_all examine examine_visited reach updated
    update_node_udp hop_over is_closer is_distance next_distance less socket_for
diamond_done = refl

visited_iff_IsConnected_example : ((diamond_end.store 3).visited ≡ true) ↔ IsConnected diamond 3
visited_iff_IsConnected_example =
    visited_iff_IsConnected diamond 6 blanks diamond_end diamond_run diamond_done 3

-- Node 3 was reached directly over node 1; the lighter edge makes it indirect.
indirect_after : Option Search → Option Bool
indirect_after none = none
indirect_after (some s) = some (s.store 3).indirect

first_direct : indirect_after (rounds diamond 2 (begin diamond blanks)) ≡ some false
unfolding indirect_after rounds round begin own reset_node examine_all examine examine_visited reach
    updated update_node_udp hop_over is_closer is_distance next_distance less socket_for
first_direct = refl

at_last_indirect : indirect_after (rounds diamond 6 (begin diamond blanks)) ≡ some true
unfolding indirect_after rounds round begin own reset_node examine_all examine examine_visited reach
    updated update_node_udp hop_over is_closer is_distance next_distance less socket_for
at_last_indirect = refl

abbrev link : NodeId → NodeId → Link
link from to = record { from = from; to = to; connection = some to; reverse = some none }

abbrev links : List Link
links = link 2 3 ∷ (link 0 1 ∷ (link 1 2 ∷ []))

mst_kruskal-IsGrown_example :
    Returns
      (λ t. IsGrown (λ n. n == 0) links t × ((f : Link) → IsIn f links → IsClosed t f))
      (mst_kruskal (λ n. n == 0) links)
mst_kruskal-IsGrown_example = mst_kruskal-IsGrown (λ n. n == 0) links

abbrev peer : NodeId → Bool → Bool → NodeState
peer n visited reachable = record {
  id = n;
  visited = visited;
  reachable = reachable;
  sptps = false;
  validkey = true;
  waitingforkey = false;
  udp_confirmed = true;
  other_status = true;
  options = 5;
  connection = none;
  in_udp_tree = true;
  last_state_change = 0;
  last_req_key = 3;
  maxmtu = 1400;
  maxrecentlen = 1300;
  minmtu = 1200;
  mtuprobes = 4;
}

abbrev standby : Daemon
standby = record { myself = 0; now = 100; experimental = true; device_standby = true; mtu = 1518 }

-- One node takes the place of another: the device, which is enabled, is enabled again.
abbrev relieved : List NodeState
relieved = peer 4 false true ∷ (peer 5 true false ∷ [])

check_reachability-device_events_example : check_reachability standby relieved ≡ (
  map (check_node standby) relieved,
  concat_events standby relieved ++ device_events standby relieved,
)
check_reachability-device_events_example = check_reachability-device_events standby relieved

enabled_again : device_events standby relieved ≡ enabled ∷ []
unfolding device_events
enabled_again = refl
