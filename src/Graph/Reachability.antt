-- ===== src/Graph/Reachability.antt =====
-- `check_reachability` of src/graph.c: what follows from the nodes that the search has visited.
pub mod Laws
use tinc.Base.{
  ℕ, suc, ◌+◌, ◌/◌, ◌^◌, Bool, true, false, not, ◌&&◌, ◌||◌, Option, none, some, List, [], ◌∷◌,
  ◌++◌, ◌==◌, ltb, leb, if◌then◌else◌,
}
use tinc.Graph.{NodeId}

-- The fields of `node_t` that are read or written; of its connection whether it is there and
-- outgoing. The flags of `status` that are only reset_node are one.
pub record NodeState : Type 0 where
  pub id : NodeId
  pub visited : Bool
  pub reachable : Bool
  pub sptps : Bool
  pub validkey : Bool
  pub waitingforkey : Bool
  pub udp_confirmed : Bool
  pub other_status : Bool
  pub options : ℕ
  pub connection : Option Bool
  pub in_udp_tree : Bool
  pub last_state_change : ℕ
  pub last_req_key : ℕ
  pub maxmtu : ℕ
  pub maxrecentlen : ℕ
  pub minmtu : ℕ
  pub mtuprobes : ℕ

-- The calls that leave a mark elsewhere: of `add_recent_address`, `sptps_stop`, `timeout_del`, the
-- two scripts, `subnet_update`, `send_ans_key`, `device_enable` and `device_disable`.
pub data Call : Type 0 where
  recent_address : NodeId → Call
  sptps_stopped : NodeId → Call
  timeout_deleted : NodeId → Call
  host_script : Bool → NodeId → Call
  subnets_updated : Bool → NodeId → Call
  ans_key : NodeId → Call
  enabled : Call
  disabled : Call

-- What the daemon is set to: this node, the time, `experimental`, `device_standby`, `MTU`.
pub record Daemon : Type 0 where
  pub myself : NodeId
  pub now : ℕ
  pub experimental : Bool
  pub device_standby : Bool
  pub mtu : ℕ

-- `OPTION_VERSION`
abbrev pub option_version : ℕ → ℕ
option_version options = options / 2 ^ 24

abbrev pub differ : Bool → Bool → Bool
differ true b = not b
differ false b = b

abbrev pub is_outgoing : Option Bool → Bool
is_outgoing none = false
is_outgoing (some outgoing) = outgoing

abbrev pub has_connection : Option Bool → Bool
has_connection none = false
has_connection (some outgoing) = true

abbrev pub only_if : Bool → Call → List Call
only_if b e = if b then e ∷ [] else []

-- The three counters.
pub record Counts : Type 0 where
  pub reachable_count : ℕ
  pub became_reachable_count : ℕ
  pub became_unreachable_count : ℕ

abbrev pub bump : Bool → ℕ → ℕ
bump b k = if b then suc k else k

module _ (d : Daemon) where
  -- `update_node_udp` without an address.
  unfoldable pub forget_udp : NodeState → NodeState
  forget_udp n = if n.id == d.myself then n else record n {
    in_udp_tree = false;
    udp_confirmed = false;
    maxrecentlen = 0;
    mtuprobes = 0;
    minmtu = 0;
    maxmtu = d.mtu;
  }

  -- The status of a node that changes, up to its subnets.
  unfoldable pub switched : NodeState → NodeState
  switched n =
      let sptps = n.sptps || (d.experimental && leb 2 (option_version n.options)) in
      record n {
        reachable = not n.reachable;
        last_state_change = d.now;
        sptps = sptps;
        validkey = false;
        waitingforkey = if sptps then false else n.waitingforkey;
        last_req_key = 0;
        udp_confirmed = false;
        maxmtu = d.mtu;
        maxrecentlen = 0;
        minmtu = 0;
        mtuprobes = 0;
      }

  unfoldable pub wiped : NodeState → NodeState
  wiped n = record n {
    visited = false;
    reachable = false;
    sptps = false;
    validkey = false;
    waitingforkey = false;
    udp_confirmed = false;
    other_status = false;
    options = 0;
  }

  unfoldable pub check_node : NodeState → NodeState
  check_node n =
      let n' = switched n in
      if not (differ n.visited n.reachable)
      then n
      else (if n'.reachable then n' else wiped (forget_udp n'))

  unfoldable pub node_events : NodeState → List Call
  node_events n =
      let n' = switched n in
      if not (differ n.visited n.reachable)
      then []
      else (only_if (n'.reachable && (not (n.id == d.myself) && is_outgoing n.connection))
            (recent_address n.id)
          ++ (only_if n'.sptps (sptps_stopped n.id)
              ++ (timeout_deleted n.id
                  ∷ (host_script n'.reachable n.id
                      ∷ (subnets_updated n'.reachable n.id
                          ∷ only_if (n'.reachable && (has_connection n.connection && not n'.sptps))
                              (ans_key n.id))))))

  unfoldable pub count_node : NodeState → Counts → Counts
  count_node n c =
      let other = not (n.id == d.myself) in
      record {
        reachable_count = bump ((check_node n).reachable && other) c.reachable_count;
        became_reachable_count =
            bump (n.visited && (not n.reachable && other)) c.became_reachable_count;
        became_unreachable_count =
            bump (not n.visited && (n.reachable && other)) c.became_unreachable_count;
      }

  -- The loop over `node_tree`: the nodes afterwards, the calls, and the counters.
  unfoldable pub check_nodes : List NodeState → Counts → List NodeState × List Call × Counts
  check_nodes [] c = ([], [], c)
  check_nodes (n ∷ ns) c =
      let (nodes, events, c') = check_nodes ns (count_node n c) in
      (check_node n ∷ nodes, node_events n ++ events, c')

  -- The end, for `device_standby`.
  unfoldable pub switch_device : Counts → List Call
  switch_device c =
      if not d.device_standby
      then []
      else (if (c.reachable_count == 0) && ltb 0 c.became_unreachable_count
          then disabled ∷ []
          else only_if (ltb 0 c.reachable_count && (c.reachable_count == c.became_reachable_count))
              enabled)

  unfoldable pub check_reachability : List NodeState → List NodeState × List Call
  check_reachability ns =
      let (nodes, events, c) = check_nodes ns (record {
        reachable_count = 0;
        became_reachable_count = 0;
        became_unreachable_count = 0;
      }) in
      (nodes, events ++ switch_device c)
