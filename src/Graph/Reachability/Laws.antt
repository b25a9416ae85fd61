-- ===== src/Graph/Reachability/Laws.antt =====
-- What `check_reachability` of src/graph.c makes of the nodes and of the device.
use tinc.Base.{
  ℕ, ◌+◌, ◌≡◌, refl, ap, Bool, true, false, not, ◌&&◌, ◌||◌, List, [], ◌∷◌, ◌++◌, ◌==◌, ltb,
  if◌then◌else◌, map, arith,
}
use tinc.Graph.Reachability.{
  NodeState, Call, enabled, disabled, Daemon, Counts, differ, bump, only_if, forget_udp, switched,
  wiped, check_node, node_events, count_node, check_nodes, switch_device, check_reachability,
}

module _ (d : Daemon) where
  -- A node is reachable afterwards if the search has visited it, and only then.
  pub check_node-reachable : (n : NodeState) → (check_node d n).reachable ≡ n.visited
  unfolding check_node switched wiped forget_udp
  check_node-reachable n = ground arith

  -- A node, not this one, whose reachability changes, has afterwards no valid key, no confirmed
  -- address, no MTU but the default, no probes, and no request for a key on record. If it became
  -- unreachable, it is out of the tree of addresses, and its status and options are cleared.
  pub check_node-forgets :
      (n : NodeState)
      → differ n.visited n.reachable ≡ true
      → (n.id == d.myself) ≡ false
      → let n' = check_node d n in
        (n'.reachable ≡ n.visited)
        × (n'.validkey ≡ false)
        × (n'.udp_confirmed ≡ false)
        × (n'.minmtu ≡ 0)
        × (n'.maxmtu ≡ d.mtu)
        × (n'.mtuprobes ≡ 0)
        × (n'.last_req_key ≡ 0)
        × (n'.in_udp_tree ≡ (n.visited && n.in_udp_tree))
        × (n'.other_status ≡ (n.visited && n.other_status))
        × (n'.options ≡ (if n.visited then n.options else 0))
  unfolding check_node switched wiped forget_udp
  check_node-forgets n h o = ground arith

  -- A node other than this one.
  abbrev is_other : NodeState → Bool
  is_other n = not (n.id == d.myself)

  abbrev pub any : (NodeState → Bool) → List NodeState → Bool
  any test [] = false
  any test (n ∷ ns) = test n || any test ns

  count : (NodeState → Bool) → List NodeState → ℕ
  count test [] = 0
  count test (n ∷ ns) = bump (test n) (count test ns)

  any-count : (test : NodeState → Bool) (ns : List NodeState) → any test ns ≡ ltb 0 (count test ns)
  unfolding count
  any-count test [] = refl
  any-count test (n ∷ ns) = ground (arith, any-count test ns)

  -- The others that are reachable afterwards, were before, or both; and those that changed.
  abbrev pub after : NodeState → Bool
  after n = n.visited && is_other n

  abbrev pub ahead : NodeState → Bool
  ahead n = n.reachable && is_other n

  abbrev pub kept : NodeState → Bool
  kept n = n.visited && (n.reachable && is_other n)

  abbrev became : NodeState → Bool
  became n = n.visited && (not n.reachable && is_other n)

  abbrev lost : NodeState → Bool
  lost n = not n.visited && (n.reachable && is_other n)

  counted_one :
      (n : NodeState) (c : Counts)
      → ((count_node d n c).reachable_count ≡ bump (after n) c.reachable_count)
        × ((count_node d n c).became_reachable_count ≡ bump (became n) c.became_reachable_count)
        × ((count_node d n c).became_unreachable_count ≡ bump (lost n) c.became_unreachable_count)
  unfolding count_node
  counted_one n c =
      (ap (λ b. bump (b && is_other n) c.reachable_count) (check_node-reachable n), refl, refl)

  counted :
      (ns : List NodeState) (c : Counts)
      → let c' = (check_nodes d ns c).2 in
        (c'.reachable_count ≡ c.reachable_count + count after ns)
        × (c'.became_reachable_count ≡ c.became_reachable_count + count became ns)
        × (c'.became_unreachable_count ≡ c.became_unreachable_count + count lost ns)
  unfolding check_nodes count
  counted [] c = (omega arith, omega arith, omega arith)
  counted (n ∷ ns) c =
      let (a, b, l) = counted ns (count_node d n c) in
      let (a', b', l') = counted_one n c in
      (ground (arith, a, a'), ground (arith, b, b'), ground (arith, l, l'))

  count_parts :
      (ns : List NodeState)
      → (count after ns ≡ count became ns + count kept ns)
        × (count ahead ns ≡ count lost ns + count kept ns)
  unfolding count
  count_parts [] = (omega arith, omega arith)
  count_parts (n ∷ ns) = let (a, b) = count_parts ns in (ground (arith, a), ground (arith, b))

  -- The calls for the nodes, one after the other.
  abbrev pub concat_events : List NodeState → List Call
  concat_events [] = []
  concat_events (n ∷ ns) = node_events d n ++ concat_events ns

  checked :
      (ns : List NodeState) (c : Counts)
      → ((check_nodes d ns c).0 ≡ map (check_node d) ns)
        × ((check_nodes d ns c).1 ≡ concat_events ns)
  unfolding check_nodes
  checked [] c = (refl, refl)
  checked (n ∷ ns) c =
      let (a, b) = checked ns (count_node d n c) in
      (ap (λ l. check_node d n ∷ l) a, ap (λ l. node_events d n ++ l) b)

  -- What is due for the device: it is disabled if another node was reachable and now none is, and
  -- enabled if another one is and none of those was before.
  unfoldable pub device_events : List NodeState → List Call
  device_events ns =
      if not d.device_standby
      then []
      else (if any ahead ns && not (any after ns)
          then disabled ∷ []
          else only_if (any after ns && not (any kept ns)) enabled)

  switched_by :
      (r b u k : ℕ)
      → r ≡ b + k
      → (if (r == 0) && ltb 0 u then disabled ∷ [] else only_if (ltb 0 r && (r == b)) enabled) ≡ (
          if ltb 0 (u + k) && not (ltb 0 r)
          then disabled ∷ []
          else only_if (ltb 0 r && not (ltb 0 k)) enabled)
  switched_by r b u k h = ground (arith, h)

  switch_device-device_events :
      (ns : List NodeState) (c : Counts)
      → c.reachable_count ≡ count after ns
      → c.became_reachable_count ≡ count became ns
      → c.became_unreachable_count ≡ count lost ns
      → switch_device d c ≡ device_events ns
  unfolding switch_device device_events
  switch_device-device_events ns c r b u =
      let (p, q) = count_parts ns in
      rw (r, b, u, any-count ahead ns, any-count after ns, any-count kept ns, q)
        (ap (λ l. if not d.device_standby then [] else l)
          (switched_by (count after ns) (count became ns) (count lost ns) (count kept ns) p))

  -- The nodes are checked one by one. With `device_standby`, the device is then disabled if
  -- another node was reachable before and now none is, and enabled if another one is and none of
  -- those was before; otherwise neither.
  pub check_reachability-device_events :
      (ns : List NodeState)
      → check_reachability d ns ≡ (map (check_node d) ns, concat_events ns ++ device_events ns)
  unfolding check_reachability
  check_reachability-device_events ns =
      let c : Counts = record {
        reachable_count = 0;
        became_reachable_count = 0;
        became_unreachable_count = 0;
      } in
      let (nodes, events) = checked ns c in
      let (r, b, u) = counted ns c in
      rw
        (
          nodes,
          events,
          switch_device-device_events ns (check_nodes d ns c).2 (omega (arith, r))
              (omega (arith, b)) (omega (arith, u)),
        )
        refl
