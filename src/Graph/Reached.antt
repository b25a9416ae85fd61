-- ===== src/Graph/Reached.antt =====
-- What holds after any number of rounds of `sssp_bfs` of src/graph.c.
use mathlib.Core.Path.{subst}
use tinc.Base.{ℕ, zero, suc, ◌≡◌, refl, ◌⊎◌, inl, inr, ◌↔◌, true, Option, none, some, [], ◌∷◌}
use tinc.Graph.{NodeId, Edge, Store, Search, Topology, round, rounds, reset_node, own, begin}
use tinc.Graph.Sound.{IsIn, Returns, self, write_intro, IsConnected, here, over, IsReachedWell}
use tinc.Graph.Explored.{IsExplored, IsRight, round-IsRight}

module _ (net : Topology) where
  rounds-IsRight : (k : ℕ) (s : Search) → IsRight net s → Returns (IsRight net) (rounds net k s)
  unfolding rounds
  rounds-IsRight zero s right = right
  rounds-IsRight (suc k) s right =
      go_on (λ t h. rounds-IsRight k t h) (round net s) (round-IsRight net s right)
    where
      go_on :
          ((t : Search) → IsRight net t → Returns (IsRight net) (rounds net k t))
          → (o : Option Search) → Returns (IsRight net) o
          → Returns (IsRight net) (elim o [ none ↦ none | some t ↦ rounds net k t ])
      go_on next none h = h
      go_on next (some t) h = next t h

  begin-IsRight : (store : Store) → IsRight net (begin net store)
  unfolding begin reset_node own
  begin-IsRight store = (
    (
      write_intro (IsReachedWell net) net.myself _ _ (λ v. (here, (0, refl), inl (refl, refl)))
          (λ m v. cc),
      λ m h. elim h [ inl same ↦ rw (same, self net.myself) refl | inr no_more ↦ absurd no_more ],
    ),
    (
      rw (self net.myself) refl,
      write_intro
          (λ m v.
            v.visited ≡ true
            → IsIn m (net.myself ∷ [])
              ⊎ ((e : Edge)
                  → IsIn e (net.edges m)
                  → e.reverse ≡ true
                  → ((begin net store).store e.to).visited ≡ true))
          net.myself _ _ (λ v. inl (inl refl)) (λ m v. cc),
    ),
  )

  -- After any number of rounds, from any state of the nodes, the search has not stopped at a
  -- negative distance and has read no null pointer. Each visited node is connected to this one and
  -- has a distance, this node is its own next hop, the others have an edge that led to them and
  -- one of our neighbours as next hop; each node on the list is visited. Each visited node is on
  -- the list or has no edge, with one in the opposite direction, that leads to a node not visited.
  pub rounds-begin :
      (k : ℕ) (store : Store) → Returns (IsRight net) (rounds net k (begin net store))
  rounds-begin k store = rounds-IsRight k (begin net store) (begin-IsRight store)

  connected_visited :
      (s : Search)
      → IsExplored net s
      → s.todo ≡ []
      → (m : NodeId) → IsConnected net m
      → (s.store m).visited ≡ true
  connected_visited s explored nil m here = explored.0
  connected_visited s explored nil m (over e c is rev) =
      let vis = connected_visited s explored nil _ c in
      elim (explored.1 _ vis) [ inl i ↦ absurd (rw nil at i) | inr leads ↦ leads e is rev ]

  -- When the list has run empty, the nodes that were visited are those connected to this one over
  -- edges that have one in the opposite direction.
  pub visited_iff_IsConnected :
      (k : ℕ) (store : Store) (s : Search)
      → rounds net k (begin net store) ≡ some s
      → s.todo ≡ []
      → (m : NodeId) → ((s.store m).visited ≡ true) ↔ IsConnected net m
  visited_iff_IsConnected k store s e nil m =
      let right : Returns (IsRight net) (some s) =
        subst (Returns (IsRight net)) e (rounds-begin k store) in
      (λ v. (right.0.0 m v).0, connected_visited s right.1 nil m)
