-- ===== src/Graph/Sound.antt =====
-- What `sssp_bfs` of src/graph.c keeps true of the nodes at each moment.
use mathlib.Core.Path.{subst}
use tinc.Base.{
  ℕ, ◌≡◌, refl, sym, ◌⊎◌, inl, inr, Bool, true, false, not, ◌||◌, Option, none, some, List, [], ◌∷◌,
  ◌++◌, ◌==◌, if◌then◌else◌, Bool-cases, if_intro, ==_iff, arith,
}
use tinc.Graph.{
  NodeId, Edge, Vertex, Store, write, Search, Topology, next_distance, is_distance, is_closer,
  update_node_udp, hop_over, updated, reach, examine_visited, examine,
}

abbrev pub IsIn : {A : Type 0} → A → List A → Type 0
IsIn x [] = ⊥
IsIn x (y ∷ ys) = (x ≡ y) ⊎ IsIn x ys

-- There is a result, and it satisfies the predicate.
abbrev pub Returns {ℓ} : {B : Type ℓ} → (B → Type 0) → Option B → Type 0
Returns P none = ⊥
Returns P (some b) = P b

pub IsIn-append : {A : Type 0} (x : A) (xs ys : List A) → IsIn x (xs ++ ys) → IsIn x xs ⊎ IsIn x ys
IsIn-append x [] ys h = inr h
IsIn-append x (y ∷ xs) ys (inl e) = inl (inl e)
IsIn-append x (y ∷ xs) ys (inr h) = elim (IsIn-append x xs ys h) [
  | inl a ↦ inl (inr a)
  | inr b ↦ inr b
]

pub self : (n : ℕ) → (n == n) ≡ true
self n = ground arith

-- What holds of a new vertex and of each old one holds after a write.
pub write_intro :
    (P : NodeId → Vertex → Type 0) (n : NodeId) (v : Vertex) (s : Store)
    → P n v
    → ((m : NodeId) → P m (s m))
    → (m : NodeId) → P m (write n v s m)
write_intro P n v s p q m = elim (Bool-cases (m == n)) [
  | inl e ↦ rw (e, (==_iff m n).0 e) p
  | inr e ↦ rw e (q m)
]

module _ (net : Topology) where
  -- This node leads to the node over edges that have one in the opposite direction.
  pub data IsConnected : NodeId → Type 0 where
    here : IsConnected net.myself
    over :
        {n : NodeId} (e : Edge)
        → IsConnected n
        → IsIn e (net.edges n)
        → e.reverse ≡ true
        → IsConnected e.to

  -- Another node, at the end of such an edge of this one.
  abbrev pub IsNeighbour : NodeId → Type 0
  IsNeighbour h =
      (e : Edge) × IsIn e (net.edges net.myself)
      × (e.reverse ≡ true)
      × (e.to ≡ h)
      × ((h == net.myself) ≡ false)

  -- A visited node is connected and has a distance; this node is its own next hop, and another one
  -- has an edge that led to it, and a neighbour as its next hop.
  abbrev pub IsReachedWell : NodeId → Vertex → Type 0
  IsReachedWell n v =
      v.visited ≡ true
      → IsConnected n
        × ((d : ℕ) × (v.distance ≡ some d))
        × (((n ≡ net.myself) × (v.nexthop ≡ some net.myself))
            ⊎ (((e : Edge) × (v.prevedge ≡ some e))
                × ((h : NodeId) × (v.nexthop ≡ some h) × IsNeighbour h)))

  abbrev HasHop : Option NodeId → Type 0
  HasHop o = (h : NodeId) × (o ≡ some h) × IsNeighbour h

  abbrev pub IsSound : Search → Type 0
  IsSound s =
      ((n : NodeId) → IsReachedWell n (s.store n))
      × ((n : NodeId) → IsIn n s.todo → (s.store n).visited ≡ true)

  -- The fields of a node that an edge has led to.
  pub updated_fields :
      (from : Vertex) (e : Edge) (closer : Bool) (to : Vertex)
      → let v = updated net from e closer to in
        (v.visited ≡ true)
        × (v.distance ≡ some (next_distance from.distance))
        × (v.prevedge ≡ some e)
        × (v.nexthop ≡ (if closer then hop_over net from.nexthop e.to else to.nexthop))
  unfolding updated update_node_udp
  updated_fields from e closer to = ground arith

  hop_over-IsNeighbour :
      (n : NodeId) (e : Edge) (from : Vertex)
      → from.visited ≡ true
      → IsReachedWell n from
      → IsIn e (net.edges n)
      → e.reverse ≡ true
      → (e.to == net.myself) ≡ false
      → (h : NodeId) × (hop_over net from.nexthop e.to ≡ some h) × IsNeighbour h
  unfolding hop_over
  hop_over-IsNeighbour n e from vis well is rev other = elim ((well vis).2) [
    | inl (me, hop) ↦ (
      e.to,
      rw (hop, self net.myself) refl,
      (e, subst (λ m. IsIn e (net.edges m)) me is, rev, refl, other),
    )
    | inr (prev, (h, hop, neighbour)) ↦ (h, rw (hop, neighbour.4) refl, neighbour)
  ]

  next_hop :
      (n : NodeId) (e : Edge) (closer : Bool) (from to : Vertex)
      → from.visited ≡ true
      → IsReachedWell n from
      → IsReachedWell e.to to
      → IsIn e (net.edges n)
      → e.reverse ≡ true
      → (e.to == net.myself) ≡ false
      → ((closer ≡ true) ⊎ (to.visited ≡ true))
      → HasHop (if closer then hop_over net from.nexthop e.to else to.nexthop)
  next_hop n e true from to vis wn wt is rev other c =
      hop_over-IsNeighbour n e from vis wn is rev other
  next_hop n e false from to vis wn wt is rev other (inl c) = cc
  next_hop n e false from to vis wn wt is rev other (inr c) = elim ((wt c).2) [
    | inl (me, hop) ↦ absurd (ground (arith, me, other))
    | inr (prev, hop) ↦ hop
  ]

  reach-IsSound :
      (n : NodeId) (e : Edge) (closer : Bool) (s : Search)
      → IsSound s
      → (s.store n).visited ≡ true
      → IsIn e (net.edges n)
      → e.reverse ≡ true
      → (e.to == net.myself) ≡ false
      → ((closer ≡ true) ⊎ ((s.store e.to).visited ≡ true))
      → IsSound (reach net n e closer s)
  unfolding reach
  reach-IsSound n e closer s sound vis is rev other c =
      let to = updated net (s.store n) e closer (s.store e.to) in
      let (vis', dist', prev', hop') = updated_fields (s.store n) e closer (s.store e.to) in
      (
        write_intro IsReachedWell e.to to s.store
            (λ v. (
              over e (sound.0 n vis).0 is rev,
              (_, dist'),
              inr (
                (e, prev'),
                subst HasHop (sym hop') (
                    next_hop n e closer (s.store n) (s.store e.to) vis (sound.0 n) (sound.0 e.to) is
                      rev other c),
              ),
            ))
            sound.0,
        λ m h. elim (IsIn-append m s.todo (e.to ∷ []) h) [
          | inl there ↦
              write_intro (λ m v. (s.store m).visited ≡ true → v.visited ≡ true) e.to to s.store
                (λ w. vis') (λ m w. w) m (sound.1 m there)
          | inr (inl same) ↦ rw (same, self e.to) vis'
          | inr (inr no_more) ↦ absurd no_more
        ],
      )

  is_closer-some :
      (b : Bool) (prev : Option Edge) (e f : Edge)
      → prev ≡ some f
      → (c : Bool) × (is_closer b prev e ≡ some c)
  unfolding is_closer
  is_closer-some false prev e f h = (false, refl)
  is_closer-some true none e f h = cc
  is_closer-some true (some p) e f h = (_, refl)

  -- What examining an edge does: nothing, where the edge may lead to no new node, or it leads to
  -- its end.
  abbrev pub IsExamined : NodeId → Edge → Search → Search → Type 0
  IsExamined n e s s' =
      ((s' ≡ s) × (e.reverse ≡ true → (e.to == net.myself) ≡ false → (s.store e.to).visited ≡ true))
      ⊎ ((closer : Bool) × (s' ≡ reach net n e closer s)
          × (e.reverse ≡ true)
          × ((e.to == net.myself) ≡ false)
          × ((closer ≡ true) ⊎ ((s.store e.to).visited ≡ true)))

  visited-IsExamined :
      (n : NodeId) (e p : Edge) (s : Search)
      → (s.store e.to).visited ≡ true
      → (s.store e.to).prevedge ≡ some p
      → e.reverse ≡ true
      → (e.to == net.myself) ≡ false
      → Returns (IsExamined n e s) (examine_visited net n e s)
  unfolding examine_visited
  visited-IsExamined n e p s w prev rev other =
      let from = s.store n in
      let to = s.store e.to in
      let (c, is) =
        is_closer-some (is_distance to.distance (next_distance from.distance)) to.prevedge e p
          prev in
      rw (is, Returns, examine_visited)
        (if_intro (Returns (IsExamined n e s)) _ {x = some s} {y = some (reach net n e c s)}
          (inl (refl, λ r o. w)) (inr (c, refl, rev, other, inr w)))

  -- An edge of a visited node is examined without reading a null pointer.
  pub examine-IsExamined :
      (n : NodeId) (e : Edge) (s : Search)
      → IsSound s
      → Returns (IsExamined n e s) (examine net n e s)
  unfolding examine
  examine-IsExamined n e s sound = elim (Bool-cases (not e.reverse || (e.to == net.myself))) [
    | inl q ↦ rw (q, Returns, examine) (inl (refl, λ r o. absurd (ground (arith, q, r, o))))
    | inr q ↦
        rw (q, Returns, examine)
          (elim (Bool-cases (s.store e.to).visited) [
            | inr w ↦
                rw (w, Returns) (inr (true, refl, ground (arith, q), ground (arith, q), inl refl))
            | inl w ↦
                rw (w, Returns)
                  (elim ((sound.0 e.to w).2) [
                    | inl (me, hop) ↦ absurd (ground (arith, q, me))
                    | inr ((p, prev), hop) ↦
                        visited-IsExamined n e p s w prev (ground (arith, q)) (ground (arith, q))
                  ])
          ])
  ]

  pub examine-IsSound :
      (n : NodeId) (e : Edge) (s s' : Search)
      → IsSound s
      → (s.store n).visited ≡ true
      → IsIn e (net.edges n)
      → IsExamined n e s s'
      → IsSound s'
  examine-IsSound n e s s' sound vis is (inl (same, h)) = rw same sound
  examine-IsSound n e s s' sound vis is (inr (closer, same, rev, other, c)) =
      rw same (reach-IsSound n e closer s sound vis is rev other c)
