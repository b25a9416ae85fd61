-- ===== src/Graph/Mst/Spanning.antt =====
-- The edges that `mst_kruskal` of src/graph.c adds, and their connections.
use mathlib.Core.Path.{subst}
use tinc.Base.{
  ℕ, suc, ◌≡◌, refl, sym, ap, ◌∙◌, ◌⊎◌, inl, inr, Bool, true, false, ◌||◌, Option, none, some, List,
  [], ◌∷◌, ◌==◌, length, Bool-cases, ==_iff, arith,
}
use tinc.Graph.{NodeId}
use tinc.Graph.Sound.{IsIn}
use tinc.Graph.Mst.{ConnectionId, Link, MstState, also, mark_mst, mark_link, is_skipped, add_edge}

abbrev pub elem : ℕ → List ℕ → Bool
elem n [] = false
elem n (m ∷ ms) = (n == m) || elem n ms

abbrev pub AllDiffer : List ℕ → Type 0
AllDiffer [] = Unit
AllDiffer (n ∷ ns) = (elem n ns ≡ false) × AllDiffer ns

-- The edges lead from the root to the node, along them or against them.
pub data IsLinked (root : NodeId) (links : List Link) : NodeId → Type 0 where
  at_root : IsLinked root links root
  along : (e : Link) → IsIn e links → IsLinked root links e.from → IsLinked root links e.to
  against : (e : Link) → IsIn e links → IsLinked root links e.to → IsLinked root links e.from

-- The visited nodes are one more than the edges added, which link each of them to the root: they
-- are a tree.
abbrev pub IsTree : NodeId → MstState → Type 0
IsTree root t =
    (nodes : List NodeId) × (length nodes ≡ suc (length t.added))
    × AllDiffer nodes
    × ((n : NodeId) → t.visited n ≡ elem n nodes)
    × ((n : NodeId) → t.visited n ≡ true → IsLinked root t.added n)

IsLinked-more :
    (root : NodeId) (e : Link) (links : List Link) (n : NodeId)
    → IsLinked root links n
    → IsLinked root (e ∷ links) n
IsLinked-more root e links _ at_root = at_root
IsLinked-more root e links _ (along f i h) = along f (inr i) (IsLinked-more root e links _ h)
IsLinked-more root e links _ (against f i h) = against f (inr i) (IsLinked-more root e links _ h)

-- One end of an edge was visited, and the other is new.
also_new :
    (visited : NodeId → Bool) (old new : NodeId) (nodes : List NodeId)
    → visited old ≡ true
    → ((n : NodeId) → visited n ≡ elem n nodes)
    → (n : NodeId) → ((n == new) || ((n == old) || visited n)) ≡ elem n (new ∷ nodes)
also_new visited old new nodes v all n = elim (Bool-cases (n == old)) [
  | inl e ↦
      let seen : visited n ≡ true = ap visited ((==_iff n old).0 e) ∙ v in
      ground (arith, e, seen, sym (all n) ∙ seen)
  | inr e ↦ ground (arith, all n, e)
]

ends-IsLinked :
    (root : NodeId) (e : Link) (t : MstState)
    → IsLinked root (e ∷ t.added) e.to
    → IsLinked root (e ∷ t.added) e.from
    → ((n : NodeId) → t.visited n ≡ true → IsLinked root t.added n)
    → (n : NodeId) → also e.to (also e.from t.visited) n ≡ true
    → IsLinked root (e ∷ t.added) n
ends-IsLinked root e t to from linked n h = elim (Bool-cases (n == e.to)) [
  | inl is ↦ subst (IsLinked root (e ∷ t.added)) (sym ((==_iff n e.to).0 is)) to
  | inr ne ↦ elim (Bool-cases (n == e.from)) [
    | inl is ↦ subst (IsLinked root (e ∷ t.added)) (sym ((==_iff n e.from).0 is)) from
    | inr no_end ↦ IsLinked-more root e t.added n (linked n (ground (arith, h, ne, no_end)))
  ]
]

swap : (a b c : Bool) → (a || (b || c)) ≡ (b || (a || c))
swap true true c = refl
swap true false c = refl
swap false true c = refl
swap false false c = refl

add_edge-IsTree :
    (root : NodeId) (e : Link) (t : MstState)
    → is_skipped e t ≡ false
    → IsTree root t
    → IsTree root (add_edge e t)
unfolding add_edge is_skipped
add_edge-IsTree root e t h (nodes, count, differ, all, linked) =
    elim (Bool-cases (t.visited e.from)) [
      | inl v ↦ (
        e.to ∷ nodes,
        ground (arith, count),
        (sym (all e.to) ∙ ground (arith, h, v), differ),
        also_new t.visited e.from e.to nodes v all,
        ends-IsLinked root e t
            (along e (inl refl) (IsLinked-more root e t.added _ (linked e.from v)))
            (IsLinked-more root e t.added _ (linked e.from v)) linked,
      )
      | inr v ↦
          let w : t.visited e.to ≡ true = ground (arith, h, v) in
          (
            e.from ∷ nodes,
            ground (arith, count),
            (sym (all e.from) ∙ v, differ),
            λ n.
                swap (n == e.to) (n == e.from) (t.visited n)
                ∙ also_new t.visited e.to e.from nodes w all n,
            ends-IsLinked root e t (IsLinked-more root e t.added _ (linked e.to w))
                (against e (inl refl) (IsLinked-more root e t.added _ (linked e.to w))) linked,
          )
    ]

-- The connection of an edge, or that of the edge in the opposite direction.
abbrev pub Carries : Link → ConnectionId → Type 0
Carries e c = (e.connection ≡ some c) ⊎ (e.reverse ≡ some (some c))

-- A connection is marked exactly if an edge that was added has it.
abbrev pub IsMarked : MstState → Type 0
IsMarked t =
    ((c : ConnectionId) → t.mst c ≡ true → (e : Link) × IsIn e t.added × Carries e c)
    × ((c : ConnectionId) (e : Link) → IsIn e t.added → Carries e c → t.mst c ≡ true)

mark_cases :
    (o : Option ConnectionId) (mst : ConnectionId → Bool) (c : ConnectionId)
    → mark_mst o mst c ≡ true
    → (o ≡ some c) ⊎ (mst c ≡ true)
unfolding mark_mst
mark_cases none mst c h = inr h
mark_cases (some d) mst c h = elim (Bool-cases (c == d)) [
  | inl e ↦ inl (ap some (sym ((==_iff c d).0 e)))
  | inr e ↦ inr (ground (arith, h, e))
]

mark_self :
    (o : Option ConnectionId) (mst : ConnectionId → Bool) (c : ConnectionId)
    → o ≡ some c
    → mark_mst o mst c ≡ true
unfolding mark_mst
mark_self none mst c h = cc
mark_self (some d) mst c h = ground (arith, h)

mark_keeps :
    (o : Option ConnectionId) (mst : ConnectionId → Bool) (c : ConnectionId)
    → mst c ≡ true
    → mark_mst o mst c ≡ true
unfolding mark_mst
mark_keeps none mst c h = h
mark_keeps (some d) mst c h = ground (arith, h)

mark_link_cases :
    (o : Option ConnectionId) (r : Option (Option ConnectionId)) (mst : ConnectionId → Bool)
    (c : ConnectionId)
    → mark_link o r mst c ≡ true
    → ((o ≡ some c) ⊎ (r ≡ some (some c))) ⊎ (mst c ≡ true)
unfolding mark_link
mark_link_cases o none mst c h = elim (mark_cases o mst c h) [ inl e ↦ inl (inl e) | inr m ↦ inr m ]
mark_link_cases o (some r) mst c h = elim (mark_cases r (mark_mst o mst) c h) [
  | inl e ↦ inl (inr (ap some e))
  | inr m ↦ elim (mark_cases o mst c m) [ inl e ↦ inl (inl e) | inr k ↦ inr k ]
]

mark_link_self :
    (o : Option ConnectionId) (r : Option (Option ConnectionId)) (mst : ConnectionId → Bool)
    (c : ConnectionId)
    → ((o ≡ some c) ⊎ (r ≡ some (some c))) ⊎ (mst c ≡ true)
    → mark_link o r mst c ≡ true
unfolding mark_link
mark_link_self o none mst c (inl (inl e)) = mark_self o mst c e
mark_link_self o none mst c (inl (inr e)) = cc
mark_link_self o none mst c (inr m) = mark_keeps o mst c m
mark_link_self o (some r) mst c (inl (inl e)) =
    mark_keeps r (mark_mst o mst) c (mark_self o mst c e)
mark_link_self o (some r) mst c (inl (inr e)) = mark_self r (mark_mst o mst) c (ground (arith, e))
mark_link_self o (some r) mst c (inr m) = mark_keeps r (mark_mst o mst) c (mark_keeps o mst c m)

add_edge-IsMarked : (e : Link) (t : MstState) → IsMarked t → IsMarked (add_edge e t)
unfolding add_edge
add_edge-IsMarked e t marked = (
  λ c h. elim (mark_link_cases e.connection e.reverse t.mst c h) [
    | inl carries ↦ (e, inl refl, carries)
    | inr old ↦ let (f, is, carries) = marked.0 c old in (f, inr is, carries)
  ],
  λ c f is carries. elim is [
    | inl same ↦
        mark_link_self e.connection e.reverse t.mst c (inl (subst (λ g. Carries g c) same carries))
    | inr i ↦ mark_link_self e.connection e.reverse t.mst c (inr (marked.1 c f i carries))
  ],
)

-- Nothing is visited, since no edge starts at a reachable node, or the visited nodes are a tree
-- that hangs from a reachable node.
abbrev pub IsGrown : (NodeId → Bool) → List Link → MstState → Type 0
IsGrown reachable all t =
    IsMarked t
    × ((((n : NodeId) → t.visited n ≡ false) × ((f : Link) → IsIn f all → reachable f.from ≡ false))
        ⊎ ((root : NodeId) × (reachable root ≡ true) × IsTree root t))

unvisited :
    (e : Link) (t : MstState) → is_skipped e t ≡ false → ((n : NodeId) → t.visited n ≡ false) → ⊥
unfolding is_skipped
unvisited e t h nothing = ground (arith, h, nothing e.from, nothing e.to)

pub add_edge-IsGrown :
    (reachable : NodeId → Bool) (all : List Link) (e : Link) (t : MstState)
    → is_skipped e t ≡ false
    → IsGrown reachable all t
    → IsGrown reachable all (add_edge e t)
add_edge-IsGrown reachable all e t h (marked, inl (nothing, nil)) = absurd (unvisited e t h nothing)
add_edge-IsGrown reachable all e t h (marked, inr (root, up, tree)) =
    (add_edge-IsMarked e t marked, inr (root, up, add_edge-IsTree root e t h tree))
