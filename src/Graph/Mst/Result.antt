-- ===== src/Graph/Mst/Result.antt =====
-- The result of `mst_kruskal` of src/graph.c.
use mathlib.Core.Path.{subst}
use tinc.Base.{
  sym, ap, ◌∙◌, ℕ, zero, suc, ◌≡◌, refl, inl, inr, Bool, true, false, Option, none, some, List, [],
  ◌∷◌, Bool-cases, arith,
}
use tinc.Graph.{NodeId}
use tinc.Graph.Sound.{IsIn, Returns}
use tinc.Graph.Mst.{Link, MstState, also, is_skipped, add_edge, walk, starting_point, mst_kruskal}
use tinc.Graph.Mst.Closed.{IsClosed, mst_kruskal-IsClosed}
use tinc.Graph.Mst.Spanning.{IsGrown, IsLinked, add_edge-IsGrown, at_root}

-- The result, if there is one, satisfies the predicate.
abbrev IfAny : (MstState → Type 0) → Option MstState → Type 0
IfAny P none = Unit
IfAny P (some t) = P t

module _ (P : MstState → Type 0)
    (keep : (e : Link) (t : MstState) → is_skipped e t ≡ false → P t → P (add_edge e t))
    (all : List Link) where
  walk_keeps :
      (fuel : ℕ) (skipped : Bool) (es : List Link) (t : MstState)
      → P t
      → IfAny P (walk fuel all skipped es t)
  unfolding walk
  walk_keeps fuel skipped [] t p = p
  walk_keeps zero true (e ∷ es) t p = elim (Bool-cases (is_skipped e t)) [
    | inl h ↦ rw (h, IfAny, walk) (walk_keeps zero true es t p)
    | inr h ↦ rw (h, IfAny, walk) tt
  ]
  walk_keeps zero false (e ∷ es) t p = elim (Bool-cases (is_skipped e t)) [
    | inl h ↦ rw (h, IfAny, walk) (walk_keeps zero true es t p)
    | inr h ↦ rw (h, IfAny, walk) (walk_keeps zero false es (add_edge e t) (keep e t h p))
  ]
  walk_keeps (suc fuel) true (e ∷ es) t p = elim (Bool-cases (is_skipped e t)) [
    | inl h ↦ rw (h, IfAny, walk) (walk_keeps (suc fuel) true es t p)
    | inr h ↦ rw (h, IfAny, walk) (walk_keeps fuel false all (add_edge e t) (keep e t h p))
  ]
  walk_keeps (suc fuel) false (e ∷ es) t p = elim (Bool-cases (is_skipped e t)) [
    | inl h ↦ rw (h, IfAny, walk) (walk_keeps (suc fuel) true es t p)
    | inr h ↦ rw (h, IfAny, walk) (walk_keeps (suc fuel) false es (add_edge e t) (keep e t h p))
  ]

also_one : (root n : NodeId) → also root (λ m. false) n ≡ true → n ≡ root
also_one root n h = ground (arith, h)

later :
    (reachable : NodeId → Bool) (e : Link) (es : List Link) (t : MstState)
    → reachable e.from ≡ false
    → IsGrown reachable es t
    → IsGrown reachable (e ∷ es) t
later reachable e es t h (marked, inr tree) = (marked, inr tree)
later reachable e es t h (marked, inl (nothing, down)) = (
  marked,
  inl (
    nothing,
    λ f i. elim i [ inl is ↦ ap (λ g. reachable g.from) is ∙ h | inr there ↦ down f there ],
  ),
)

starting_point-IsGrown :
    (reachable : NodeId → Bool) (es : List Link)
    → IsGrown reachable es (starting_point reachable es)
unfolding starting_point
starting_point-IsGrown reachable [] =
    ((λ c h. cc, λ c e i. absurd i), inl (λ n. refl, λ f i. absurd i))
starting_point-IsGrown reachable (e ∷ es) = elim (Bool-cases (reachable e.from)) [
  | inr h ↦ rw (h, starting_point) (later reachable e es _ h (starting_point-IsGrown reachable es))
  | inl h ↦
      rw (h, starting_point)
        (
          (λ c q. cc, λ c f i. absurd i),
          inr (
            e.from,
            h,
            (
              e.from ∷ [],
              refl,
              (refl, tt),
              λ n. ground arith,
              λ n q. subst (IsLinked e.from []) (sym (also_one e.from n q)) at_root,
            ),
          ),
        )
]

-- The algorithm comes to an end, starting again at most as often as there are edges. Then no edge,
-- with one in the opposite direction, leads from a visited node to one that is not; either no
-- node is visited, and no edge starts at a reachable node, or the visited nodes are one more than the edges added, which
-- link each of them to a reachable node; and a connection is marked exactly if an edge that was
-- added has it, or the edge in the opposite direction.
pub mst_kruskal-IsGrown :
    (reachable : NodeId → Bool) (all : List Link)
    → Returns
        (λ t. IsGrown reachable all t × ((f : Link) → IsIn f all → IsClosed t f))
        (mst_kruskal reachable all)
unfolding mst_kruskal
mst_kruskal-IsGrown reachable all =
    both (mst_kruskal reachable all)
      (walk_keeps (IsGrown reachable all) (add_edge-IsGrown reachable all) all _ false all _
        (starting_point-IsGrown reachable all))
      (mst_kruskal-IsClosed reachable all)
  where
    both :
        (o : Option MstState)
        → IfAny (IsGrown reachable all) o
        → Returns (λ t. (f : Link) → IsIn f all → IsClosed t f) o
        → Returns (λ t. IsGrown reachable all t × ((f : Link) → IsIn f all → IsClosed t f)) o
    both none p q = q
    both (some t) p q = (p, q)
