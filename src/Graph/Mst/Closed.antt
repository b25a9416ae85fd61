-- ===== src/Graph/Mst/Closed.antt =====
-- The rounds of `mst_kruskal` of src/graph.c, and the edges that they leave behind.
use mathlib.Core.Path.{subst}
use tinc.Base.{
  ℕ, zero, suc, ◌≤◌, ◌<◌, ◌≡◌, refl, sym, ◌⊎◌, inl, inr, Bool, true, false, ◌&&◌, List, [], ◌∷◌,
  if◌then◌else◌, length, Bool-cases, arith,
}
use tinc.Graph.{NodeId}
use tinc.Graph.Sound.{IsIn, Returns}
use tinc.Graph.Mst.{
  Link, MstState, has_reverse, is_skipped, add_edge, walk, starting_point, mst_kruskal,
}

-- Both ends are visited.
abbrev settled : MstState → Link → Bool
settled t e = t.visited e.from && t.visited e.to

-- How many edges have an end that is not visited.
open_count : MstState → List Link → ℕ
open_count t [] = 0
open_count t (e ∷ es) = if settled t e then open_count t es else suc (open_count t es)

open_count-length : (t : MstState) (es : List Link) → open_count t es ≤ length es
unfolding open_count
open_count-length t [] = omega arith
open_count-length t (e ∷ es) = ground (arith, open_count-length t es)

settled-add_edge :
    (e : Link) (t : MstState) (f : Link) → settled t f ≡ true → settled (add_edge e t) f ≡ true
unfolding add_edge
settled-add_edge e t f h = ground arith

settled_self : (e : Link) (t : MstState) → settled (add_edge e t) e ≡ true
unfolding add_edge
settled_self e t = ground arith

open_count-add_edge :
    (e : Link) (t : MstState) (es : List Link) → open_count (add_edge e t) es ≤ open_count t es
unfolding open_count
open_count-add_edge e t [] = omega arith
open_count-add_edge e t (f ∷ es) =
    ground (arith, settled-add_edge e t f, open_count-add_edge e t es)

open_before : (e : Link) (t : MstState) → is_skipped e t ≡ false → settled t e ≡ false
unfolding is_skipped
open_before e t h = ground arith

-- An edge that is added was open before.
open_count-less :
    (e : Link) (t : MstState) (es : List Link)
    → is_skipped e t ≡ false
    → IsIn e es
    → open_count (add_edge e t) es < open_count t es
unfolding open_count is_skipped
open_count-less e t [] h is = absurd is
open_count-less e t (f ∷ es) h (inl is) =
    rw (sym is, settled_self e t, open_before e t h) (ground (arith, open_count-add_edge e t es))
open_count-less e t (f ∷ es) h (inr is) =
    ground (arith, settled-add_edge e t f, open_count-less e t es h is)

-- No edge, with one in the opposite direction, leads from a visited node to one that is not.
abbrev pub IsClosed : MstState → Link → Type 0
IsClosed t e = has_reverse e ≡ true → t.visited e.from ≡ t.visited e.to

-- What is known of the edges behind: both ends are visited, until one was skipped.
abbrev Passed : Bool → MstState → Link → Type 0
Passed false t e = settled t e ≡ true
Passed true t e = IsClosed t e

Passed-IsClosed : (skipped : Bool) (t : MstState) (e : Link) → Passed skipped t e → IsClosed t e
Passed-IsClosed true t e h r = h r
Passed-IsClosed false t e h r = ground (arith, h)

skip-IsClosed : (e : Link) (t : MstState) → is_skipped e t ≡ true → IsClosed t e
unfolding is_skipped
skip-IsClosed e t h r = ground (arith, h, r)

open_zero :
    (e : Link) (t : MstState) (es : List Link)
    → settled t e ≡ false
    → IsIn e es
    → 0 < open_count t es
unfolding open_count
open_zero e t [] h is = absurd is
open_zero e t (f ∷ es) h (inl is) = rw (sym is, h) (omega arith)
open_zero e t (f ∷ es) h (inr is) = ground (arith, open_zero e t es h is)

after_skip :
    (all : List Link) (skipped : Bool) (e : Link) (es : List Link) (t : MstState)
    → is_skipped e t ≡ true
    → ((f : Link) → IsIn f all → IsIn f (e ∷ es) ⊎ Passed skipped t f)
    → (f : Link) → IsIn f all
    → IsIn f es ⊎ IsClosed t f
after_skip all skipped e es t h known f is = elim (known f is) [
  | inl (inl is) ↦ inr (subst (IsClosed t) (sym is) (skip-IsClosed e t h))
  | inl (inr i) ↦ inl i
  | inr p ↦ inr (Passed-IsClosed skipped t f p)
]

after_add :
    (all : List Link) (e : Link) (es : List Link) (t : MstState)
    → ((f : Link) → IsIn f all → IsIn f (e ∷ es) ⊎ Passed false t f)
    → (f : Link) → IsIn f all
    → IsIn f es ⊎ Passed false (add_edge e t) f
after_add all e es t known f is = elim (known f is) [
  | inl (inl is) ↦ inr (subst (Passed false (add_edge e t)) (sym is) (settled_self e t))
  | inl (inr i) ↦ inl i
  | inr p ↦ inr (settled-add_edge e t f p)
]

walk-IsClosed :
    (fuel : ℕ) (all : List Link) (skipped : Bool) (rest : List Link) (t : MstState)
    → open_count t all ≤ fuel
    → ((f : Link) → IsIn f rest → IsIn f all)
    → ((f : Link) → IsIn f all → IsIn f rest ⊎ Passed skipped t f)
    → Returns (λ u. (f : Link) → IsIn f all → IsClosed u f) (walk fuel all skipped rest t)
unfolding walk
walk-IsClosed fuel all skipped [] t enough sub known =
    λ f is. elim (known f is) [ inl i ↦ absurd i | inr p ↦ Passed-IsClosed skipped t f p ]
walk-IsClosed zero all true (e ∷ es) t enough sub known = elim (Bool-cases (is_skipped e t)) [
  | inl h ↦
      rw (h, Returns, walk)
        (walk-IsClosed zero all true es t enough (λ f i. sub f (inr i))
          (after_skip all true e es t h known))
  | inr h ↦ absurd (omega (arith, enough, open_zero e t all (open_before e t h) (sub e (inl refl))))
]
walk-IsClosed zero all false (e ∷ es) t enough sub known = elim (Bool-cases (is_skipped e t)) [
  | inl h ↦
      rw (h, Returns, walk)
        (walk-IsClosed zero all true es t enough (λ f i. sub f (inr i))
          (after_skip all false e es t h known))
  | inr h ↦
      rw (h, Returns, walk)
        (walk-IsClosed zero all false es (add_edge e t)
          (omega (arith, enough, open_count-add_edge e t all)) (λ f i. sub f (inr i))
          (after_add all e es t known))
]
walk-IsClosed (suc fuel) all true (e ∷ es) t enough sub known = elim (Bool-cases (is_skipped e t)) [
  | inl h ↦
      rw (h, Returns, walk)
        (walk-IsClosed (suc fuel) all true es t enough (λ f i. sub f (inr i))
          (after_skip all true e es t h known))
  | inr h ↦
      rw (h, Returns, walk)
        (walk-IsClosed fuel all false all (add_edge e t)
          (omega (arith, enough, open_count-less e t all h (sub e (inl refl)))) (λ f i. i)
          (λ f i. inl i))
]
walk-IsClosed (suc fuel) all false (e ∷ es) t enough sub known =
    elim (Bool-cases (is_skipped e t)) [
      | inl h ↦
          rw (h, Returns, walk)
            (walk-IsClosed (suc fuel) all true es t enough (λ f i. sub f (inr i))
              (after_skip all false e es t h known))
      | inr h ↦
          rw (h, Returns, walk)
            (walk-IsClosed (suc fuel) all false es (add_edge e t)
              (omega (arith, enough, open_count-add_edge e t all)) (λ f i. sub f (inr i))
              (after_add all e es t known))
    ]

-- The algorithm comes to an end: it starts again at most as often as there are edges. Then no edge,
-- with one in the opposite direction, leads from a visited node to one that is not.
pub mst_kruskal-IsClosed :
    (reachable : NodeId → Bool) (all : List Link)
    → Returns (λ t. (f : Link) → IsIn f all → IsClosed t f) (mst_kruskal reachable all)
unfolding mst_kruskal
mst_kruskal-IsClosed reachable all =
    walk-IsClosed (length all) all false all (starting_point reachable all)
      (open_count-length _ all) (λ f i. i) (λ f i. inl i)
