-- ===== src/Splay/Shape.antt =====
-- The order of the nodes in the restructurings of src/splay_tree.c.
use Prim.Native.Nat.{Ordering}
use Prim.Native.Nat.Ordering.{lt, eq, gt}
use mathlib.Core.List.{append_assoc, append-nil}
use tinc.Base.{◌≡◌, refl, sym, ap, ◌∙◌, Bool, true, false, Option, none, some, List, [], ◌∷◌, ◌++◌}
use tinc.Splay.{
  SplayNode, Tree, leaf, node, Found, flatten, is_leaf, tree_found, fill_left, fill_right, merge,
  down, down_left, down_right, splay_top_down,
}

-- There is a result, and it satisfies the predicate.
abbrev pub Returns {ℓ} : {B : Type ℓ} → (B → Type 0) → Option B → Type 0
Returns P none = ⊥
Returns P (some b) = P b

-- A predicate that holds of each branch, given the value that leads to it, holds of a choice.
pub Ordering_intro :
    {B : Type 0} (P : B → Type 0) (c : Ordering) {a b d : B}
    → (c ≡ lt → P a)
    → (c ≡ eq → P b)
    → (c ≡ gt → P d)
    → P (elim c [ lt ↦ a | eq ↦ b | gt ↦ d ])
Ordering_intro P lt p q r = p refl
Ordering_intro P eq p q r = q refl
Ordering_intro P gt p q r = r refl

pub Bool_intro :
    {B : Type 0} (P : B → Type 0) (c : Bool) {a b : B}
    → (c ≡ true → P a)
    → (c ≡ false → P b)
    → P (elim c [ true ↦ a | false ↦ b ])
Bool_intro P true p q = p refl
Bool_intro P false p q = q refl

module _ {A : Type 0} where
  -- What stands to the left of the current tree, in front of `xs`, and to the right of it.
  before : List (Tree A × SplayNode A) → List (SplayNode A) → List (SplayNode A)
  before [] xs = xs
  before ((l, x) ∷ rest) xs = before rest (flatten l ++ (x ∷ xs))

  behind : List (SplayNode A × Tree A) → List (SplayNode A)
  behind [] = []
  behind ((x, r) ∷ rest) = x ∷ (flatten r ++ behind rest)

  flatten-fill_left :
      (lefts : List (Tree A × SplayNode A)) (t : Tree A) (xs : List (SplayNode A))
      → flatten (fill_left lefts t) ++ xs ≡ before lefts (flatten t ++ xs)
  unfolding fill_left before flatten
  flatten-fill_left [] t xs = refl
  flatten-fill_left ((l, x) ∷ rest) t xs =
      flatten-fill_left rest (node l x t) xs
      ∙ ap (before rest) (append_assoc (flatten l) (x ∷ flatten t) xs)

  flatten-fill_right :
      (rights : List (SplayNode A × Tree A)) (t : Tree A)
      → flatten (fill_right rights t) ≡ flatten t ++ behind rights
  unfolding fill_right behind flatten
  flatten-fill_right [] t = sym (append-nil (flatten t))
  flatten-fill_right ((x, r) ∷ rest) t =
      flatten-fill_right rest (node t x r) ∙ append_assoc (flatten t) (x ∷ flatten r) (behind rest)

  -- The nodes of a result are these, in this order.
  abbrev pub Keeps : List (SplayNode A) → Option (Found A) → Type 0
  Keeps xs o = Returns (λ f. flatten (tree_found f) ≡ xs) o

  Keeps-change :
      (o : Option (Found A)) (xs ys : List (SplayNode A)) → xs ≡ ys → Keeps xs o → Keeps ys o
  Keeps-change none xs ys e h = h
  Keeps-change (some f) xs ys e h = h ∙ e

  merge-Keeps :
      (lefts : List (Tree A × SplayNode A)) (rights : List (SplayNode A × Tree A)) (l : Tree A)
      (x : SplayNode A) (r : Tree A) (c : Ordering)
      → Keeps (before lefts (flatten (node l x r) ++ behind rights)) (merge lefts rights l x r c)
  unfolding merge flatten before behind
  merge-Keeps lefts rights l x r c =
      flatten-fill_left lefts l (x ∷ flatten (fill_right rights r))
      ∙ ap (before lefts) (
          ap (λ ys. flatten l ++ (x ∷ ys)) (flatten-fill_right rights r)
          ∙ sym (append_assoc (flatten l) (x ∷ flatten r) (behind rights)))

  mutual
    unfolding down is_leaf before behind flatten

    down-Keeps :
        (side : SplayNode A → Ordering) (lefts : List (Tree A × SplayNode A))
        (rights : List (SplayNode A × Tree A)) (t : Tree A)
        → is_leaf t ≡ false
        → Keeps (before lefts (flatten t ++ behind rights)) (down side lefts rights t)
    down-Keeps side lefts rights leaf h = cc
    down-Keeps side lefts rights (node l x r) h =
        let nodes = before lefts (flatten (node l x r) ++ behind rights) in
        Ordering_intro (Keeps nodes) (side x) (λ e. down_left-Keeps side lefts rights l x r)
          (λ e. merge-Keeps lefts rights l x r eq) (λ e. down_right-Keeps side lefts rights l x r)

    down_left-Keeps :
        (side : SplayNode A → Ordering) (lefts : List (Tree A × SplayNode A))
        (rights : List (SplayNode A × Tree A)) (l : Tree A) (x : SplayNode A) (r : Tree A)
        → Keeps
            (before lefts (flatten (node l x r) ++ behind rights))
            (down_left side lefts rights l x r)
    down_left-Keeps side lefts rights leaf x r = merge-Keeps lefts rights leaf x r lt
    down_left-Keeps side lefts rights (node ll y lr) x r =
        let nodes = before lefts (flatten (node (node ll y lr) x r) ++ behind rights) in
        let rights' = (x, r) ∷ rights in
        Ordering_intro (Keeps nodes) (side y)
          (λ e.
            Bool_intro (Keeps nodes) (is_leaf ll)
              (λ e. Keeps-change _ _ _ (simp append_assoc) (merge-Keeps lefts rights' ll y lr lt))
              (λ e.
                Keeps-change _ _ _ (simp append_assoc)
                  (down-Keeps side lefts ((y, node lr x r) ∷ rights) ll e)))
          (λ e. Keeps-change _ _ _ (simp append_assoc) (merge-Keeps lefts rights' ll y lr eq))
          (λ e.
            Bool_intro (Keeps nodes) (is_leaf lr)
              (λ e. Keeps-change _ _ _ (simp append_assoc) (merge-Keeps lefts rights' ll y lr gt))
              (λ e.
                Keeps-change _ _ _ (simp append_assoc)
                  (down-Keeps side ((ll, y) ∷ lefts) rights' lr e)))

    down_right-Keeps :
        (side : SplayNode A → Ordering) (lefts : List (Tree A × SplayNode A))
        (rights : List (SplayNode A × Tree A)) (l : Tree A) (x : SplayNode A) (r : Tree A)
        → Keeps
            (before lefts (flatten (node l x r) ++ behind rights))
            (down_right side lefts rights l x r)
    down_right-Keeps side lefts rights l x leaf = merge-Keeps lefts rights l x leaf gt
    down_right-Keeps side lefts rights l x (node rl y rr) =
        let nodes = before lefts (flatten (node l x (node rl y rr)) ++ behind rights) in
        let lefts' = (l, x) ∷ lefts in
        Ordering_intro (Keeps nodes) (side y)
          (λ e.
            Bool_intro (Keeps nodes) (is_leaf rl)
              (λ e. Keeps-change _ _ _ (simp append_assoc) (merge-Keeps lefts' rights rl y rr lt))
              (λ e.
                Keeps-change _ _ _ (simp append_assoc)
                  (down-Keeps side lefts' ((y, rr) ∷ rights) rl e)))
          (λ e. Keeps-change _ _ _ (simp append_assoc) (merge-Keeps lefts' rights rl y rr eq))
          (λ e.
            Bool_intro (Keeps nodes) (is_leaf rr)
              (λ e. Keeps-change _ _ _ (simp append_assoc) (merge-Keeps lefts' rights rl y rr gt))
              (λ e.
                Keeps-change _ _ _ (simp append_assoc)
                  (down-Keeps side ((node l x rl, y) ∷ lefts) rights rr e)))

  -- Splaying from the top finds a root whatever the comparison function answers, and leaves the
  -- order of the nodes as it was, if the tree is not empty.
  pub splay_top_down-Keeps :
      (side : SplayNode A → Ordering) (t : Tree A)
      → is_leaf t ≡ false
      → Keeps (flatten t) (splay_top_down side t)
  unfolding splay_top_down before behind
  splay_top_down-Keeps side t h =
      Keeps-change _ _ _ (append-nil (flatten t)) (down-Keeps side [] [] t h)
