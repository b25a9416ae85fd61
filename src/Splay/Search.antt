-- ===== src/Splay/Search.antt =====
-- Where a splaying search of src/splay_tree.c ends in a tree whose nodes are in order.
use Prim.Native.Nat.{Ordering}
use Prim.Native.Nat.Ordering.{lt, eq, gt}
use tinc.Base.{◌≡◌, false, Option, none, some, List, [], ◌∷◌}
use tinc.Splay.{
  SplayNode, Tree, leaf, node, Found, flatten, is_leaf, tree_found, fill_left, fill_right, merge,
  down, down_left, down_right, splay_top_down,
}
use tinc.Splay.Sides.{AllOn, IsMonotone, AllOn-append, is_leaf-AllOn, low_side, high_side, subtrees}
use tinc.Splay.Shape.{Returns, Ordering_intro, Bool_intro, splay_top_down-Keeps}

module _ {A : Type 0} where
  -- The data belongs beside the root that was found, on the side that the result says, and where
  -- that is neither, at the root itself.
  abbrev pub IsClose : (SplayNode A → Ordering) → Found A → Type 0
  IsClose side f =
      (side f.root ≡ f.result) × AllOn side gt (flatten f.left) × AllOn side lt (flatten f.right)

  abbrev LeftsOn : (SplayNode A → Ordering) → List (Tree A × SplayNode A) → Type 0
  LeftsOn side [] = Unit
  LeftsOn side ((l, x) ∷ rest) = AllOn side gt (flatten l) × (side x ≡ gt) × LeftsOn side rest

  abbrev RightsOn : (SplayNode A → Ordering) → List (SplayNode A × Tree A) → Type 0
  RightsOn side [] = Unit
  RightsOn side ((x, r) ∷ rest) = AllOn side lt (flatten r) × (side x ≡ lt) × RightsOn side rest

  fill_left-AllOn :
      (side : SplayNode A → Ordering) (lefts : List (Tree A × SplayNode A)) (t : Tree A)
      → LeftsOn side lefts
      → AllOn side gt (flatten t)
      → AllOn side gt (flatten (fill_left lefts t))
  unfolding fill_left flatten
  fill_left-AllOn side [] t p q = q
  fill_left-AllOn side ((l, x) ∷ rest) t p q =
      fill_left-AllOn side rest (node l x t) p.2
        (AllOn-append side gt (flatten l) (x ∷ flatten t) p.0 (p.1, q))

  fill_right-AllOn :
      (side : SplayNode A → Ordering) (rights : List (SplayNode A × Tree A)) (t : Tree A)
      → RightsOn side rights
      → AllOn side lt (flatten t)
      → AllOn side lt (flatten (fill_right rights t))
  unfolding fill_right flatten
  fill_right-AllOn side [] t p q = q
  fill_right-AllOn side ((x, r) ∷ rest) t p q =
      fill_right-AllOn side rest (node t x r) p.2
        (AllOn-append side lt (flatten t) (x ∷ flatten r) q (p.1, p.0))

  merge-IsClose :
      (side : SplayNode A → Ordering) (lefts : List (Tree A × SplayNode A))
      (rights : List (SplayNode A × Tree A)) (l : Tree A) (x : SplayNode A) (r : Tree A)
      (c : Ordering)
      → LeftsOn side lefts
      → RightsOn side rights
      → side x ≡ c
      → AllOn side gt (flatten l)
      → AllOn side lt (flatten r)
      → Returns (IsClose side) (merge lefts rights l x r c)
  unfolding merge
  merge-IsClose side lefts rights l x r c hl hr e a b =
      (e, fill_left-AllOn side lefts l hl a, fill_right-AllOn side rights r hr b)

  mutual
    unfolding down is_leaf flatten

    down-IsClose :
        (side : SplayNode A → Ordering) (lefts : List (Tree A × SplayNode A))
        (rights : List (SplayNode A × Tree A)) (t : Tree A)
        → LeftsOn side lefts
        → RightsOn side rights
        → is_leaf t ≡ false
        → IsMonotone side (flatten t)
        → Returns (IsClose side) (down side lefts rights t)
    down-IsClose side lefts rights leaf hl hr h m = cc
    down-IsClose side lefts rights (node l x r) hl hr h m =
        Ordering_intro (Returns (IsClose side)) (side x)
          (λ e. down_left-IsClose side lefts rights l x r hl hr e m)
          (λ e.
            merge-IsClose side lefts rights l x r eq hl hr e (high_side side l x r m (λ d. cc))
              (low_side side l x r m (λ d. cc)))
          (λ e. down_right-IsClose side lefts rights l x r hl hr e m)

    down_left-IsClose :
        (side : SplayNode A → Ordering) (lefts : List (Tree A × SplayNode A))
        (rights : List (SplayNode A × Tree A)) (l : Tree A) (x : SplayNode A) (r : Tree A)
        → LeftsOn side lefts
        → RightsOn side rights
        → side x ≡ lt
        → IsMonotone side (flatten (node l x r))
        → Returns (IsClose side) (down_left side lefts rights l x r)
    down_left-IsClose side lefts rights leaf x r hl hr e m =
        merge-IsClose side lefts rights leaf x r lt hl hr e tt (low_side side leaf x r m (λ d. cc))
    down_left-IsClose side lefts rights (node ll y lr) x r hl hr e m =
        let rights' = (x, r) ∷ rights in
        let hr' : RightsOn side rights' = (low_side side (node ll y lr) x r m (λ d. cc), e, hr) in
        let in_left = (subtrees side (node ll y lr) x r m).0 in
        let (ml, mr) = subtrees side ll y lr in_left in
        let P = Returns (IsClose side) in
        Ordering_intro P (side y)
          (λ c.
            Bool_intro P (is_leaf ll)
              (λ b.
                merge-IsClose side lefts rights' ll y lr lt hl hr' c (is_leaf-AllOn side gt ll b)
                  (low_side side ll y lr in_left (λ d. cc)))
              (λ b.
                down-IsClose side lefts ((y, node lr x r) ∷ rights) ll hl
                  (
                    AllOn-append side lt (flatten lr) (x ∷ flatten r)
                        (low_side side ll y lr in_left (λ d. cc)) (e, hr'.0),
                    c,
                    hr,
                  )
                  b ml))
          (λ c.
            merge-IsClose side lefts rights' ll y lr eq hl hr' c
              (high_side side ll y lr in_left (λ d. cc)) (low_side side ll y lr in_left (λ d. cc)))
          (λ c.
            Bool_intro P (is_leaf lr)
              (λ b.
                merge-IsClose side lefts rights' ll y lr gt hl hr' c
                  (high_side side ll y lr in_left (λ d. cc)) (is_leaf-AllOn side lt lr b))
              (λ b.
                down-IsClose side ((ll, y) ∷ lefts) rights' lr
                  (high_side side ll y lr in_left (λ d. cc), c, hl) hr' b mr))

    down_right-IsClose :
        (side : SplayNode A → Ordering) (lefts : List (Tree A × SplayNode A))
        (rights : List (SplayNode A × Tree A)) (l : Tree A) (x : SplayNode A) (r : Tree A)
        → LeftsOn side lefts
        → RightsOn side rights
        → side x ≡ gt
        → IsMonotone side (flatten (node l x r))
        → Returns (IsClose side) (down_right side lefts rights l x r)
    down_right-IsClose side lefts rights l x leaf hl hr e m =
        merge-IsClose side lefts rights l x leaf gt hl hr e (high_side side l x leaf m (λ d. cc)) tt
    down_right-IsClose side lefts rights l x (node rl y rr) hl hr e m =
        let lefts' = (l, x) ∷ lefts in
        let hl' : LeftsOn side lefts' = (high_side side l x (node rl y rr) m (λ d. cc), e, hl) in
        let in_right = (subtrees side l x (node rl y rr) m).1 in
        let (ml, mr) = subtrees side rl y rr in_right in
        let P = Returns (IsClose side) in
        Ordering_intro P (side y)
          (λ c.
            Bool_intro P (is_leaf rl)
              (λ b.
                merge-IsClose side lefts' rights rl y rr lt hl' hr c (is_leaf-AllOn side gt rl b)
                  (low_side side rl y rr in_right (λ d. cc)))
              (λ b.
                down-IsClose side lefts' ((y, rr) ∷ rights) rl hl'
                  (low_side side rl y rr in_right (λ d. cc), c, hr) b ml))
          (λ c.
            merge-IsClose side lefts' rights rl y rr eq hl' hr c
              (high_side side rl y rr in_right (λ d. cc))
              (low_side side rl y rr in_right (λ d. cc)))
          (λ c.
            Bool_intro P (is_leaf rr)
              (λ b.
                merge-IsClose side lefts' rights rl y rr gt hl' hr c
                  (high_side side rl y rr in_right (λ d. cc)) (is_leaf-AllOn side lt rr b))
              (λ b.
                down-IsClose side ((node l x rl, y) ∷ lefts) rights rr
                  (
                    AllOn-append side gt (flatten l) (x ∷ flatten rl) hl'.0
                        (e, high_side side rl y rr in_right (λ d. cc)),
                    c,
                    hl,
                  )
                  hr b mr))

  both :
      (P Q : Found A → Type 0) (o : Option (Found A))
      → Returns P o
      → Returns Q o
      → Returns (λ f. P f × Q f) o
  both P Q none p q = p
  both P Q (some f) p q = (p, q)

  -- A splaying search in a tree whose nodes stand in the order of the data returns a tree of the
  -- same nodes in the same order, whose root is a node beside which the data belongs: the data lies
  -- behind each node in front of the root and in front of each node behind it, and the result is
  -- the comparison with the root.
  pub splay_top_down-IsClose :
      (side : SplayNode A → Ordering) (t : Tree A)
      → is_leaf t ≡ false
      → IsMonotone side (flatten t)
      → Returns (λ f. (flatten (tree_found f) ≡ flatten t) × IsClose side f) (splay_top_down side t)
  unfolding splay_top_down
  splay_top_down-IsClose side t h m =
      both (λ f. flatten (tree_found f) ≡ flatten t) (IsClose side) _
        (splay_top_down-Keeps side t h) (down-IsClose side [] [] t tt tt h m)
