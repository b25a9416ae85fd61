-- ===== src/Splay/Nosplay.antt =====
-- The search of src/splay_tree.c that leaves the tree alone.
use Prim.Native.Nat.{Ordering}
use Prim.Native.Nat.Ordering.{lt, eq, gt}
use mathlib.Core.List.{append_assoc}
use tinc.Base.{◌≡◌, refl, sym, ap, ◌∙◌, true, false, Option, none, some, List, ◌∷◌, ◌++◌}
use tinc.Splay.{SplayNode, Tree, leaf, node, flatten, is_leaf}
use tinc.Splay.Sides.{AllOn, IsMonotone, AllOn-append, is_leaf-AllOn, low_side, high_side, subtrees}
use tinc.Splay.Shape.{Returns, Ordering_intro, Bool_intro}

module _ {A : Type 0} where
  -- `splay_search_closest_node_nosplay`
  unfoldable pub search_closest_node_nosplay :
      (SplayNode A → Ordering) → Tree A → Option (SplayNode A × Ordering)
  search_closest_node_nosplay side leaf = none
  search_closest_node_nosplay side (node l x r) =
      let in_left = search_closest_node_nosplay side l in
      let in_right = search_closest_node_nosplay side r in
      elim (side x) [
        | lt ↦ elim (is_leaf l) [ true ↦ some (x, lt) | false ↦ in_left ]
        | gt ↦ elim (is_leaf r) [ true ↦ some (x, gt) | false ↦ in_right ]
        | eq ↦ some (x, eq)
      ]

  -- The nodes are those in front of one that the data is greater than, this node with its
  -- comparison, and those behind it that the data is less than.
  abbrev pub IsBeside :
      (SplayNode A → Ordering) → List (SplayNode A) → SplayNode A × Ordering → Type 0
  IsBeside side all (x, c) =
      (front : List (SplayNode A)) × (back : List (SplayNode A)) × (all ≡ front ++ (x ∷ back))
      × (side x ≡ c)
      × AllOn side gt front
      × AllOn side lt back

  widen_left :
      (side : SplayNode A → Ordering) (xs : List (SplayNode A)) (x : SplayNode A)
      (ys : List (SplayNode A))
      → AllOn side lt ys
      → side x ≡ lt
      → (o : Option (SplayNode A × Ordering)) → Returns (IsBeside side xs) o
      → Returns (IsBeside side (xs ++ (x ∷ ys))) o
  widen_left side xs x ys low e none h = h
  widen_left side xs x ys low e (some (z, c)) (front, back, all, ez, a, b) = (
    front,
    back ++ (x ∷ ys),
    ap (λ l. l ++ (x ∷ ys)) all ∙ append_assoc front (z ∷ back) (x ∷ ys),
    ez,
    a,
    AllOn-append side lt back (x ∷ ys) b (e, low),
  )

  widen_right :
      (side : SplayNode A → Ordering) (xs : List (SplayNode A)) (x : SplayNode A)
      (ys : List (SplayNode A))
      → AllOn side gt xs
      → side x ≡ gt
      → (o : Option (SplayNode A × Ordering)) → Returns (IsBeside side ys) o
      → Returns (IsBeside side (xs ++ (x ∷ ys))) o
  widen_right side xs x ys high e none h = h
  widen_right side xs x ys high e (some (z, c)) (front, back, all, ez, a, b) = (
    xs ++ (x ∷ front),
    back,
    ap (λ l. xs ++ (x ∷ l)) all ∙ sym (append_assoc xs (x ∷ front) (z ∷ back)),
    ez,
    AllOn-append side gt xs (x ∷ front) high (e, a),
    b,
  )

  -- A search without splaying in a tree that is not empty, whose nodes stand in the order of the
  -- data, ends at a node beside which the data belongs, with the comparison of the two.
  pub search_closest_node_nosplay-IsBeside :
      (side : SplayNode A → Ordering) (t : Tree A)
      → is_leaf t ≡ false
      → IsMonotone side (flatten t)
      → Returns (IsBeside side (flatten t)) (search_closest_node_nosplay side t)
  unfolding search_closest_node_nosplay is_leaf flatten
  search_closest_node_nosplay-IsBeside side leaf h m = cc
  search_closest_node_nosplay-IsBeside side (node l x r) h m =
      let P = Returns (IsBeside side (flatten (node l x r))) in
      let here : (c : Ordering)
          → side x ≡ c
          → AllOn side gt (flatten l)
          → AllOn side lt (flatten r)
          → IsBeside side (flatten (node l x r)) (x, c) =
        λ c e a b. (flatten l, flatten r, refl, e, a, b) in
      let (ml, mr) = subtrees side l x r m in
      Ordering_intro P (side x)
        (λ e.
          Bool_intro P (is_leaf l)
            (λ b. here lt e (is_leaf-AllOn side gt l b) (low_side side l x r m (λ d. cc)))
            (λ b.
              widen_left side (flatten l) x (flatten r) (low_side side l x r m (λ d. cc)) e _
                (search_closest_node_nosplay-IsBeside side l b ml)))
        (λ e. here eq e (high_side side l x r m (λ d. cc)) (low_side side l x r m (λ d. cc)))
        (λ e.
          Bool_intro P (is_leaf r)
            (λ b. here gt e (high_side side l x r m (λ d. cc)) (is_leaf-AllOn side lt r b))
            (λ b.
              widen_right side (flatten l) x (flatten r) (high_side side l x r m (λ d. cc)) e _
                (search_closest_node_nosplay-IsBeside side r b mr)))
