-- ===== src/Splay.antt =====
-- The two restructurings of src/splay_tree.c, on trees as terms: the pointers to parents are the
-- way down to a node, kept as a list of the steps taken, the innermost first.
pub mod Shape
pub mod Sides
pub mod Search
pub mod Nosplay
pub mod State
pub mod Thread
pub mod Joins
pub mod Valid
pub mod Order
pub mod Refine
pub mod Update
pub mod Neighbours
pub mod Reached
mod Tests
pub mod BottomUp
use Prim.Native.Nat.{Ordering}
use Prim.Native.Nat.Ordering.{lt, eq, gt}
use tinc.Base.{ℕ, Bool, true, false, Option, none, some, List, [], ◌∷◌, ◌++◌, ◌==◌, if◌then◌else◌}

-- `splay_node_t`: `id` stands for its address, `content` for what `data` points to.
pub record SplayNode (A : Type 0) : Type 0 where
  pub id : ℕ
  pub content : A

pub data Tree (A : Type 0) : Type 0 where
  leaf : Tree A
  node : Tree A → SplayNode A → Tree A → Tree A

-- A step down from a parent: to its left child, beside its right subtree, or to its right child.
pub data Step (A : Type 0) : Type 0 where
  onleft : SplayNode A → Tree A → Step A
  onright : Tree A → SplayNode A → Step A

-- The root that a splay leaves, its subtrees, and the last comparison.
pub record Found (A : Type 0) : Type 0 where
  pub left : Tree A
  pub root : SplayNode A
  pub right : Tree A
  pub result : Ordering

module _ {A : Type 0} where
  -- The nodes from left to right.
  unfoldable pub flatten : Tree A → List (SplayNode A)
  flatten leaf = []
  flatten (node l x r) = flatten l ++ (x ∷ flatten r)

  unfoldable pub is_leaf : Tree A → Bool
  is_leaf leaf = true
  is_leaf (node l x r) = false

  abbrev pub tree_found : Found A → Tree A
  tree_found f = node f.left f.root f.right

  -- `left` and `leftbottom` hold nodes with their left subtrees, `right` and `rightbottom` nodes
  -- with their right subtrees: each hangs from the one behind it in the list.
  unfoldable pub fill_left : List (Tree A × SplayNode A) → Tree A → Tree A
  fill_left [] t = t
  fill_left ((l, x) ∷ rest) t = fill_left rest (node l x t)

  unfoldable pub fill_right : List (SplayNode A × Tree A) → Tree A → Tree A
  fill_right [] t = t
  fill_right ((x, r) ∷ rest) t = fill_right rest (node t x r)

  -- Merge trees.
  unfoldable pub merge :
      List (Tree A × SplayNode A)
      → List (SplayNode A × Tree A)
      → Tree A
      → SplayNode A
      → Tree A
      → Ordering
      → Option (Found A)
  merge lefts rights l x r c =
      some (record { left = fill_left lefts l; root = x; right = fill_right rights r; result = c })

  unfoldable mutual
    -- The loop of `splay_top_down`: `side x` is `compare(data, x->data)`.
    pub down :
        (SplayNode A → Ordering)
        → List (Tree A × SplayNode A)
        → List (SplayNode A × Tree A)
        → Tree A
        → Option (Found A)
    down side lefts rights leaf = none
    down side lefts rights (node l x r) = elim (side x) [
      | eq ↦ merge lefts rights l x r eq
      | lt ↦ down_left side lefts rights l x r
      | gt ↦ down_right side lefts rights l x r
    ]

    pub down_left :
        (SplayNode A → Ordering)
        → List (Tree A × SplayNode A)
        → List (SplayNode A × Tree A)
        → Tree A
        → SplayNode A
        → Tree A
        → Option (Found A)
    down_left side lefts rights leaf x r = merge lefts rights leaf x r lt
    down_left side lefts rights (node ll y lr) x r = elim (side y) [
      | eq ↦ merge lefts ((x, r) ∷ rights) ll y lr eq
      | lt ↦ elim (is_leaf ll) [
        | true ↦ merge lefts ((x, r) ∷ rights) ll y lr lt
        | false ↦ down side lefts ((y, node lr x r) ∷ rights) ll
      ]
      | gt ↦ elim (is_leaf lr) [
        | true ↦ merge lefts ((x, r) ∷ rights) ll y lr gt
        | false ↦ down side ((ll, y) ∷ lefts) ((x, r) ∷ rights) lr
      ]
    ]

    pub down_right :
        (SplayNode A → Ordering)
        → List (Tree A × SplayNode A)
        → List (SplayNode A × Tree A)
        → Tree A
        → SplayNode A
        → Tree A
        → Option (Found A)
    down_right side lefts rights l x leaf = merge lefts rights l x leaf gt
    down_right side lefts rights l x (node rl y rr) = elim (side y) [
      | eq ↦ merge ((l, x) ∷ lefts) rights rl y rr eq
      | gt ↦ elim (is_leaf rr) [
        | true ↦ merge ((l, x) ∷ lefts) rights rl y rr gt
        | false ↦ down side ((node l x rl, y) ∷ lefts) rights rr
      ]
      | lt ↦ elim (is_leaf rl) [
        | true ↦ merge ((l, x) ∷ lefts) rights rl y rr lt
        | false ↦ down side ((l, x) ∷ lefts) ((y, rr) ∷ rights) rl
      ]
    ]

  -- No root is found in an empty tree.
  unfoldable pub splay_top_down : (SplayNode A → Ordering) → Tree A → Option (Found A)
  splay_top_down side t = down side [] [] t

  -- The loop of `splay_bottom_up`, for a node with its subtrees and the steps to it.
  unfoldable pub climb : Tree A → SplayNode A → Tree A → List (Step A) → Tree A
  climb l n r [] = node l n r
  climb l n r (onleft p pr ∷ []) = node l n (node r p pr)
  climb l n r (onright pl p ∷ []) = node (node pl p l) n r
  climb l n r (onleft p pr ∷ (onleft g gr ∷ rest)) = climb l n (node r p (node pr g gr)) rest
  climb l n r (onright pl p ∷ (onright gl g ∷ rest)) = climb (node (node gl g pl) p l) n r rest
  climb l n r (onright pl p ∷ (onleft g gr ∷ rest)) = climb (node pl p l) n (node r g gr) rest
  climb l n r (onleft p pr ∷ (onright gl g ∷ rest)) = climb (node gl g l) n (node r p pr) rest

  -- The node at an address, its subtrees and the steps to it, which its pointers to parents give.
  unfoldable pub locate :
      ℕ → List (Step A) → Tree A → Option (Tree A × SplayNode A × Tree A × List (Step A))
  locate at steps leaf = none
  locate at steps (node l x r) =
      let in_left = locate at (onleft x r ∷ steps) l in
      let in_right = locate at (onright l x ∷ steps) r in
      if x.id == at
      then some (l, x, r, steps)
      else elim in_left [ some w ↦ some w | none ↦ in_right ]

  -- A node that is not in the tree is never passed.
  unfoldable pub splay_bottom_up : ℕ → Tree A → Tree A
  splay_bottom_up at t = elim (locate at [] t) [
    | none ↦ t
    | some (l, x, r, steps) ↦ climb l x r steps
  ]
