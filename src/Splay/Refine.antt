-- ===== src/Splay/Refine.antt =====
-- The operations of src/splay_tree.c against the reference on sorted lists.
use Prim.Native.Nat.{Ordering}
use Prim.Native.Nat.Ordering.{eq}
use mathlib.Core.Path.{subst}
use tinc.Base.{◌≡◌, refl, sym, ◌∙◌, ◌⊎◌, inl, inr, true, Option, none, some, [], Bool-cases}
use tinc.Splay.{
  SplayNode, Tree, leaf, node, Found, flatten, is_leaf, tree_found, down, splay_top_down,
}
use tinc.Splay.Shape.{Returns}
use tinc.Splay.Search.{IsClose, splay_top_down-IsClose}
use tinc.Splay.Nosplay.{IsBeside}
use tinc.Splay.State.{SplayTree, side_of, search_closest_node}
use tinc.Splay.Valid.{IsValid}
use tinc.Splay.Order.{Order, IsSorted, IsSorted-IsMonotone}

module _ {A : Type 0} (o : Order A) where
  -- What a search answers: no node, for an empty tree, or one beside which the data belongs; the
  -- tree it leaves is valid and has the same list.
  abbrev pub Answers : A → SplayTree A → (Option (SplayNode A) × Ordering) × SplayTree A → Type 0
  Answers c s ((none, result), s') = (s.thread ≡ []) × IsValid s' × (s'.thread ≡ s.thread)
  Answers c s ((some x, result), s') =
      IsBeside (side_of o.compare c) s.thread (x, result) × IsValid s' × (s'.thread ≡ s.thread)

  empty_found :
      (side : SplayNode A → Ordering) (t : Tree A)
      → is_leaf t ≡ true
      → (splay_top_down side t ≡ none) × (flatten t ≡ [])
  unfolding splay_top_down is_leaf flatten down
  empty_found side leaf h = (refl, refl)
  empty_found side (node l x r) h = cc

  found-Answers :
      (c : A) (s : SplayTree A)
      → IsValid s
      → (found : Option (Found A))
      → ((found ≡ none) × (flatten s.root ≡ []))
        ⊎ Returns
            (λ f. (flatten (tree_found f) ≡ flatten s.root) × IsClose (side_of o.compare c) f)
            found
      → Answers c s (elim found [
        | none ↦ ((none, eq), s)
        | some f ↦ ((some f.root, f.result), record s { root = tree_found f })
      ])
  unfolding flatten
  found-Answers c s v none (inl (e, nil)) = (sym v.0 ∙ nil, v, refl)
  found-Answers c s v none (inr refused) = absurd refused
  found-Answers c s v (some f) (inl (e, nil)) = cc
  found-Answers c s v (some f) (inr (keeps, close)) = (
    (flatten f.left, flatten f.right, sym (keeps ∙ v.0), close.0, close.1, close.2),
    (keeps ∙ v.0, v.1, v.2),
    refl,
  )

  -- In a valid tree whose nodes are in order, a search for the closest node answers none if the
  -- tree is empty, otherwise a node with its comparison with the data, which is greater than each
  -- node in front of it and less than each node behind it. The tree stays valid and keeps its
  -- list of nodes.
  pub search_closest_node-Answers :
      (c : A) (s : SplayTree A)
      → IsValid s
      → IsSorted o s.thread
      → Answers c s (search_closest_node o.compare c s)
  unfolding search_closest_node
  search_closest_node-Answers c s v sorted =
      found-Answers c s v (splay_top_down (side_of o.compare c) s.root)
        (elim (Bool-cases (is_leaf s.root)) [
          | inl e ↦ inl (empty_found _ s.root e)
          | inr e ↦ inr (
              splay_top_down-IsClose _ s.root e
                (IsSorted-IsMonotone o c (flatten s.root) (subst (IsSorted o) (sym v.0) sorted)))
        ])
