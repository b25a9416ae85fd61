-- ===== src/Splay/Valid.antt =====
-- The invariant of a tree of src/splay_tree.c, and linking nodes in and out.
use mathlib.Core.Path.{subst}
use mathlib.Core.List.{append_assoc}
use tinc.Base.{ℕ, suc, ◌≡◌, sym, ap, ◌∙◌, true, false, List, [], ◌∷◌, ◌++◌, length, arith}
use tinc.Base.Bytes.{u32}
use tinc.Splay.{SplayNode, flatten, splay_bottom_up}
use tinc.Splay.BottomUp.{IsRooted, has_id, splay_bottom_up-IsRooted}
use tinc.Splay.State.{
  SplayTree, link_before, link_after, link_out, insert_before_node, insert_after_node, unlink_node,
}
use tinc.Splay.Joins.{root_before-flatten, root_after-flatten, root_without-flatten}
use tinc.Splay.Thread.{
  IsDistinct, IsDistinct-front, IsDistinct-out, IsDistinct-in, split_at, link_before_at,
  link_after_at, link_out_at,
}

module _ {A : Type 0} where
  -- The list holds the nodes of the tree in their order, no address stands twice, and the count
  -- is that of the nodes.
  abbrev pub IsValid : SplayTree A → Type 0
  IsValid s = (flatten s.root ≡ s.thread) × IsDistinct s.thread × (s.count ≡ u32 (length s.thread))

  length-link_before :
      (at : ℕ) (n : SplayNode A) (xs : List (SplayNode A))
      → has_id at xs ≡ true
      → length (link_before at n xs) ≡ suc (length xs)
  unfolding has_id link_before
  length-link_before at n [] h = cc
  length-link_before at n (x ∷ xs) h = ground (arith, length-link_before at n xs)

  length-link_after :
      (at : ℕ) (n : SplayNode A) (xs : List (SplayNode A))
      → has_id at xs ≡ true
      → length (link_after at n xs) ≡ suc (length xs)
  unfolding has_id link_after
  length-link_after at n [] h = cc
  length-link_after at n (x ∷ xs) h = ground (arith, length-link_after at n xs)

  length-link_out :
      (at : ℕ) (xs : List (SplayNode A))
      → has_id at xs ≡ true
      → suc (length (link_out at xs)) ≡ length xs
  unfolding has_id link_out
  length-link_out at [] h = cc
  length-link_out at (x ∷ xs) h = ground (arith, length-link_out at xs)

  link_before-IsDistinct :
      (at : ℕ) (n : SplayNode A) (xs : List (SplayNode A))
      → has_id at xs ≡ true
      → has_id n.id xs ≡ false
      → IsDistinct xs
      → IsDistinct (link_before at n xs)
  link_before-IsDistinct at n xs h fresh d =
      let (front, x, back, all, is) = split_at at xs h in
      let d' : IsDistinct (front ++ (x ∷ back)) = rw all at d in
      rw (all, sym is, link_before_at x n back front (IsDistinct-front front x back d'))
        (IsDistinct-in front n (x ∷ back) d' (rw all at fresh))

  link_after-IsDistinct :
      (at : ℕ) (n : SplayNode A) (xs : List (SplayNode A))
      → has_id at xs ≡ true
      → has_id n.id xs ≡ false
      → IsDistinct xs
      → IsDistinct (link_after at n xs)
  link_after-IsDistinct at n xs h fresh d =
      let (front, x, back, all, is) = split_at at xs h in
      let d' : IsDistinct (front ++ (x ∷ back)) = rw all at d in
      rw (all, sym is, link_after_at x n back front (IsDistinct-front front x back d'))
        (subst IsDistinct (append_assoc front (x ∷ []) (n ∷ back)) (
          IsDistinct-in (front ++ (x ∷ [])) n back
            (subst IsDistinct (sym (append_assoc front (x ∷ []) back)) d')
            (ap (has_id n.id) (append_assoc front (x ∷ []) back) ∙ rw all at fresh)))

  link_out-IsDistinct :
      (at : ℕ) (xs : List (SplayNode A))
      → has_id at xs ≡ true
      → IsDistinct xs
      → IsDistinct (link_out at xs)
  link_out-IsDistinct at xs h d =
      let (front, x, back, all, is) = split_at at xs h in
      let d' : IsDistinct (front ++ (x ∷ back)) = rw all at d in
      rw (all, sym is, link_out_at x back front (IsDistinct-front front x back d'))
        (IsDistinct-out front x back d')

  -- The node comes to the root of a valid tree.
  raised :
      (at : ℕ) (s : SplayTree A)
      → IsValid s
      → has_id at s.thread ≡ true
      → IsRooted at s.thread (splay_bottom_up at s.root)
  raised at s v h =
      subst (λ xs. IsRooted at xs (splay_bottom_up at s.root)) v.0
        (splay_bottom_up-IsRooted at s.root (ap (has_id at) v.0 ∙ h))

  -- In a valid tree, a node with a new address put in before one of its nodes stands before it
  -- in the list and in the tree, and the tree is valid.
  pub insert_before_node-IsValid :
      (at : ℕ) (n : SplayNode A) (s : SplayTree A)
      → IsValid s
      → has_id at s.thread ≡ true
      → has_id n.id s.thread ≡ false
      → IsValid (insert_before_node at n s)
  unfolding insert_before_node
  insert_before_node-IsValid at n s v h fresh = (
    root_before-flatten n at s.thread _ (raised at s v h) v.1,
    link_before-IsDistinct at n s.thread h fresh v.1,
    omega (arith, v.2, length-link_before at n s.thread h),
  )

  pub insert_after_node-IsValid :
      (at : ℕ) (n : SplayNode A) (s : SplayTree A)
      → IsValid s
      → has_id at s.thread ≡ true
      → has_id n.id s.thread ≡ false
      → IsValid (insert_after_node at n s)
  unfolding insert_after_node
  insert_after_node-IsValid at n s v h fresh = (
    root_after-flatten n at s.thread _ (raised at s v h) v.1,
    link_after-IsDistinct at n s.thread h fresh v.1,
    omega (arith, v.2, length-link_after at n s.thread h),
  )

  pub unlink_node-IsValid :
      (at : ℕ) (s : SplayTree A)
      → IsValid s
      → has_id at s.thread ≡ true
      → IsValid (unlink_node at s)
  unfolding unlink_node
  unlink_node-IsValid at s v h = (
    root_without-flatten at s.thread _ (raised at s v h) v.1,
    link_out-IsDistinct at s.thread h v.1,
    omega (arith, v.2, length-link_out at s.thread h),
  )
