-- ===== src/Splay/Reached.antt =====
-- Every tree that the operations of src/splay_tree.c can make.
use mathlib.Core.Path.{subst}
use tinc.Base.{◌≡◌, refl, sym, false}
use tinc.Splay.{SplayNode}
use tinc.Splay.BottomUp.{has_id}
use tinc.Splay.State.{SplayTree, empty_splay, insert_node, unlink, search_node, empty_tree}
use tinc.Splay.Valid.{IsValid}
use tinc.Splay.Order.{Order, IsSorted}
use tinc.Splay.Update.{insert_node-IsInserted, unlink-IsUnlinked}
use tinc.Splay.Neighbours.{search_node-find_equal}

-- The trees that insertions of nodes with new addresses, removals, searches and clearing make of
-- the empty one.
pub data IsReached {A : Type 0} (o : Order A) : SplayTree A → Type 0 where
  at_first : IsReached o empty_splay
  inserted :
      (n : SplayNode A) {s : SplayTree A}
      → IsReached o s
      → has_id n.id s.thread ≡ false
      → IsReached o (insert_node o.compare n s).1
  unlinked : (c : A) {s : SplayTree A} → IsReached o s → IsReached o (unlink o.compare c s).1
  searched : (c : A) {s : SplayTree A} → IsReached o s → IsReached o (search_node o.compare c s).1
  emptied : {s : SplayTree A} → IsReached o s → IsReached o (empty_tree s)

module _ {A : Type 0} (o : Order A) where
  -- Every tree that is made so is valid: its list holds the nodes of the tree in their order, no
  -- address stands twice and the count is right; and its nodes are in the order of comparison.
  pub IsReached-IsValid : (s : SplayTree A) → IsReached o s → IsValid s × IsSorted o s.thread
  unfolding empty_tree tinc.Splay.flatten
  IsReached-IsValid _ at_first = ((refl, tt, refl), tt)
  IsReached-IsValid _ (inserted n {s} r fresh) =
      let (v, sorted) = IsReached-IsValid s r in
      let (h, sorted') = insert_node-IsInserted o n s v sorted fresh in (h.0, sorted')
  IsReached-IsValid _ (unlinked c {s} r) =
      let (v, sorted) = IsReached-IsValid s r in
      let (h, sorted') = unlink-IsUnlinked o c s v sorted in (h.0, sorted')
  IsReached-IsValid _ (searched c {s} r) =
      let (v, sorted) = IsReached-IsValid s r in
      let (found, v', same) = search_node-find_equal o c s v sorted in
      (v', subst (IsSorted o) (sym same) sorted)
  IsReached-IsValid _ (emptied r) = ((refl, tt, refl), tt)
