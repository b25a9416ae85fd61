-- ===== src/Splay/Tests.antt =====
-- Runs of the model of src/splay_tree.c, with numbers as the data.
use Prim.Native.Nat.{compare}
use Prim.Native.Nat.Ordering.{lt, gt}
use tinc.Base.{ℕ, ◌≡◌, ◌≢◌, refl, none, [], ◌∷◌, arith}
use tinc.Splay.{
  SplayNode, Tree, leaf, node, flatten, is_leaf, tree_found, fill_left, fill_right, merge, down,
  splay_top_down, splay_bottom_up,
}
use tinc.Splay.State.{
  SplayTree, empty_splay, side_of, insert, insert_node, unlink, foreach, place, search_closest_node,
  search_closest_smaller_node, search_closest_greater_node, insert_before, insert_after,
  insert_before_node, insert_after_node, link_before, link_after,
}
use tinc.Splay.Order.{Order, IsSorted, IsSorted-IsMonotone, last_upto, first_from}
use tinc.Splay.Shape.{Returns, Keeps, splay_top_down-Keeps}
use tinc.Splay.BottomUp.{has_id, IsRooted, splay_bottom_up-IsRooted}
use tinc.Splay.Sides.{IsMonotone}
use tinc.Splay.Search.{IsClose, splay_top_down-IsClose}
use tinc.Splay.Nosplay.{IsBeside, search_closest_node_nosplay, search_closest_node_nosplay-IsBeside}
use tinc.Splay.Valid.{IsValid}
use tinc.Splay.Update.{IsInserted, IsUnlinked, insert_node-IsInserted, unlink-IsUnlinked}
use tinc.Splay.Neighbours.{neighbours_lem}
use tinc.Splay.Reached.{IsReached, at_first, inserted, unlinked, IsReached-IsValid}

number_lt_of_gt : (x y : ℕ) → compare x y ≡ gt → compare y x ≡ lt
number_lt_of_gt x y h = ground arith

number_lt_of_le_lt : (x y z : ℕ) → compare x y ≢ gt → compare y z ≡ lt → compare x z ≡ lt
number_lt_of_le_lt x y z h k = ground arith

abbrev by_number : Order ℕ
by_number = record {
  compare = compare;
  lt_of_gt = number_lt_of_gt;
  lt_of_le_lt = number_lt_of_le_lt;
}

abbrev numbered : ℕ → ℕ → SplayNode ℕ
numbered address number = record { id = address; content = number }

abbrev low_tree : Tree ℕ
low_tree = node leaf (numbered 2 10) leaf

abbrev two : SplayTree ℕ
two = record {
  root = node low_tree (numbered 1 20) leaf;
  thread = numbered 2 10 ∷ (numbered 1 20 ∷ []);
  count = 2;
  generation = 7;
}

two-IsValid : IsValid two
unfolding flatten has_id
two-IsValid = (refl, (refl, (refl, tt)), refl)

two-IsSorted : IsSorted by_number two.thread
two-IsSorted = ((refl, tt), (tt, tt))

splay_top_down-Keeps_example :
    Keeps (flatten two.root) (splay_top_down (side_of compare 15) two.root)
unfolding is_leaf
splay_top_down-Keeps_example = splay_top_down-Keeps (side_of compare 15) two.root refl

splay_bottom_up-IsRooted_example : IsRooted 2 (flatten two.root) (splay_bottom_up 2 two.root)
unfolding has_id flatten
splay_bottom_up-IsRooted_example = splay_bottom_up-IsRooted 2 two.root refl

two-IsMonotone : IsMonotone (side_of compare 15) (flatten two.root)
unfolding flatten
two-IsMonotone = IsSorted-IsMonotone by_number 15 two.thread two-IsSorted

splay_top_down-IsClose_example :
    Returns
      (λ f. (flatten (tree_found f) ≡ flatten two.root) × IsClose (side_of compare 15) f)
      (splay_top_down (side_of compare 15) two.root)
unfolding is_leaf
splay_top_down-IsClose_example =
    splay_top_down-IsClose (side_of compare 15) two.root refl two-IsMonotone

search_closest_node_nosplay-IsBeside_example :
    Returns
      (IsBeside (side_of compare 15) (flatten two.root))
      (search_closest_node_nosplay (side_of compare 15) two.root)
unfolding is_leaf
search_closest_node_nosplay-IsBeside_example =
    search_closest_node_nosplay-IsBeside (side_of compare 15) two.root refl two-IsMonotone

insert_node-IsInserted_example :
    IsInserted by_number (numbered 3 15) two (insert_node compare (numbered 3 15) two)
    × IsSorted by_number (insert_node compare (numbered 3 15) two).1.thread
unfolding has_id
insert_node-IsInserted_example =
    insert_node-IsInserted by_number (numbered 3 15) two two-IsValid two-IsSorted refl

unlink-IsUnlinked_example :
    IsUnlinked by_number 20 two (unlink compare 20 two)
    × IsSorted by_number (unlink compare 20 two).1.thread
unlink-IsUnlinked_example = unlink-IsUnlinked by_number 20 two two-IsValid two-IsSorted

neighbours_lem_example :
    let (smaller, s') = search_closest_smaller_node compare 15 two in
    let (greater, s'') = search_closest_greater_node compare 15 two in
    (smaller ≡ last_upto by_number 15 none two.thread)
    × (greater ≡ first_from by_number 15 two.thread)
    × IsValid s'
    × (s'.thread ≡ two.thread)
    × (s'' ≡ s')
neighbours_lem_example = neighbours_lem by_number 15 two two-IsValid two-IsSorted

one-IsReached : IsReached by_number (insert_node compare (numbered 1 20) empty_splay).1
unfolding has_id
one-IsReached = inserted (numbered 1 20) at_first refl

IsReached-IsValid_example :
    let s = (unlink compare 20 (insert_node compare (numbered 1 20) empty_splay).1).1 in
    IsValid s × IsSorted by_number s.thread
IsReached-IsValid_example = IsReached-IsValid by_number _ (unlinked 20 one-IsReached)

abbrev three : SplayTree ℕ
three = (insert compare 15 3 two).1

in_order : foreach three ≡ 10 ∷ (15 ∷ (20 ∷ []))
unfolding foreach insert insert_node place search_closest_node splay_top_down down merge is_leaf
    fill_left fill_right insert_before insert_after insert_before_node insert_after_node link_before
    link_after
in_order = refl
