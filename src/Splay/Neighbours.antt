-- ===== src/Splay/Neighbours.antt =====
-- The searches of src/splay_tree.c for a node and for its neighbours against the reference on
-- sorted lists.
use Prim.Native.Nat.{Ordering}
use Prim.Native.Nat.Ordering.{lt, eq, gt}
use mathlib.Core.Path.{subst}
use tinc.Base.{◌≡◌, refl, sym, ap, ◌∙◌, Option, none, some, ◌∷◌}
use tinc.Splay.{SplayNode}
use tinc.Splay.State.{
  SplayTree, prev_of, next_of, exact_of, smaller_of, greater_of, search_node,
  search_closest_smaller_node, search_closest_greater_node,
}
use tinc.Splay.Thread.{IsDistinct, IsDistinct-front, prev_of_at, next_of_at}
use tinc.Splay.Valid.{IsValid}
use tinc.Splay.Order.{
  Order, IsSorted, find_equal, find_equal_at, find_equal_back, last_upto, last_upto_at,
  last_upto_back, first_from, first_from_at, first_from_back,
}
use tinc.Splay.Refine.{Answers, search_closest_node-Answers}

module _ {A : Type 0} (o : Order A) (c : A) (s : SplayTree A) where
  exact_of-find_equal :
      (answer : (Option (SplayNode A) × Ordering) × SplayTree A)
      → Answers o c s answer
      → exact_of answer.0 ≡ find_equal o c s.thread
  unfolding find_equal exact_of
  exact_of-find_equal ((none, lt), s') (nil, v, same) = rw nil refl
  exact_of-find_equal ((none, eq), s') (nil, v, same) = rw nil refl
  exact_of-find_equal ((none, gt), s') (nil, v, same) = rw nil refl
  exact_of-find_equal ((some x, lt), s') ((front, back, all, e, a, b), v, same) =
      rw (all, find_equal_at o c front (x ∷ back) a, e, find_equal, find_equal_back o c back b) refl
  exact_of-find_equal ((some x, eq), s') ((front, back, all, e, a, b), v, same) =
      rw (all, find_equal_at o c front (x ∷ back) a, e, find_equal) refl
  exact_of-find_equal ((some x, gt), s') ((front, back, all, e, a, b), v, same) =
      rw (all, find_equal_at o c front (x ∷ back) a, e, find_equal, find_equal_back o c back b) refl

  smaller_of-last_upto :
      (answer : (Option (SplayNode A) × Ordering) × SplayTree A)
      → IsDistinct s.thread
      → Answers o c s answer
      → smaller_of answer ≡ last_upto o c none s.thread
  unfolding last_upto smaller_of
  smaller_of-last_upto ((none, result), s') d (nil, v, same) = rw nil refl
  smaller_of-last_upto ((some x, lt), s') d ((front, back, all, e, a, b), v, same) =
      ap (prev_of x.id none) (same ∙ all)
      ∙ prev_of_at x back none front (IsDistinct-front front x back (subst IsDistinct all d))
      ∙ sym (rw (all, last_upto_at o c none front (x ∷ back) a, e, last_upto) refl)
  smaller_of-last_upto ((some x, eq), s') d ((front, back, all, e, a, b), v, same) =
      rw
        (
          all,
          last_upto_at o c none front (x ∷ back) a,
          e,
          last_upto,
          last_upto_back o c (some x) back b,
        )
        refl
  smaller_of-last_upto ((some x, gt), s') d ((front, back, all, e, a, b), v, same) =
      rw
        (
          all,
          last_upto_at o c none front (x ∷ back) a,
          e,
          last_upto,
          last_upto_back o c (some x) back b,
        )
        refl

  greater_of-first_from :
      (answer : (Option (SplayNode A) × Ordering) × SplayTree A)
      → IsDistinct s.thread
      → Answers o c s answer
      → greater_of answer ≡ first_from o c s.thread
  unfolding first_from greater_of
  greater_of-first_from ((none, result), s') d (nil, v, same) = rw nil refl
  greater_of-first_from ((some x, lt), s') d ((front, back, all, e, a, b), v, same) =
      rw (all, first_from_at o c front (x ∷ back) a, e, first_from) refl
  greater_of-first_from ((some x, eq), s') d ((front, back, all, e, a, b), v, same) =
      rw (all, first_from_at o c front (x ∷ back) a, e, first_from) refl
  greater_of-first_from ((some x, gt), s') d ((front, back, all, e, a, b), v, same) =
      ap (next_of x.id) (same ∙ all)
      ∙ next_of_at x back front (IsDistinct-front front x back (subst IsDistinct all d))
      ∙ sym (
          rw (all, first_from_at o c front (x ∷ back) a, e, first_from, first_from_back o c back b)
            refl)

  kept :
      (answer : (Option (SplayNode A) × Ordering) × SplayTree A)
      → Answers o c s answer
      → IsValid answer.1 × (answer.1.thread ≡ s.thread)
  kept ((none, result), s') (nil, v, same) = (v, same)
  kept ((some x, result), s') (beside, v, same) = (v, same)

  -- In a valid tree whose nodes are in order, the search for a node finds the one of equal
  -- content, or none if there is none; the tree stays valid and keeps its list of nodes.
  pub search_node-find_equal :
      IsValid s
      → IsSorted o s.thread
      → let (found, s') = search_node o.compare c s in
        (found ≡ find_equal o c s.thread) × IsValid s' × (s'.thread ≡ s.thread)
  unfolding search_node
  search_node-find_equal v sorted =
      let answer = search_closest_node-Answers o c s v sorted in
      let (valid, same) = kept _ answer in (exact_of-find_equal _ answer, valid, same)

  -- In a valid tree whose nodes are in order, the search for the closest smaller node finds the
  -- last node that is not greater than the data, if there is one, and the search for the closest
  -- greater node the first that is not less; the tree stays valid and keeps its list of nodes.
  pub neighbours_lem :
      IsValid s
      → IsSorted o s.thread
      → let (smaller, s') = search_closest_smaller_node o.compare c s in
        let (greater, s'') = search_closest_greater_node o.compare c s in
        (smaller ≡ last_upto o c none s.thread)
        × (greater ≡ first_from o c s.thread)
        × IsValid s'
        × (s'.thread ≡ s.thread)
        × (s'' ≡ s')
  unfolding search_closest_smaller_node search_closest_greater_node
  neighbours_lem v sorted =
      let answer = search_closest_node-Answers o c s v sorted in
      let (valid, same) = kept _ answer in
      (smaller_of-last_upto _ v.1 answer, greater_of-first_from _ v.1 answer, valid, same, refl)
