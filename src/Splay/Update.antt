-- ===== src/Splay/Update.antt =====
-- Insertion, removal and the neighbours of src/splay_tree.c against the reference on sorted lists.
use Prim.Native.Nat.{Ordering}
use Prim.Native.Nat.Ordering.{lt, eq, gt}
use mathlib.Core.Path.{subst}
use tinc.Base.{
  ◌≡◌, ◌≢◌, refl, sym, ap, ◌∙◌, true, false, Option, none, some, List, [], ◌∷◌, ◌++◌, arith,
}
use tinc.Splay.{SplayNode, flatten}
use tinc.Splay.BottomUp.{has_id}
use tinc.Splay.Sides.{AllOn}
use tinc.Splay.State.{
  SplayTree, side_of, link_before, link_after, link_out, exact_of, insert_top, insert_before,
  insert_after, insert_before_node, insert_after_node, place, insert_node, search_node,
  unlink_found, unlink, unlink_node, search_closest_node,
}
use tinc.Splay.Thread.{IsDistinct, IsDistinct-front, link_before_at, link_after_at, link_out_at}
use tinc.Splay.Valid.{
  IsValid, insert_before_node-IsValid, insert_after_node-IsValid, unlink_node-IsValid,
}
use tinc.Splay.Order.{
  Order, IsSorted, find_equal, find_equal_at, find_equal_back, ordered_insert, ordered_insert_at,
  ordered_insert_back, ordered_insert-IsSorted, without_equal, without_equal_at, without_equal_back,
  without_equal-IsSorted,
}
use tinc.Splay.Refine.{Answers, search_closest_node-Answers}

module _ {A : Type 0} where
  has_id_there :
      (front : List (SplayNode A)) (x : SplayNode A) (back : List (SplayNode A))
      → has_id x.id (front ++ (x ∷ back)) ≡ true
  unfolding has_id
  has_id_there [] x back = ground arith
  has_id_there (z ∷ front) x back = ground (arith, has_id_there front x back)

  insert_top-IsValid :
      (n : SplayNode A) (s : SplayTree A) → IsValid s → s.thread ≡ [] → IsValid (insert_top n s)
  unfolding insert_top flatten has_id
  insert_top-IsValid n s v e = (refl, (refl, tt), ground (arith, v.2, e))

  there :
      (front : List (SplayNode A)) (x : SplayNode A) (back xs : List (SplayNode A))
      → xs ≡ front ++ (x ∷ back)
      → has_id x.id xs ≡ true
  there front x back xs e = ap (has_id x.id) e ∙ has_id_there front x back

module _ {A : Type 0} (o : Order A) where
  -- What an insertion does to a valid tree.
  abbrev pub IsInserted : SplayNode A → SplayTree A → Option (SplayNode A) × SplayTree A → Type 0
  IsInserted n s (result, s') =
      IsValid s'
      × (s'.thread ≡ ordered_insert o n s.thread)
      × (result ≡ elim (find_equal o n.content s.thread) [ none ↦ some n | some x ↦ none ])

  place-IsInserted :
      (n : SplayNode A) (s : SplayTree A) (answer : (Option (SplayNode A) × Ordering) × SplayTree A)
      → IsDistinct s.thread
      → has_id n.id s.thread ≡ false
      → Answers o n.content s answer
      → IsInserted n s (place n answer)
  unfolding place insert_before insert_after insert_before_node insert_after_node insert_top
      ordered_insert find_equal
  place-IsInserted n s ((none, result), s') d fresh (nil, v, same) =
      (insert_top-IsValid n s' v (same ∙ nil), sym (ap (ordered_insert o n) nil), rw nil refl)
  place-IsInserted n s ((some x, lt), s') d fresh ((front, back, all, e, a, b), v, same) = (
    insert_before_node-IsValid x.id n s' v (there front x back s'.thread (same ∙ all))
        (ap (has_id n.id) same ∙ fresh),
    ap (link_before x.id n) (same ∙ all)
        ∙ link_before_at x n back front (IsDistinct-front front x back (subst IsDistinct all d))
        ∙ sym (
            ap (ordered_insert o n) all
            ∙ ordered_insert_at o n front (x ∷ back) a
            ∙ ap (λ l. front ++ l) (rw (e, ordered_insert) refl)),
    rw
        (
          all,
          find_equal_at o n.content front (x ∷ back) a,
          e,
          find_equal,
          find_equal_back o n.content back b,
        )
        refl,
  )
  place-IsInserted n s ((some x, eq), s') d fresh ((front, back, all, e, a, b), v, same) = (
    v,
    same
        ∙ all
        ∙ sym (
            ap (ordered_insert o n) all
            ∙ ordered_insert_at o n front (x ∷ back) a
            ∙ ap (λ l. front ++ l) (rw (e, ordered_insert) refl)),
    rw (all, find_equal_at o n.content front (x ∷ back) a, e, find_equal) refl,
  )
  place-IsInserted n s ((some x, gt), s') d fresh ((front, back, all, e, a, b), v, same) = (
    insert_after_node-IsValid x.id n s' v (there front x back s'.thread (same ∙ all))
        (ap (has_id n.id) same ∙ fresh),
    ap (link_after x.id n) (same ∙ all)
        ∙ link_after_at x n back front (IsDistinct-front front x back (subst IsDistinct all d))
        ∙ sym (
            ap (ordered_insert o n) all
            ∙ ordered_insert_at o n front (x ∷ back) a
            ∙ ap (λ l. front ++ l)
                (rw (e, ordered_insert) (ap (λ l. x ∷ l) (ordered_insert_back o n back b)))),
    rw
        (
          all,
          find_equal_at o n.content front (x ∷ back) a,
          e,
          find_equal,
          find_equal_back o n.content back b,
        )
        refl,
  )

  -- A node with a new address is inserted in its place in order, unless there is one of equal
  -- content, which makes the insertion return none: a valid tree whose nodes are in order stays
  -- so.
  pub insert_node-IsInserted :
      (n : SplayNode A) (s : SplayTree A)
      → IsValid s
      → IsSorted o s.thread
      → has_id n.id s.thread ≡ false
      → IsInserted n s (insert_node o.compare n s) × IsSorted o (insert_node o.compare n s).1.thread
  unfolding insert_node
  insert_node-IsInserted n s v sorted fresh =
      let h =
        place-IsInserted n s (search_closest_node o.compare n.content s) v.1 fresh
          (search_closest_node-Answers o n.content s v sorted) in
      (h, subst (IsSorted o) (sym h.1) (ordered_insert-IsSorted o n s.thread sorted))

  -- What a removal does to a valid tree.
  abbrev pub IsUnlinked : A → SplayTree A → Option (SplayNode A) × SplayTree A → Type 0
  IsUnlinked c s (result, s') =
      IsValid s' × (s'.thread ≡ without_equal o c s.thread) × (result ≡ find_equal o c s.thread)

  kept :
      (c : A) (xs front : List (SplayNode A)) (x : SplayNode A) (back : List (SplayNode A))
      → xs ≡ front ++ (x ∷ back)
      → o.compare c x.content ≢ eq
      → AllOn (side_of o.compare c) gt front
      → AllOn (side_of o.compare c) lt back
      → without_equal o c xs ≡ front ++ (x ∷ back)
  unfolding without_equal
  kept c xs front x back all ne a b =
      ap (without_equal o c) all
      ∙ without_equal_at o c front (x ∷ back) a
      ∙ ap (λ l. front ++ l) (ground (arith, without_equal_back o c back b, ne))

  unlink_found-IsUnlinked :
      (c : A) (s : SplayTree A) (answer : (Option (SplayNode A) × Ordering) × SplayTree A)
      → IsDistinct s.thread
      → Answers o c s answer
      → IsUnlinked c s (unlink_found (exact_of answer.0, answer.1))
  unfolding unlink_found exact_of unlink_node without_equal find_equal
  unlink_found-IsUnlinked c s ((none, lt), s') d (nil, v, same) =
      (v, rw nil (same ∙ nil), rw nil refl)
  unlink_found-IsUnlinked c s ((none, eq), s') d (nil, v, same) =
      (v, rw nil (same ∙ nil), rw nil refl)
  unlink_found-IsUnlinked c s ((none, gt), s') d (nil, v, same) =
      (v, rw nil (same ∙ nil), rw nil refl)
  unlink_found-IsUnlinked c s ((some x, lt), s') d ((front, back, all, e, a, b), v, same) = (
    v,
    same ∙ all ∙ sym (kept c s.thread front x back all (λ h. cc) a b),
    rw (all, find_equal_at o c front (x ∷ back) a, e, find_equal, find_equal_back o c back b) refl,
  )
  unlink_found-IsUnlinked c s ((some x, gt), s') d ((front, back, all, e, a, b), v, same) = (
    v,
    same ∙ all ∙ sym (kept c s.thread front x back all (λ h. cc) a b),
    rw (all, find_equal_at o c front (x ∷ back) a, e, find_equal, find_equal_back o c back b) refl,
  )
  unlink_found-IsUnlinked c s ((some x, eq), s') d ((front, back, all, e, a, b), v, same) = (
    unlink_node-IsValid x.id s' v (there front x back s'.thread (same ∙ all)),
    ap (link_out x.id) (same ∙ all)
        ∙ link_out_at x back front (IsDistinct-front front x back (subst IsDistinct all d))
        ∙ sym (
            ap (without_equal o c) all
            ∙ without_equal_at o c front (x ∷ back) a
            ∙ ap (λ l. front ++ l) (rw (e, without_equal) refl)),
    rw (all, find_equal_at o c front (x ∷ back) a, e, find_equal) refl,
  )

  -- A removal takes the node of equal content out and returns it, or none if there is none: a
  -- valid tree whose nodes are in order stays so.
  pub unlink-IsUnlinked :
      (c : A) (s : SplayTree A)
      → IsValid s
      → IsSorted o s.thread
      → IsUnlinked c s (unlink o.compare c s) × IsSorted o (unlink o.compare c s).1.thread
  unfolding unlink search_node
  unlink-IsUnlinked c s v sorted =
      let h =
        unlink_found-IsUnlinked c s (search_closest_node o.compare c s) v.1
          (search_closest_node-Answers o c s v sorted) in
      (h, subst (IsSorted o) (sym h.1) (without_equal-IsSorted o c s.thread sorted))
