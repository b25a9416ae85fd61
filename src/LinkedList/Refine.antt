-- ===== src/LinkedList/Refine.antt =====
-- The operations of src/list.c on the nodes in memory, against lists.
use tinc.Base.{◌-◌, ◌≡◌, ◌∙◌, none, some, List, ◌∷◌, ◌++◌, length-append, arith}
use tinc.LinkedList.{Address, LinkedList, fore_to, back_to, list_unlink_node}
use tinc.LinkedList.Chain.{
  first, last, IsChain, fore_to-IsFront, back_to-IsBack, fore_to-IsChain, back_to-IsChain,
  fore_to_rest, back_to_rest,
}
use tinc.LinkedList.Parts.{
  Represents, AllDiffer-parts, AllDiffer-out, last_apart, member_apart, first-elem, joined, halves,
}

-- The two writes that close the gap around a node.
module _ (l : LinkedList) (xs : List Address) (x : Address) (ys : List Address)
    (rep : Represents l (xs ++ (x ∷ ys))) where
  closed : LinkedList
  closed = fore_to (last none xs) (first ys none) l

  pointers : ((l.cells x).prev ≡ last none xs) × ((l.cells x).next ≡ first ys none)
  pointers = let b = (halves l xs (x ∷ ys) rep).1.1 in (b.0, b.1)

  closed_back : IsChain closed.cells (last none xs) (x ∷ ys) none
  unfolding closed
  closed_back =
      fore_to-IsChain l (last none xs) (first ys none) (last none xs) (x ∷ ys) none
        (λ a e. last_apart xs (x ∷ ys) a rep.3 e) (halves l xs (x ∷ ys) rep).1.1

  relinked :
      let l' = back_to (first ys none) (last none xs) closed in
      Represents (record l' { count = l'.count - 1 }) (xs ++ ys)
  unfolding closed
  relinked =
      let (f, b) = halves l xs (x ∷ ys) rep in
      let d = AllDiffer-parts xs (x ∷ ys) rep.3 in
      let front = fore_to-IsFront l xs (some x) (first ys none) d.0 f in
      let back =
        back_to-IsBack closed ys (some x) (last none xs) d.1.1
          ((fore_to_rest l (last none xs) (first ys none)).0 ∙ b.0, closed_back.2) in
      let l' = back_to (first ys none) (last none xs) closed in
      let front' =
        back_to-IsChain closed (first ys none) (last none xs) none xs (first ys none)
          (λ a e. member_apart xs (x ∷ ys) a rep.3 (ground (arith, first-elem ys a e))) front.1 in
      joined (record l' { count = l'.count - 1 }) xs ys
        ((back_to_rest closed (first ys none) (last none xs)).0 ∙ front.0, front') back
        (omega (
          arith,
          rep.2,
          (fore_to_rest l (last none xs) (first ys none)).1,
          (back_to_rest closed (first ys none) (last none xs)).1,
          length-append xs ys,
          length-append xs (x ∷ ys),
        ))
        (AllDiffer-out xs x ys rep.3)

-- Unlinking a node takes it out of the list and leaves the others in their order.
pub list_unlink_node-Represents :
    (l : LinkedList) (xs : List Address) (x : Address) (ys : List Address)
    → Represents l (xs ++ (x ∷ ys))
    → Represents (list_unlink_node x l) (xs ++ ys)
unfolding list_unlink_node closed
list_unlink_node-Represents l xs x ys rep =
    let (p, n) = pointers l xs x ys rep in
    let c = closed_back l xs x ys rep in rw (p, n, c.0, c.1) (relinked l xs x ys rep)
