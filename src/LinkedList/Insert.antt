-- ===== src/LinkedList/Insert.antt =====
-- The insertions of src/list.c on the nodes in memory, against lists.
use mathlib.Core.List.{append_assoc, append-nil}
use mathlib.Core.Path.{subst}
use tinc.Base.{
  ℕ, ◌≡◌, refl, sym, ap, ◌∙◌, false, none, some, List, [], ◌∷◌, ◌++◌, length, length-append, arith,
  ◌==◌, if◌then◌else◌,
}
use tinc.LinkedList.{
  Address, LinkedList, fore_to, back_to, with_cell, list_insert_head, list_insert_tail,
  list_insert_after, list_insert_before,
}
use tinc.LinkedList.Chain.{
  first, last, elem, AllDiffer, IsChain, IsChain-put_cell, self, IsFront, IsBack, fore_to-IsFront,
  back_to-IsBack, fore_to-IsChain, back_to-IsChain, fore_to_rest, back_to_rest, fore_to-content,
  back_to-content,
}
use tinc.LinkedList.Parts.{
  Represents, last-append, elem_parts, AllDiffer-parts, AllDiffer-in, last_apart, member_apart,
  first-elem, joined, halves,
}

-- A new node between two parts of a list, in either order of the writes.
module _ (l : LinkedList) (xs ys : List Address) (fresh : Address) (content : ℕ)
    (rep : Represents l (xs ++ ys)) (new : elem fresh (xs ++ ys) ≡ false) where
  made : LinkedList
  made = with_cell fresh (last none xs) (first ys none) content l

  all_differ : AllDiffer (xs ++ (fresh ∷ ys))
  all_differ = AllDiffer-in xs fresh ys new rep.3

  made-IsFront : IsFront made xs (first ys none)
  unfolding made with_cell
  made-IsFront =
      let f = (halves l xs ys rep).0 in
      (
        f.0,
        IsChain-put_cell l.cells fresh _ none xs (first ys none) (elem_parts fresh xs ys new).0 f.1,
      )

  made-IsBack : IsBack made (last none xs) ys
  unfolding made with_cell
  made-IsBack =
      let b = (halves l xs ys rep).1 in
      (
        b.0,
        IsChain-put_cell l.cells fresh _ (last none xs) ys none (elem_parts fresh xs ys new).1 b.1,
      )

  made_one : IsChain made.cells (last none xs) (fresh ∷ []) (first ys none)
  unfolding made with_cell
  made_one = (rw (self fresh) refl, rw (self fresh) refl, tt)

  last_other : (a : Address) → last none xs ≡ some a → elem a (fresh ∷ []) ≡ false
  last_other a e = ground (arith, last_apart xs (fresh ∷ ys) a all_differ e)

  first_other : (a : Address) → first ys none ≡ some a → elem a (fresh ∷ []) ≡ false
  first_other a e = ground (
    arith,
    first-elem ys a e,
    member_apart (fresh ∷ []) ys a
        ((AllDiffer-parts xs (fresh ∷ ys) all_differ).1.0, (AllDiffer-parts xs ys rep.3).1)
        (first-elem ys a e),
  )

  counted : made.count ≡ length (xs ++ (fresh ∷ ys))
  unfolding made with_cell
  counted = omega (arith, rep.2, length-append xs ys, length-append xs (fresh ∷ ys))

  -- First the pointer of the front, then that of the back.
  inserted :
      Represents
        (back_to (first ys none) (some fresh) (fore_to (last none xs) (some fresh) made))
        (xs ++ (fresh ∷ ys))
  inserted =
      let p = last none xs in
      let n = first ys none in
      let d = AllDiffer-parts xs ys rep.3 in
      let l2 = fore_to p (some fresh) made in
      let front = fore_to-IsFront made xs n (some fresh) d.0 made-IsFront in
      let back =
        fore_to-IsChain made p (some fresh) p ys none (λ a e. last_apart xs ys a rep.3 e)
          made-IsBack.1 in
      let one = fore_to-IsChain made p (some fresh) p (fresh ∷ []) n last_other made_one in
      let front' =
        back_to-IsChain l2 n (some fresh) none xs (some fresh)
          (λ a e. member_apart xs ys a rep.3 (first-elem ys a e)) front.1 in
      let one' = back_to-IsChain l2 n (some fresh) p (fresh ∷ []) n first_other one in
      let back' =
        back_to-IsBack l2 ys p (some fresh) d.1
          ((fore_to_rest made p (some fresh)).0 ∙ made-IsBack.0, back) in
      joined (back_to n (some fresh) l2) xs (fresh ∷ ys)
        ((back_to_rest l2 n (some fresh)).0 ∙ front.0, front') (back'.0, (one'.0, one'.1, back'.1))
        ((back_to_rest l2 n (some fresh)).1 ∙ (fore_to_rest made p (some fresh)).1 ∙ counted)
        all_differ

  -- First the pointer of the back, then that of the front.
  inserted_back_first :
      Represents
        (fore_to (last none xs) (some fresh) (back_to (first ys none) (some fresh) made))
        (xs ++ (fresh ∷ ys))
  inserted_back_first =
      let p = last none xs in
      let n = first ys none in
      let d = AllDiffer-parts xs ys rep.3 in
      let l2 = back_to n (some fresh) made in
      let back = back_to-IsBack made ys p (some fresh) d.1 made-IsBack in
      let front =
        back_to-IsChain made n (some fresh) none xs n
          (λ a e. member_apart xs ys a rep.3 (first-elem ys a e)) made-IsFront.1 in
      let one = back_to-IsChain made n (some fresh) p (fresh ∷ []) n first_other made_one in
      let back' =
        fore_to-IsChain l2 p (some fresh) (some fresh) ys none (λ a e. last_apart xs ys a rep.3 e)
          back.1 in
      let one' = fore_to-IsChain l2 p (some fresh) p (fresh ∷ []) n last_other one in
      let front' =
        fore_to-IsFront l2 xs n (some fresh) d.0
          ((back_to_rest made n (some fresh)).0 ∙ made-IsFront.0, front) in
      joined (fore_to p (some fresh) l2) xs (fresh ∷ ys) front'
        ((fore_to_rest l2 p (some fresh)).0 ∙ back.0, (one'.0, one'.1, back'))
        ((fore_to_rest l2 p (some fresh)).1 ∙ (back_to_rest made n (some fresh)).1 ∙ counted)
        all_differ

-- A new node becomes the first of the list.
list_insert_head-Represents :
    (l : LinkedList) (ys : List Address) (fresh : Address) (content : ℕ)
    → Represents l ys
    → elem fresh ys ≡ false
    → Represents (list_insert_head fresh content l) (fresh ∷ ys)
unfolding list_insert_head made with_cell fore_to
list_insert_head-Represents l ys fresh content rep new =
    subst
      (λ n.
        Represents
          (back_to n (some fresh) (record (with_cell fresh none n content l) { head = some fresh }))
          (fresh ∷ ys))
      (sym rep.0) (inserted l [] ys fresh content rep new)

list_insert_tail-Represents :
    (l : LinkedList) (xs : List Address) (fresh : Address) (content : ℕ)
    → Represents l xs
    → elem fresh xs ≡ false
    → Represents (list_insert_tail fresh content l) (xs ++ (fresh ∷ []))
unfolding list_insert_tail made with_cell back_to
list_insert_tail-Represents l xs fresh content rep new =
    subst
      (λ p.
        Represents
          (fore_to p (some fresh) (record (with_cell fresh p none content l) { tail = some fresh }))
          (xs ++ (fresh ∷ [])))
      (sym rep.1)
      (inserted_back_first l xs [] fresh content (subst (Represents l) (sym (append-nil xs)) rep)
        (ap (elem fresh) (append-nil xs) ∙ new))

list_insert_before-Represents :
    (l : LinkedList) (xs : List Address) (b : Address) (ys : List Address) (fresh : Address)
    (content : ℕ)
    → Represents l (xs ++ (b ∷ ys))
    → elem fresh (xs ++ (b ∷ ys)) ≡ false
    → Represents (list_insert_before b fresh content l) (xs ++ (fresh ∷ (b ∷ ys)))
unfolding list_insert_before made with_cell back_to
list_insert_before-Represents l xs b ys fresh content rep new =
    subst
      (λ p.
        Represents
          (fore_to p (some fresh)
            (back_to (some b) (some fresh) (with_cell fresh p (some b) content l)))
          (xs ++ (fresh ∷ (b ∷ ys))))
      (sym (halves l xs (b ∷ ys) rep).1.1.0)
      (inserted_back_first l xs (b ∷ ys) fresh content rep new)

list_insert_after-Represents :
    (l : LinkedList) (xs : List Address) (a : Address) (ys : List Address) (fresh : Address)
    (content : ℕ)
    → Represents l (xs ++ (a ∷ ys))
    → elem fresh (xs ++ (a ∷ ys)) ≡ false
    → Represents (list_insert_after a fresh content l) (xs ++ (a ∷ (fresh ∷ ys)))
unfolding list_insert_after made with_cell fore_to
list_insert_after-Represents l xs a ys fresh content rep new =
    let one = append_assoc xs (a ∷ []) in
    let inner =
      inserted l (xs ++ (a ∷ [])) ys fresh content (subst (Represents l) (sym (one ys)) rep)
        (ap (elem fresh) (one ys) ∙ new) in
    let at_last : last none (xs ++ (a ∷ [])) ≡ some a = last-append none xs (a ∷ []) in
    let pointed =
      subst
        (λ p.
          Represents
            (back_to (first ys none) (some fresh)
              (fore_to p (some fresh) (with_cell fresh p (first ys none) content l)))
            ((xs ++ (a ∷ [])) ++ (fresh ∷ ys)))
        at_last inner in
    let linked =
      subst
        (λ n.
          Represents
            (back_to n (some fresh)
              (fore_to (some a) (some fresh) (with_cell fresh (some a) n content l)))
            ((xs ++ (a ∷ [])) ++ (fresh ∷ ys)))
        (sym (halves l xs (a ∷ ys) rep).1.1.1) pointed in
    subst (Represents (list_insert_after a fresh content l)) (one (fresh ∷ ys)) linked

-- The new node holds the content, and every other node holds what it held.
abbrev pub Stores : LinkedList → Address → ℕ → LinkedList → Type 0
Stores l fresh content l' =
    (b : Address) → (l'.cells b).content ≡ (if b == fresh then content else (l.cells b).content)

module _ (l : LinkedList) (a fresh : Address) (content : ℕ) where
  list_insert_before-Stores : Stores l fresh content (list_insert_before a fresh content l)
  unfolding list_insert_before with_cell
  list_insert_before-Stores b = fore_to-content _ _ _ b ∙ ground arith

  list_insert_after-Stores : Stores l fresh content (list_insert_after a fresh content l)
  unfolding list_insert_after with_cell
  list_insert_after-Stores b = back_to-content _ _ _ b ∙ ground arith

  list_insert_head-Stores : Stores l fresh content (list_insert_head fresh content l)
  unfolding list_insert_head with_cell
  list_insert_head-Stores b = back_to-content _ _ _ b ∙ ground arith

  list_insert_tail-Stores : Stores l fresh content (list_insert_tail fresh content l)
  unfolding list_insert_tail with_cell
  list_insert_tail-Stores b = fore_to-content _ _ _ b ∙ ground arith

-- A new node is put before or behind a node of a list in memory, at its head or at its tail: the
-- list has its address at that place and is otherwise the same, the new node holds the content that
-- was given, and every other node in memory holds the content that it held.
pub insertions_lem :
    (l : LinkedList) (xs : List Address) (a : Address) (ys : List Address) (fresh : Address)
    (content : ℕ)
    → Represents l (xs ++ (a ∷ ys))
    → elem fresh (xs ++ (a ∷ ys)) ≡ false
    → let before = list_insert_before a fresh content l in
      let after = list_insert_after a fresh content l in
      let head = list_insert_head fresh content l in
      let tail = list_insert_tail fresh content l in
      (Represents before (xs ++ (fresh ∷ (a ∷ ys))) × Stores l fresh content before)
      × (Represents after (xs ++ (a ∷ (fresh ∷ ys))) × Stores l fresh content after)
      × (Represents head (fresh ∷ (xs ++ (a ∷ ys))) × Stores l fresh content head)
      × (Represents tail ((xs ++ (a ∷ ys)) ++ (fresh ∷ [])) × Stores l fresh content tail)
insertions_lem l xs a ys fresh content rep new = (
  (
    list_insert_before-Represents l xs a ys fresh content rep new,
    list_insert_before-Stores l a fresh content,
  ),
  (
    list_insert_after-Represents l xs a ys fresh content rep new,
    list_insert_after-Stores l a fresh content,
  ),
  (
    list_insert_head-Represents l (xs ++ (a ∷ ys)) fresh content rep new,
    list_insert_head-Stores l a fresh content,
  ),
  (
    list_insert_tail-Represents l (xs ++ (a ∷ ys)) fresh content rep new,
    list_insert_tail-Stores l a fresh content,
  ),
)
