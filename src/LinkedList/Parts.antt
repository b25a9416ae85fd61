-- ===== src/LinkedList/Parts.antt =====
-- A list in memory as two parts that meet, for src/list.c.
use mathlib.Core.Path.{subst}
use tinc.Base.{
  ◌≡◌, refl, sym, ◌∙◌, true, false, ◌||◌, Option, none, some, List, [], ◌∷◌, ◌++◌, length, arith,
}
use tinc.LinkedList.{Address, LinkedList}
use tinc.LinkedList.Chain.{
  first, last, elem, AllDiffer, IsChain, IsChain-append, IsChain-parts, IsFront, IsBack,
}

-- The nodes in memory are this list: the head, the tail and the count fit, no address stands
-- twice, and each node points to its neighbours.
abbrev pub Represents : LinkedList → List Address → Type 0
Represents l xs =
    (l.head ≡ first xs none)
    × (l.tail ≡ last none xs)
    × (l.count ≡ length xs)
    × AllDiffer xs
    × IsChain l.cells none xs none

first-append :
    (xs ys : List Address) (n : Option Address) → first (xs ++ ys) n ≡ first xs (first ys n)
first-append [] ys n = refl
first-append (x ∷ xs) ys n = refl

pub last-append :
    (p : Option Address) (xs ys : List Address) → last p (xs ++ ys) ≡ last (last p xs) ys
last-append p [] ys = refl
last-append p (x ∷ xs) ys = last-append (some x) xs ys

pub elem-append :
    (a : Address) (xs ys : List Address) → elem a (xs ++ ys) ≡ (elem a xs || elem a ys)
elem-append a [] ys = refl
elem-append a (x ∷ xs) ys = ground (arith, elem-append a xs ys)

pub elem_parts :
    (a : Address) (xs ys : List Address)
    → elem a (xs ++ ys) ≡ false
    → (elem a xs ≡ false) × (elem a ys ≡ false)
elem_parts a xs ys h = ground (arith, h, elem-append a xs ys)

pub AllDiffer-parts : (xs ys : List Address) → AllDiffer (xs ++ ys) → AllDiffer xs × AllDiffer ys
AllDiffer-parts [] ys d = (tt, d)
AllDiffer-parts (x ∷ xs) ys d =
    let (a, b) = AllDiffer-parts xs ys d.1 in ((ground (arith, d.0, elem-append x xs ys), a), b)

pub AllDiffer-out :
    (xs : List Address) (x : Address) (ys : List Address)
    → AllDiffer (xs ++ (x ∷ ys))
    → AllDiffer (xs ++ ys)
AllDiffer-out [] x ys d = d.1
AllDiffer-out (z ∷ xs) x ys d =
    (ground (arith, d.0, elem-append z xs (x ∷ ys), elem-append z xs ys), AllDiffer-out xs x ys d.1)

pub AllDiffer-in :
    (xs : List Address) (x : Address) (ys : List Address)
    → elem x (xs ++ ys) ≡ false
    → AllDiffer (xs ++ ys)
    → AllDiffer (xs ++ (x ∷ ys))
AllDiffer-in [] x ys e d = (e, d)
AllDiffer-in (z ∷ xs) x ys e d = (
  ground (arith, d.0, e, elem-append z xs (x ∷ ys), elem-append z xs ys),
  AllDiffer-in xs x ys (ground (arith, e)) d.1,
)

-- The last of the front is not in the back, nor the first of the back in the front.
pub last_apart :
    (xs ys : List Address) (a : Address)
    → AllDiffer (xs ++ ys)
    → last none xs ≡ some a
    → elem a ys ≡ false
last_apart [] ys a d e = cc
last_apart (x ∷ []) ys a d e = let is : x ≡ a = cc in subst (λ w. elem w ys ≡ false) is d.0
last_apart (x ∷ (y ∷ xs)) ys a d e = last_apart (y ∷ xs) ys a d.1 e

pub member_apart :
    (xs ys : List Address) (a : Address)
    → AllDiffer (xs ++ ys)
    → elem a ys ≡ true
    → elem a xs ≡ false
member_apart [] ys a d e = refl
member_apart (x ∷ xs) ys a d e =
    ground (arith, d.0, e, elem-append x xs ys, member_apart xs ys a d.1 e)

pub first-elem : (ys : List Address) (a : Address) → first ys none ≡ some a → elem a ys ≡ true
first-elem [] a e = cc
first-elem (y ∷ ys) a e = let is : y ≡ a = cc in ground (arith, is)

-- Two parts that meet make a list.
pub joined :
    (l : LinkedList) (xs ys : List Address)
    → IsFront l xs (first ys none)
    → IsBack l (last none xs) ys
    → l.count ≡ length (xs ++ ys)
    → AllDiffer (xs ++ ys)
    → Represents l (xs ++ ys)
joined l xs ys f b c d = (
  f.0 ∙ sym (first-append xs ys none),
  b.0 ∙ sym (last-append none xs ys),
  c,
  d,
  IsChain-append l.cells none xs ys none f.1 b.1,
)

pub halves :
    (l : LinkedList) (xs ys : List Address)
    → Represents l (xs ++ ys)
    → IsFront l xs (first ys none) × IsBack l (last none xs) ys
halves l xs ys (h, t, c, d, chain) =
    let (a, b) = IsChain-parts l.cells none xs ys none chain in
    ((h ∙ first-append xs ys none, a), (t ∙ last-append none xs ys, b))
