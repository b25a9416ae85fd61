-- ===== src/LinkedList/Chain.antt =====
-- Nodes in memory that form a list, and what a write to one of them does to it.
use mathlib.Core.Path.{subst}
use tinc.Base.{
  ◌≡◌, refl, sym, ap, ◌∙◌, Bool, true, false, ◌||◌, Option, none, some, List, [], ◌∷◌, ◌++◌, ◌==◌,
  Bool-cases, inl, inr, ==_iff, arith,
}
use tinc.LinkedList.{
  Address, Cell, Cells, LinkedList, put_cell, set_next, set_prev, fore_to, back_to,
}

-- The first and the last of a list, or what stands beside an empty one.
abbrev pub first : List Address → Option Address → Option Address
first [] n = n
first (x ∷ xs) n = some x

abbrev pub last : Option Address → List Address → Option Address
last p [] = p
last p (x ∷ xs) = last (some x) xs

abbrev pub elem : Address → List Address → Bool
elem a [] = false
elem a (x ∷ xs) = (a == x) || elem a xs

abbrev pub AllDiffer : List Address → Type 0
AllDiffer [] = Unit
AllDiffer (x ∷ xs) = (elem x xs ≡ false) × AllDiffer xs

-- The nodes point to each other in this order, the first back to `p` and the last on to `n`.
abbrev pub IsChain : Cells → Option Address → List Address → Option Address → Type 0
IsChain cells p [] n = Unit
IsChain cells p (x ∷ xs) n =
    ((cells x).prev ≡ p) × ((cells x).next ≡ first xs n) × IsChain cells (some x) xs n

pub IsChain-append :
    (cells : Cells) (p : Option Address) (xs ys : List Address) (n : Option Address)
    → IsChain cells p xs (first ys n)
    → IsChain cells (last p xs) ys n
    → IsChain cells p (xs ++ ys) n
IsChain-append cells p [] ys n a b = b
IsChain-append cells p (x ∷ []) ys n a b = (a.0, a.1, b)
IsChain-append cells p (x ∷ (y ∷ xs)) ys n a b =
    (a.0, a.1, IsChain-append cells (some x) (y ∷ xs) ys n a.2 b)

pub IsChain-parts :
    (cells : Cells) (p : Option Address) (xs ys : List Address) (n : Option Address)
    → IsChain cells p (xs ++ ys) n
    → IsChain cells p xs (first ys n) × IsChain cells (last p xs) ys n
IsChain-parts cells p [] ys n h = (tt, h)
IsChain-parts cells p (x ∷ []) ys n h = ((h.0, h.1, tt), h.2)
IsChain-parts cells p (x ∷ (y ∷ xs)) ys n h =
    let (a, b) = IsChain-parts cells (some x) (y ∷ xs) ys n h.2 in ((h.0, h.1, a), b)

-- A write to another node leaves a chain alone.
pub IsChain-put_cell :
    (cells : Cells) (at : Address) (c : Cell) (p : Option Address) (xs : List Address)
    (n : Option Address)
    → elem at xs ≡ false
    → IsChain cells p xs n
    → IsChain (put_cell at c cells) p xs n
IsChain-put_cell cells at c p [] n e h = tt
IsChain-put_cell cells at c p (x ∷ xs) n e h =
    let other : (x == at) ≡ false = ground (arith, e) in
    (
      rw (other) h.0,
      rw (other) h.1,
      IsChain-put_cell cells at c (some x) xs n (ground (arith, e)) h.2,
    )

pub self : (a : Address) → (a == a) ≡ true
self a = ground arith

-- The first node is pointed back to `q`.
IsChain-set_prev :
    (cells : Cells) (p q : Option Address) (x : Address) (xs : List Address) (n : Option Address)
    → AllDiffer (x ∷ xs)
    → IsChain cells p (x ∷ xs) n
    → IsChain (set_prev x q cells) q (x ∷ xs) n
IsChain-set_prev cells p q x xs n d h =
    (rw (self x) refl, rw (self x) h.1, IsChain-put_cell cells x _ (some x) xs n d.0 h.2)

pub last-elem :
    (y : Address) (xs : List Address) (z : Address)
    → last (some y) xs ≡ some z
    → elem z (y ∷ xs) ≡ true
last-elem y [] z e = let is : y ≡ z = cc in ground (arith, is)
last-elem y (x ∷ xs) z e = ground (arith, last-elem x xs z e)

apart :
    (x z : Address) (ys : List Address) → elem x ys ≡ false → elem z ys ≡ true → (x == z) ≡ false
apart x z ys h k = elim (Bool-cases (x == z)) [
  | inr e ↦ e
  | inl e ↦ absurd (clash (sym k ∙ ap (λ w. elem w ys) (sym ((==_iff x z).0 e)) ∙ h))
]
  where
    clash : true ≡ false → ⊥
    clash e = cc

-- The last node is pointed on to `m`.
IsChain-set_next :
    (cells : Cells) (p : Option Address) (x : Address) (xs : List Address) (z : Address)
    (n m : Option Address)
    → AllDiffer (x ∷ xs)
    → last (some x) xs ≡ some z
    → IsChain cells p (x ∷ xs) n
    → IsChain (set_next z m cells) p (x ∷ xs) m
IsChain-set_next cells p x [] z n m d e h =
    let is : x ≡ z = cc in
    subst (λ w. IsChain (set_next w m cells) p (x ∷ []) m) is
      (rw (self x) h.0, rw (self x) refl, tt)
IsChain-set_next cells p x (y ∷ xs) z n m d e h =
    let other = apart x z (y ∷ xs) d.0 (last-elem y xs z e) in
    (rw (other) h.0, rw (other) h.1, IsChain-set_next cells (some x) y xs z n m d.1 e h.2)

last-some : (x : Address) (xs : List Address) → last (some x) xs ≡ none → ⊥
last-some x [] e = cc
last-some x (y ∷ xs) e = last-some y xs e

-- A list up to a place, and from a place on.
abbrev pub IsFront : LinkedList → List Address → Option Address → Type 0
IsFront l xs n = (l.head ≡ first xs n) × IsChain l.cells none xs n

abbrev pub IsBack : LinkedList → Option Address → List Address → Type 0
IsBack l p ys = (l.tail ≡ last p ys) × IsChain l.cells p ys none

-- The front is pointed on to `m`, and the back is pointed back to `q`.
pub fore_to-IsFront :
    (l : LinkedList) (xs : List Address) (n m : Option Address)
    → AllDiffer xs
    → IsFront l xs n
    → IsFront (fore_to (last none xs) m l) xs m
unfolding fore_to
fore_to-IsFront l [] n m d h = (refl, tt)
fore_to-IsFront l (x ∷ xs) n m d h = turned (last (some x) xs) refl
  where
    turned : (z : Option Address) → last (some x) xs ≡ z → IsFront (fore_to z m l) (x ∷ xs) m
    turned none e = absurd (last-some x xs e)
    turned (some z) e = (h.0, IsChain-set_next l.cells none x xs z n m d e h.1)

pub back_to-IsBack :
    (l : LinkedList) (ys : List Address) (p q : Option Address)
    → AllDiffer ys
    → IsBack l p ys
    → IsBack (back_to (first ys none) q l) q ys
unfolding back_to
back_to-IsBack l [] p q d h = (refl, tt)
back_to-IsBack l (y ∷ ys) p q d h = (h.0, IsChain-set_prev l.cells p q y ys none d h.1)

-- A write through a pointer to no node of a chain leaves the chain alone.
pub fore_to-IsChain :
    (l : LinkedList) (z m p : Option Address) (ys : List Address) (n : Option Address)
    → ((a : Address) → z ≡ some a → elem a ys ≡ false)
    → IsChain l.cells p ys n
    → IsChain (fore_to z m l).cells p ys n
unfolding fore_to
fore_to-IsChain l none m p ys n e h = h
fore_to-IsChain l (some a) m p ys n e h = IsChain-put_cell l.cells a _ p ys n (e a refl) h

pub back_to-IsChain :
    (l : LinkedList) (z q p : Option Address) (ys : List Address) (n : Option Address)
    → ((a : Address) → z ≡ some a → elem a ys ≡ false)
    → IsChain l.cells p ys n
    → IsChain (back_to z q l).cells p ys n
unfolding back_to
back_to-IsChain l none q p ys n e h = h
back_to-IsChain l (some a) q p ys n e h = IsChain-put_cell l.cells a _ p ys n (e a refl) h

-- What the two writes do not touch.
pub fore_to_rest :
    (l : LinkedList) (z m : Option Address)
    → ((fore_to z m l).tail ≡ l.tail) × ((fore_to z m l).count ≡ l.count)
unfolding fore_to
fore_to_rest l none m = (refl, refl)
fore_to_rest l (some a) m = (refl, refl)

pub back_to_rest :
    (l : LinkedList) (z q : Option Address)
    → ((back_to z q l).head ≡ l.head) × ((back_to z q l).count ≡ l.count)
unfolding back_to
back_to_rest l none q = (refl, refl)
back_to_rest l (some a) q = (refl, refl)

-- No pointer write touches what a node holds.
pub fore_to-content :
    (l : LinkedList) (z m : Option Address) (a : Address)
    → ((fore_to z m l).cells a).content ≡ (l.cells a).content
unfolding fore_to
fore_to-content l none m a = refl
fore_to-content l (some b) m a = ground arith

pub back_to-content :
    (l : LinkedList) (z q : Option Address) (a : Address)
    → ((back_to z q l).cells a).content ≡ (l.cells a).content
unfolding back_to
back_to-content l none q a = refl
back_to-content l (some b) q a = ground arith
