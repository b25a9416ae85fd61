-- ===== src/Splay/Order.antt =====
-- What src/splay_tree.c relies on of a comparison function, and what its operations do to a list
-- that stands in that order: the reference for the tree.
use Prim.Native.Nat.{Ordering}
use Prim.Native.Nat.Ordering.{lt, eq, gt}
use tinc.Base.{◌≡◌, ◌≢◌, refl, ap, Option, none, some, List, [], ◌∷◌, ◌++◌, arith}
use tinc.Splay.{SplayNode}
use tinc.Splay.Sides.{AllOn, IsMonotone}
use tinc.Splay.State.{side_of, head_of, tail_of}

-- `splay_compare_t`, by the sign of its result.
pub record Order (A : Type 0) : Type 0 where
  pub compare : A → A → Ordering
  pub lt_of_gt : (x y : A) → compare x y ≡ gt → compare y x ≡ lt
  pub lt_of_le_lt : (x y z : A) → compare x y ≢ gt → compare y z ≡ lt → compare x z ≡ lt

module _ {A : Type 0} (o : Order A) where
  -- Each node is less than those behind it.
  abbrev pub IsSorted : List (SplayNode A) → Type 0
  IsSorted [] = Unit
  IsSorted (x ∷ xs) = AllOn (side_of o.compare x.content) lt xs × IsSorted xs

  -- The node of equal content, the last that is not greater, and the first that is not less.
  unfoldable pub find_equal : A → List (SplayNode A) → Option (SplayNode A)
  find_equal c [] = none
  find_equal c (x ∷ xs) = elim (o.compare c x.content) [ eq ↦ some x | _ ↦ find_equal c xs ]

  unfoldable pub last_upto : A → Option (SplayNode A) → List (SplayNode A) → Option (SplayNode A)
  last_upto c last [] = last
  last_upto c last (x ∷ xs) = elim (o.compare c x.content) [
    | lt ↦ last
    | _ ↦ last_upto c (some x) xs
  ]

  unfoldable pub first_from : A → List (SplayNode A) → Option (SplayNode A)
  first_from c [] = none
  first_from c (x ∷ xs) = elim (o.compare c x.content) [ gt ↦ first_from c xs | _ ↦ some x ]

  -- Insertion in order, unless there is an equal node, and removal of the equal node.
  unfoldable pub ordered_insert : SplayNode A → List (SplayNode A) → List (SplayNode A)
  ordered_insert n [] = n ∷ []
  ordered_insert n (x ∷ xs) = elim (o.compare n.content x.content) [
    | lt ↦ n ∷ (x ∷ xs)
    | eq ↦ x ∷ xs
    | gt ↦ x ∷ ordered_insert n xs
  ]

  unfoldable pub without_equal : A → List (SplayNode A) → List (SplayNode A)
  without_equal c [] = []
  without_equal c (x ∷ xs) = elim (o.compare c x.content) [ eq ↦ xs | _ ↦ x ∷ without_equal c xs ]

  lt_behind :
      (c : A) (x : SplayNode A) (xs : List (SplayNode A))
      → o.compare c x.content ≢ gt
      → AllOn (side_of o.compare x.content) lt xs
      → AllOn (side_of o.compare c) lt xs
  lt_behind c x [] h a = tt
  lt_behind c x (y ∷ xs) h a = (o.lt_of_le_lt c x.content y.content h a.0, lt_behind c x xs h a.1)

  -- A sorted list stands in the order of any data.
  pub IsSorted-IsMonotone :
      (c : A) (xs : List (SplayNode A)) → IsSorted xs → IsMonotone (side_of o.compare c) xs
  IsSorted-IsMonotone c [] s = tt
  IsSorted-IsMonotone c (x ∷ xs) s = ((λ h. lt_behind c x xs h s.0), IsSorted-IsMonotone c xs s.1)

  -- The operations at the place of the data, in front of which it is greater than each node and
  -- behind which it is less.
  module _ (c : A) where
    pub find_equal_back :
        (xs : List (SplayNode A)) → AllOn (side_of o.compare c) lt xs → find_equal c xs ≡ none
    unfolding find_equal
    find_equal_back [] a = refl
    find_equal_back (x ∷ xs) a = rw (a.0, find_equal) (find_equal_back xs a.1)

    pub find_equal_at :
        (front xs : List (SplayNode A))
        → AllOn (side_of o.compare c) gt front
        → find_equal c (front ++ xs) ≡ find_equal c xs
    unfolding find_equal
    find_equal_at [] xs a = refl
    find_equal_at (x ∷ front) xs a = rw (a.0) (find_equal_at front xs a.1)

    pub last_upto_at :
        (last : Option (SplayNode A)) (front xs : List (SplayNode A))
        → AllOn (side_of o.compare c) gt front
        → last_upto c last (front ++ xs) ≡ last_upto c (tail_of last front) xs
    unfolding last_upto tail_of
    last_upto_at last [] xs a = refl
    last_upto_at last (x ∷ front) xs a = rw (a.0) (last_upto_at (some x) front xs a.1)

    pub first_from_at :
        (front xs : List (SplayNode A))
        → AllOn (side_of o.compare c) gt front
        → first_from c (front ++ xs) ≡ first_from c xs
    unfolding first_from
    first_from_at [] xs a = refl
    first_from_at (x ∷ front) xs a = rw (a.0) (first_from_at front xs a.1)

    pub last_upto_back :
        (last : Option (SplayNode A)) (xs : List (SplayNode A))
        → AllOn (side_of o.compare c) lt xs
        → last_upto c last xs ≡ last
    unfolding last_upto
    last_upto_back last [] a = refl
    last_upto_back last (x ∷ xs) a = rw (a.0, last_upto) refl

    pub first_from_back :
        (xs : List (SplayNode A)) → AllOn (side_of o.compare c) lt xs → first_from c xs ≡ head_of xs
    unfolding first_from head_of
    first_from_back [] a = refl
    first_from_back (x ∷ xs) a = rw (a.0, first_from) refl

    pub without_equal_back :
        (xs : List (SplayNode A)) → AllOn (side_of o.compare c) lt xs → without_equal c xs ≡ xs
    unfolding without_equal
    without_equal_back [] a = refl
    without_equal_back (x ∷ xs) a =
        rw (a.0, without_equal) (ap (λ l. x ∷ l) (without_equal_back xs a.1))

    pub without_equal_at :
        (front xs : List (SplayNode A))
        → AllOn (side_of o.compare c) gt front
        → without_equal c (front ++ xs) ≡ front ++ without_equal c xs
    unfolding without_equal
    without_equal_at [] xs a = refl
    without_equal_at (x ∷ front) xs a = rw (a.0) (ap (λ l. x ∷ l) (without_equal_at front xs a.1))

  pub ordered_insert_at :
      (n : SplayNode A) (front xs : List (SplayNode A))
      → AllOn (side_of o.compare n.content) gt front
      → ordered_insert n (front ++ xs) ≡ front ++ ordered_insert n xs
  unfolding ordered_insert
  ordered_insert_at n [] xs a = refl
  ordered_insert_at n (x ∷ front) xs a =
      rw (a.0) (ap (λ l. x ∷ l) (ordered_insert_at n front xs a.1))

  pub ordered_insert_back :
      (n : SplayNode A) (xs : List (SplayNode A))
      → AllOn (side_of o.compare n.content) lt xs
      → ordered_insert n xs ≡ n ∷ xs
  unfolding ordered_insert
  ordered_insert_back n [] a = refl
  ordered_insert_back n (x ∷ xs) a = rw (a.0, ordered_insert) refl

  -- Insertion and removal keep a list sorted.
  AllOn-ordered_insert :
      (c : A) (n : SplayNode A) (xs : List (SplayNode A))
      → o.compare c n.content ≡ lt
      → AllOn (side_of o.compare c) lt xs
      → AllOn (side_of o.compare c) lt (ordered_insert n xs)
  unfolding ordered_insert
  AllOn-ordered_insert c n [] h a = (h, tt)
  AllOn-ordered_insert c n (x ∷ xs) h a = ground (arith, AllOn-ordered_insert c n xs h a.1)

  pub ordered_insert-IsSorted :
      (n : SplayNode A) (xs : List (SplayNode A)) → IsSorted xs → IsSorted (ordered_insert n xs)
  unfolding ordered_insert
  ordered_insert-IsSorted n [] s = (tt, tt)
  ordered_insert-IsSorted n (x ∷ xs) s = ground (
    arith,
    lt_behind n.content x xs,
    o.lt_of_gt n.content x.content,
    AllOn-ordered_insert x.content n xs,
    ordered_insert-IsSorted n xs,
  )

  AllOn-without_equal :
      (c d : A) (xs : List (SplayNode A))
      → AllOn (side_of o.compare d) lt xs
      → AllOn (side_of o.compare d) lt (without_equal c xs)
  unfolding without_equal
  AllOn-without_equal c d [] a = tt
  AllOn-without_equal c d (x ∷ xs) a = ground (arith, AllOn-without_equal c d xs a.1)

  pub without_equal-IsSorted :
      (c : A) (xs : List (SplayNode A)) → IsSorted xs → IsSorted (without_equal c xs)
  unfolding without_equal
  without_equal-IsSorted c [] s = tt
  without_equal-IsSorted c (x ∷ xs) s =
      ground (arith, AllOn-without_equal c x.content xs s.0, without_equal-IsSorted c xs s.1)
