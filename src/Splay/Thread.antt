-- ===== src/Splay/Thread.antt =====
-- The linked list of src/splay_tree.c: what linking in and linking out does around a node.
use tinc.Base.{
  ℕ, ◌≡◌, refl, ap, ◌⊎◌, inl, inr, true, false, Option, none, some, List, [], ◌∷◌, ◌++◌, ◌==◌,
  Bool-cases, ==_iff, arith,
}
use tinc.Splay.{SplayNode}
use tinc.Splay.BottomUp.{has_id, has_id-append}
use tinc.Splay.State.{prev_of, next_of, head_of, tail_of, link_before, link_after, link_out}

module _ {A : Type 0} where
  -- No two nodes have the same address.
  abbrev pub IsDistinct : List (SplayNode A) → Type 0
  IsDistinct [] = Unit
  IsDistinct (x ∷ xs) = (has_id x.id xs ≡ false) × IsDistinct xs

  pub IsDistinct-parts :
      (xs ys : List (SplayNode A)) → IsDistinct (xs ++ ys) → IsDistinct xs × IsDistinct ys
  IsDistinct-parts [] ys d = (tt, d)
  IsDistinct-parts (x ∷ xs) ys d =
      let (a, b) = IsDistinct-parts xs ys d.1 in
      ((ground (arith, has_id-append x.id xs ys, d.0), a), b)

  -- A node is not in front of itself.
  pub IsDistinct-front :
      (xs : List (SplayNode A)) (x : SplayNode A) (ys : List (SplayNode A))
      → IsDistinct (xs ++ (x ∷ ys))
      → has_id x.id xs ≡ false
  unfolding has_id
  IsDistinct-front [] x ys d = refl
  IsDistinct-front (z ∷ xs) x ys d =
      ground (arith, has_id-append z.id xs (x ∷ ys), d.0, IsDistinct-front xs x ys d.1)

  -- What stands in the rear does not stand in front.
  pub IsDistinct-apart :
      (at : ℕ) (xs ys : List (SplayNode A))
      → has_id at ys ≡ true
      → IsDistinct (xs ++ ys)
      → has_id at xs ≡ false
  unfolding has_id
  IsDistinct-apart at [] ys h d = refl
  IsDistinct-apart at (z ∷ xs) ys h d =
      ground (arith, has_id-append z.id xs ys, h, d.0, IsDistinct-apart at xs ys h d.1)

  pub IsDistinct-out :
      (xs : List (SplayNode A)) (x : SplayNode A) (ys : List (SplayNode A))
      → IsDistinct (xs ++ (x ∷ ys))
      → IsDistinct (xs ++ ys)
  unfolding has_id
  IsDistinct-out [] x ys d = d.1
  IsDistinct-out (z ∷ xs) x ys d = (
    ground (arith, has_id-append z.id xs (x ∷ ys), has_id-append z.id xs ys, d.0),
    IsDistinct-out xs x ys d.1,
  )

  pub IsDistinct-in :
      (xs : List (SplayNode A)) (n : SplayNode A) (ys : List (SplayNode A))
      → IsDistinct (xs ++ ys)
      → has_id n.id (xs ++ ys) ≡ false
      → IsDistinct (xs ++ (n ∷ ys))
  unfolding has_id
  IsDistinct-in [] n ys d h = (h, d)
  IsDistinct-in (z ∷ xs) n ys d h = (
    ground (arith, has_id-append z.id xs (n ∷ ys), has_id-append z.id xs ys, d.0),
    IsDistinct-in xs n ys d.1 (ground (arith, h)),
  )

  -- A node that is in the list, with what stands in front of it and behind it.
  pub split_at :
      (at : ℕ) (xs : List (SplayNode A))
      → has_id at xs ≡ true
      → (front : List (SplayNode A)) × (x : SplayNode A) × (back : List (SplayNode A)) × (xs
          ≡ front ++ (x ∷ back))
        × (x.id ≡ at)
  unfolding has_id
  split_at at [] h = cc
  split_at at (x ∷ xs) h = elim (Bool-cases (x.id == at)) [
    | inl e ↦ ([], x, xs, refl, (==_iff x.id at).0 e)
    | inr e ↦
        let (front, z, back, all, is) = split_at at xs (rw e at h) in
        (x ∷ front, z, back, ap (λ l. x ∷ l) all, is)
  ]

  -- Each operation at a node that has no other of its address in front of it.
  module _ (x n : SplayNode A) (back : List (SplayNode A)) where
    pub link_before_at :
        (front : List (SplayNode A))
        → has_id x.id front ≡ false
        → link_before x.id n (front ++ (x ∷ back)) ≡ front ++ (n ∷ (x ∷ back))
    unfolding link_before has_id
    link_before_at [] h = ground arith
    link_before_at (z ∷ front) h = ground (arith, link_before_at front)

    pub link_after_at :
        (front : List (SplayNode A))
        → has_id x.id front ≡ false
        → link_after x.id n (front ++ (x ∷ back)) ≡ front ++ (x ∷ (n ∷ back))
    unfolding link_after has_id
    link_after_at [] h = ground arith
    link_after_at (z ∷ front) h = ground (arith, link_after_at front)

  module _ (x : SplayNode A) (back : List (SplayNode A)) where
    pub link_out_at :
        (front : List (SplayNode A))
        → has_id x.id front ≡ false
        → link_out x.id (front ++ (x ∷ back)) ≡ front ++ back
    unfolding link_out has_id
    link_out_at [] h = ground arith
    link_out_at (z ∷ front) h = ground (arith, link_out_at front)

    pub prev_of_at :
        (last : Option (SplayNode A)) (front : List (SplayNode A))
        → has_id x.id front ≡ false
        → prev_of x.id last (front ++ (x ∷ back)) ≡ tail_of last front
    unfolding prev_of tail_of has_id
    prev_of_at last [] h = ground arith
    prev_of_at last (z ∷ front) h = ground (arith, prev_of_at (some z) front)

    pub next_of_at :
        (front : List (SplayNode A))
        → has_id x.id front ≡ false
        → next_of x.id (front ++ (x ∷ back)) ≡ head_of back
    unfolding next_of has_id
    next_of_at [] h = ground arith
    next_of_at (z ∷ front) h = ground (arith, next_of_at front)

  pub tail_of-append :
      (last : Option (SplayNode A)) (xs ys : List (SplayNode A))
      → tail_of last (xs ++ ys) ≡ tail_of (tail_of last xs) ys
  unfolding tail_of
  tail_of-append last [] ys = refl
  tail_of-append last (x ∷ xs) ys = tail_of-append (some x) xs ys

  -- The last of a list with a head is the head, or the last of the rest.
  pub tail_of_cases :
      (x : SplayNode A) (ys : List (SplayNode A)) (p : SplayNode A)
      → tail_of (some x) ys ≡ some p
      → ((ys ≡ []) × (x ≡ p)) ⊎ ((tail_of none ys ≡ some p) × (has_id p.id ys ≡ true))
  unfolding tail_of has_id
  tail_of_cases x [] p h = inl (refl, cc)
  tail_of_cases x (y ∷ ys) p h = elim (tail_of_cases y ys p h) [
    | inl (e, is) ↦ inr (h, ground (arith, ap (λ z. z.id) is))
    | inr (a, b) ↦ inr (h, ground (arith, b))
  ]
