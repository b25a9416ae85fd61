-- ===== src/Splay/Sides.antt =====
-- The order that a comparison function of src/splay_tree.c gives the nodes, seen from the data of
-- one search: greater than the first ones, less than the last ones.
use Prim.Native.Nat.{Ordering}
use Prim.Native.Nat.Ordering.{lt, eq, gt}
use tinc.Base.{◌≡◌, ◌≢◌, ◌⊎◌, inl, inr, refl, true, List, [], ◌∷◌, ◌++◌}
use tinc.Splay.{SplayNode, Tree, leaf, node, flatten, is_leaf}

gt_cases : (c : Ordering) → (c ≡ gt) ⊎ (c ≢ gt)
gt_cases lt = inr (λ e. cc)
gt_cases eq = inr (λ e. cc)
gt_cases gt = inl refl

module _ {A : Type 0} where
  -- The data lies on this side of every node.
  abbrev pub AllOn : (SplayNode A → Ordering) → Ordering → List (SplayNode A) → Type 0
  AllOn side c [] = Unit
  AllOn side c (x ∷ xs) = (side x ≡ c) × AllOn side c xs

  -- Behind a node that the data is not greater than, it is less than each node.
  abbrev pub IsMonotone : (SplayNode A → Ordering) → List (SplayNode A) → Type 0
  IsMonotone side [] = Unit
  IsMonotone side (x ∷ xs) = (side x ≢ gt → AllOn side lt xs) × IsMonotone side xs

  pub AllOn-append :
      (side : SplayNode A → Ordering) (c : Ordering) (xs ys : List (SplayNode A))
      → AllOn side c xs
      → AllOn side c ys
      → AllOn side c (xs ++ ys)
  AllOn-append side c [] ys p q = q
  AllOn-append side c (x ∷ xs) ys p q = (p.0, AllOn-append side c xs ys p.1 q)

  pub AllOn-parts :
      (side : SplayNode A → Ordering) (c : Ordering) (xs ys : List (SplayNode A))
      → AllOn side c (xs ++ ys)
      → AllOn side c xs × AllOn side c ys
  AllOn-parts side c [] ys p = (tt, p)
  AllOn-parts side c (x ∷ xs) ys p = let (a, b) = AllOn-parts side c xs ys p.1 in ((p.0, a), b)

  pub IsMonotone-parts :
      (side : SplayNode A → Ordering) (xs ys : List (SplayNode A))
      → IsMonotone side (xs ++ ys)
      → IsMonotone side xs × IsMonotone side ys
  IsMonotone-parts side [] ys m = (tt, m)
  IsMonotone-parts side (x ∷ xs) ys m =
      let (a, b) = IsMonotone-parts side xs ys m.1 in
      ((λ h. (AllOn-parts side lt xs ys (m.0 h)).0, a), b)

  -- In front of a node that the data is not less than, it is greater than each node.
  pub IsMonotone-front :
      (side : SplayNode A → Ordering) (xs : List (SplayNode A)) (x : SplayNode A)
      (ys : List (SplayNode A))
      → IsMonotone side (xs ++ (x ∷ ys))
      → side x ≢ lt
      → AllOn side gt xs
  IsMonotone-front side [] x ys m h = tt
  IsMonotone-front side (z ∷ xs) x ys m h = (
    elim (gt_cases (side z)) [
      | inl e ↦ e
      | inr ne ↦ absurd (h (AllOn-parts side lt xs (x ∷ ys) (m.0 ne)).1.0)
    ],
    IsMonotone-front side xs x ys m.1 h,
  )

  pub is_leaf-AllOn :
      (side : SplayNode A → Ordering) (c : Ordering) (t : Tree A)
      → is_leaf t ≡ true
      → AllOn side c (flatten t)
  unfolding is_leaf flatten
  is_leaf-AllOn side c leaf h = tt
  is_leaf-AllOn side c (node l x r) h = cc

  -- What the place of a node says of the two subtrees beside it.
  pub low_side :
      (side : SplayNode A → Ordering) (l : Tree A) (x : SplayNode A) (r : Tree A)
      → IsMonotone side (flatten (node l x r))
      → side x ≢ gt
      → AllOn side lt (flatten r)
  unfolding flatten
  low_side side l x r m h = (IsMonotone-parts side (flatten l) (x ∷ flatten r) m).1.0 h

  pub high_side :
      (side : SplayNode A → Ordering) (l : Tree A) (x : SplayNode A) (r : Tree A)
      → IsMonotone side (flatten (node l x r))
      → side x ≢ lt
      → AllOn side gt (flatten l)
  unfolding flatten
  high_side side l x r m h = IsMonotone-front side (flatten l) x (flatten r) m h

  pub subtrees :
      (side : SplayNode A → Ordering) (l : Tree A) (x : SplayNode A) (r : Tree A)
      → IsMonotone side (flatten (node l x r))
      → IsMonotone side (flatten l) × IsMonotone side (flatten r)
  unfolding flatten
  subtrees side l x r m =
      let (a, b) = IsMonotone-parts side (flatten l) (x ∷ flatten r) m in (a, b.1)
