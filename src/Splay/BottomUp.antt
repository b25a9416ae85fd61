-- ===== src/Splay/BottomUp.antt =====
-- `splay_bottom_up` of src/splay_tree.c: the root and the order of what it leaves.
use mathlib.Core.List.{append_assoc}
use tinc.Base.{
  ℕ, ◌≡◌, refl, ap, ◌∙◌, Bool, true, false, ◌||◌, Option, none, some, List, [], ◌∷◌, ◌++◌, ◌==◌,
  inl, inr, Bool-cases, ==_iff, arith,
}
use tinc.Splay.{
  SplayNode, Tree, leaf, node, Step, onleft, onright, flatten, climb, locate, splay_bottom_up,
}

module _ {A : Type 0} where
  -- The tree has this root address and, in order, these nodes.
  abbrev pub IsRooted : ℕ → List (SplayNode A) → Tree A → Type 0
  IsRooted at xs leaf = ⊥
  IsRooted at xs (node l x r) = (x.id ≡ at) × (flatten l ++ (x ∷ flatten r) ≡ xs)

  -- A node with this address is among the nodes.
  unfoldable pub has_id : ℕ → List (SplayNode A) → Bool
  has_id at [] = false
  has_id at (x ∷ xs) = (x.id == at) || has_id at xs

  pub has_id-append :
      (at : ℕ) (xs ys : List (SplayNode A)) → has_id at (xs ++ ys) ≡ (has_id at xs || has_id at ys)
  unfolding has_id
  has_id-append at [] ys = refl
  has_id-append at (x ∷ xs) ys = ground (arith, has_id-append at xs ys)

  -- The nodes around a subtree, by the steps to it.
  around : List (SplayNode A) → List (Step A) → List (SplayNode A)
  around xs [] = xs
  around xs (onleft p r ∷ steps) = around (xs ++ (p ∷ flatten r)) steps
  around xs (onright l p ∷ steps) = around (flatten l ++ (p ∷ xs)) steps

  IsRooted-change :
      (t : Tree A) (at to : ℕ) (xs ys : List (SplayNode A))
      → at ≡ to
      → xs ≡ ys
      → IsRooted at xs t
      → IsRooted to ys t
  IsRooted-change leaf at to xs ys d e h = h
  IsRooted-change (node l x r) at to xs ys d e h = (h.0 ∙ d, h.1 ∙ e)

  climb-IsRooted :
      (l : Tree A) (x : SplayNode A) (r : Tree A) (steps : List (Step A))
      → IsRooted x.id (around (flatten l ++ (x ∷ flatten r)) steps) (climb l x r steps)
  unfolding climb around flatten
  climb-IsRooted l x r [] = (refl, refl)
  climb-IsRooted l x r (onleft p pr ∷ []) = (refl, simp append_assoc)
  climb-IsRooted l x r (onright pl p ∷ []) = (refl, simp append_assoc)
  climb-IsRooted l x r (onleft p pr ∷ (onleft g gr ∷ steps)) =
      IsRooted-change _ _ _ _ _ refl (ap (λ xs. around xs steps) (simp append_assoc))
        (climb-IsRooted l x (node r p (node pr g gr)) steps)
  climb-IsRooted l x r (onright pl p ∷ (onright gl g ∷ steps)) =
      IsRooted-change _ _ _ _ _ refl (ap (λ xs. around xs steps) (simp append_assoc))
        (climb-IsRooted (node (node gl g pl) p l) x r steps)
  climb-IsRooted l x r (onright pl p ∷ (onleft g gr ∷ steps)) =
      IsRooted-change _ _ _ _ _ refl (ap (λ xs. around xs steps) (simp append_assoc))
        (climb-IsRooted (node pl p l) x (node r g gr) steps)
  climb-IsRooted l x r (onleft p pr ∷ (onright gl g ∷ steps)) =
      IsRooted-change _ _ _ _ _ refl (ap (λ xs. around xs steps) (simp append_assoc))
        (climb-IsRooted (node gl g l) x (node r p pr) steps)

  -- What the walk finds is the node, with the nodes of the whole tree around it; it finds nothing
  -- only where there is no such node.
  abbrev Finds :
      ℕ
      → List (SplayNode A)
      → List (SplayNode A)
      → Option (Tree A × SplayNode A × Tree A × List (Step A))
      → Type 0
  Finds at all xs none = has_id at xs ≡ false
  Finds at all xs (some (l, x, r, steps)) =
      (x.id ≡ at) × (around (flatten l ++ (x ∷ flatten r)) steps ≡ all)

  pick-Finds :
      (at : ℕ) (all xs ys : List (SplayNode A)) (x : SplayNode A)
      (a b : Option (Tree A × SplayNode A × Tree A × List (Step A)))
      → (x.id == at) ≡ false
      → Finds at all xs a
      → Finds at all ys b
      → Finds at all (xs ++ (x ∷ ys)) (elim a [ some w ↦ some w | none ↦ b ])
  unfolding has_id
  pick-Finds at all xs ys x none none e p q = has_id-append at xs (x ∷ ys) ∙ ground arith
  pick-Finds at all xs ys x none (some w) e p q = q
  pick-Finds at all xs ys x (some w) b e p q = p

  locate-Finds :
      (at : ℕ) (steps : List (Step A)) (t : Tree A)
      → Finds at (around (flatten t) steps) (flatten t) (locate at steps t)
  unfolding has_id flatten locate around
  locate-Finds at steps leaf = refl
  locate-Finds at steps (node l x r) = elim (Bool-cases (x.id == at)) [
    | inl e ↦ rw e ((==_iff x.id at).0 e, refl)
    | inr e ↦ rw e (
        pick-Finds at _ (flatten l) (flatten r) x _ _ e (locate-Finds at (onleft x r ∷ steps) l)
          (locate-Finds at (onright l x ∷ steps) r))
  ]

  -- Splaying from the bottom brings the node to the root and leaves the order of the nodes as it
  -- was, if the node is in the tree.
  pub splay_bottom_up-IsRooted :
      (at : ℕ) (t : Tree A)
      → has_id at (flatten t) ≡ true
      → IsRooted at (flatten t) (splay_bottom_up at t)
  unfolding splay_bottom_up around
  splay_bottom_up-IsRooted at t h = raise at t h (locate at [] t) (locate-Finds at [] t)
    where
      raise :
          (at : ℕ) (t : Tree A)
          → has_id at (flatten t) ≡ true
          → (o : Option (Tree A × SplayNode A × Tree A × List (Step A)))
          → Finds at (flatten t) (flatten t) o
          → IsRooted at
              (flatten t)
              (elim o [ none ↦ t | some (l, x, r, steps) ↦ climb l x r steps ])
      raise at t h none found = absurd (ground arith)
      raise at t h (some (l, x, r, steps)) found =
          IsRooted-change _ _ _ _ _ found.0 found.1 (climb-IsRooted l x r steps)
