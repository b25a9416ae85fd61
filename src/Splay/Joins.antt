-- ===== src/Splay/Joins.antt =====
-- The nodes of the trees that src/splay_tree.c hangs from a new root, or leaves behind without one.
use mathlib.Core.List.{append_assoc}
use tinc.Base.{
  ℕ, ◌≡◌, refl, sym, ap, ◌∙◌, inl, inr, true, false, none, some, List, [], ◌∷◌, ◌++◌, ◌==◌,
  Bool-cases, Option-cases, ==_iff, arith,
}
use tinc.Splay.{SplayNode, Tree, leaf, node, flatten}
use tinc.Splay.BottomUp.{IsRooted, has_id, has_id-append}
use tinc.Splay.State.{
  prev_of, next_of, head_of, tail_of, link_before, link_after, link_out, set_right, root_before,
  root_after, root_without,
}
use tinc.Splay.Thread.{
  IsDistinct, IsDistinct-parts, IsDistinct-front, IsDistinct-apart, link_before_at, link_after_at,
  link_out_at, prev_of_at, next_of_at, tail_of-append, tail_of_cases,
}

module _ {A : Type 0} where
  -- `node->right = t` for a node that is not there.
  set_right_absent : (at : ℕ) (t l : Tree A) → has_id at (flatten l) ≡ false → set_right at t l ≡ l
  unfolding set_right flatten has_id
  set_right_absent at t leaf h = refl
  set_right_absent at t (node l x r) h =
      let parts = has_id-append at (flatten l) (x ∷ flatten r) in
      ground (arith, parts, set_right_absent at t l, set_right_absent at t r)

  -- The address of a node behind another is another one.
  other :
      (at : ℕ) (x : SplayNode A) (ys : List (SplayNode A))
      → has_id at ys ≡ true
      → has_id x.id ys ≡ false
      → (x.id == at) ≡ false
  other at x ys has lacks = elim (Bool-cases (x.id == at)) [
    | inr e ↦ e
    | inl e ↦
        absurd (no_bool (sym has ∙ ap (λ i. has_id i ys) (sym ((==_iff x.id at).0 e)) ∙ lacks))
  ]
    where
      no_bool : true ≡ false → ⊥
      no_bool e = cc

  -- A tree hung to the right of the last node of another comes behind it.
  set_right_last :
      (p : SplayNode A) (t l : Tree A)
      → tail_of none (flatten l) ≡ some p
      → IsDistinct (flatten l)
      → flatten (set_right p.id t l) ≡ flatten l ++ flatten t
  unfolding set_right flatten tail_of has_id
  set_right_last p t leaf h d = cc
  set_right_last p t (node l x r) h d =
      elim (tail_of_cases x (flatten r) p
        (sym (tail_of-append none (flatten l) (x ∷ flatten r)) ∙ h)) [
          | inl (e, is) ↦
              let same : (x.id == p.id) ≡ true = ground (arith, ap (λ z. z.id) is) in
              rw (same, e) (sym (append_assoc (flatten l) (x ∷ []) (flatten t)))
          | inr (last, has) ↦
              let parts = IsDistinct-parts (flatten l) (x ∷ flatten r) d in
              let absent =
                IsDistinct-apart p.id (flatten l) (x ∷ flatten r) (ground (arith, has)) d in
              rw
                (
                  other p.id x (flatten r) has parts.1.0,
                  set_right_absent p.id t l absent,
                  set_right_last p t r last parts.1.1,
                )
                (sym (append_assoc (flatten l) (x ∷ flatten r) (flatten t)))
        ]

  pub root_before-flatten :
      (n : SplayNode A) (at : ℕ) (xs : List (SplayNode A)) (t : Tree A)
      → IsRooted at xs t
      → IsDistinct xs
      → flatten (root_before n t) ≡ link_before at n xs
  unfolding root_before flatten
  root_before-flatten n at xs (node l x r) (is, all) d =
      let front = IsDistinct-front (flatten l) x (flatten r) (rw (sym all) at d) in
      rw (sym all, sym is) (sym (link_before_at x n (flatten r) (flatten l) front))
  root_before-flatten n at xs leaf h d = absurd h

  pub root_after-flatten :
      (n : SplayNode A) (at : ℕ) (xs : List (SplayNode A)) (t : Tree A)
      → IsRooted at xs t
      → IsDistinct xs
      → flatten (root_after n t) ≡ link_after at n xs
  unfolding root_after flatten
  root_after-flatten n at xs (node l x r) (is, all) d =
      let front = IsDistinct-front (flatten l) x (flatten r) (rw (sym all) at d) in
      rw (sym all, sym is)
        (append_assoc (flatten l) (x ∷ []) (n ∷ flatten r)
          ∙ sym (link_after_at x n (flatten r) (flatten l) front))
  root_after-flatten n at xs leaf h d = absurd h

  tail_of-some : (x : SplayNode A) (xs : List (SplayNode A)) → tail_of (some x) xs ≡ none → ⊥
  unfolding tail_of
  tail_of-some x [] h = cc
  tail_of-some x (y ∷ xs) h = tail_of-some y xs h

  tail_of-none : (xs : List (SplayNode A)) → tail_of none xs ≡ none → xs ≡ []
  unfolding tail_of
  tail_of-none [] h = refl
  tail_of-none (x ∷ xs) h = absurd (tail_of-some x xs h)

  head_of-none : (xs : List (SplayNode A)) → head_of xs ≡ none → xs ≡ []
  unfolding head_of
  head_of-none [] h = refl
  head_of-none (x ∷ xs) h = cc

  -- The two subtrees that a root leaves behind, joined.
  joined :
      (l : Tree A) (x : SplayNode A) (r : Tree A)
      → IsDistinct (flatten l ++ (x ∷ flatten r))
      → flatten (root_without (tail_of none (flatten l)) (head_of (flatten r)) (node l x r))
        ≡ flatten l ++ flatten r
  unfolding root_without head_of flatten
  joined l x r d = elim (Option-cases (tail_of none (flatten l))) [
    | inr (p, e) ↦ rw e (set_right_last p r l e (IsDistinct-parts (flatten l) (x ∷ flatten r) d).0)
    | inl e ↦ rw (e, tail_of-none (flatten l) e) (right_of l x r)
  ]
    where
      right_of :
          (l : Tree A) (x : SplayNode A) (r : Tree A)
          → flatten (root_without none (head_of (flatten r)) (node l x r)) ≡ flatten r
      right_of l x r = elim (Option-cases (head_of (flatten r))) [
        | inl e ↦ rw e (sym (head_of-none (flatten r) e))
        | inr (z, e) ↦ rw e refl
      ]

  pub root_without-flatten :
      (at : ℕ) (xs : List (SplayNode A)) (t : Tree A)
      → IsRooted at xs t
      → IsDistinct xs
      → flatten (root_without (prev_of at none xs) (next_of at xs) t) ≡ link_out at xs
  unfolding root_without flatten
  root_without-flatten at xs (node l x r) (is, all) d =
      let d' : IsDistinct (flatten l ++ (x ∷ flatten r)) = rw (sym all) at d in
      let front = IsDistinct-front (flatten l) x (flatten r) d' in
      rw
        (
          sym all,
          sym is,
          prev_of_at x (flatten r) none (flatten l) front,
          next_of_at x (flatten r) (flatten l) front,
          link_out_at x (flatten r) (flatten l) front,
        )
        (joined l x r d')
  root_without-flatten at xs leaf h d = absurd h
