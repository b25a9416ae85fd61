-- ===== src/Graph/Explored.antt =====
-- The list of `sssp_bfs` of src/graph.c, and the edges of the nodes that are not on it any more.
use mathlib.Core.Path.{subst}
use tinc.Base.{
  ◌≡◌, refl, sym, ◌⊎◌, inl, inr, Bool, true, Option, none, some, List, [], ◌∷◌, ◌++◌, ◌==◌,
  Bool-cases, ==_iff,
}
use tinc.Graph.{NodeId, Edge, Store, Search, Topology, updated, reach, examine, examine_all, round}
use tinc.Graph.Sound.{
  IsIn, Returns, self, write_intro, IsSound, IsExamined, updated_fields, examine-IsExamined,
  examine-IsSound,
}

module _ {A : Type 0} where
  IsIn-left : (x : A) (xs ys : List A) → IsIn x xs → IsIn x (xs ++ ys)
  IsIn-left x (y ∷ xs) ys (inl e) = inl e
  IsIn-left x (y ∷ xs) ys (inr h) = inr (IsIn-left x xs ys h)
  IsIn-left x [] ys h = absurd h

  IsIn-last : (x : A) (xs : List A) → IsIn x (xs ++ (x ∷ []))
  IsIn-last x [] = inl refl
  IsIn-last x (y ∷ xs) = inr (IsIn-last x xs)

module _ (net : Topology) where
  abbrev IsVisited : NodeId → Search → Type 0
  IsVisited m s = (s.store m).visited ≡ true

  -- Visited nodes stay so, listed ones too, and newly visited ones are listed.
  abbrev HasGrown : Search → Search → Type 0
  HasGrown s s' =
      ((m : NodeId) → IsVisited m s → IsVisited m s')
      × ((m : NodeId) → IsIn m s.todo → IsIn m s'.todo)
      × ((m : NodeId) → IsVisited m s' → IsVisited m s ⊎ IsIn m s'.todo)

  HasGrown-trans : (s t u : Search) → HasGrown s t → HasGrown t u → HasGrown s u
  HasGrown-trans s t u g h = (
    λ m v. h.0 m (g.0 m v),
    λ m i. h.1 m (g.1 m i),
    λ m v. elim (h.2 m v) [
      | inr i ↦ inr i
      | inl w ↦ elim (g.2 m w) [ inl a ↦ inl a | inr i ↦ inr (h.1 m i) ]
    ],
  )

  -- Where an edge may lead, the node is visited.
  abbrev LeadsOn : Edge → Search → Type 0
  LeadsOn e s = e.reverse ≡ true → IsVisited e.to s

  reach-HasGrown :
      (n : NodeId) (e : Edge) (closer : Bool) (s : Search)
      → HasGrown s (reach net n e closer s) × IsVisited e.to (reach net n e closer s)
  unfolding reach
  reach-HasGrown n e closer s =
      let to = updated net (s.store n) e closer (s.store e.to) in
      let vis = (updated_fields net (s.store n) e closer (s.store e.to)).0 in
      (
        (
          write_intro (λ m v. (s.store m).visited ≡ true → v.visited ≡ true) e.to to s.store
              (λ w. vis) (λ m w. w),
          λ m i. IsIn-left m s.todo (e.to ∷ []) i,
          write_intro (λ m v. v.visited ≡ true → IsVisited m s ⊎ IsIn m (s.todo ++ (e.to ∷ [])))
              e.to to s.store (λ w. inr (IsIn-last e.to s.todo)) (λ m w. inl w),
        ),
        rw (self e.to) vis,
      )

  examined-HasGrown :
      (n : NodeId) (e : Edge) (s s' : Search)
      → IsVisited net.myself s
      → IsExamined net n e s s'
      → HasGrown s s' × LeadsOn e s'
  examined-HasGrown n e s s' me (inl (same, h)) = rw same (
    (λ m v. v, λ m i. i, λ m v. inl v),
    λ r. elim (Bool-cases (e.to == net.myself)) [
      | inl to ↦ subst (λ m. IsVisited m s) (sym ((==_iff e.to net.myself).0 to)) me
      | inr other ↦ h r other
    ],
  )
  examined-HasGrown n e s s' me (inr (closer, same, rev, other, c)) =
      let (grown, vis) = reach-HasGrown n e closer s in rw same (grown, λ r. vis)

  -- The edges of a visited node, one after the other.
  abbrev IsPassed : List Edge → Search → Search → Type 0
  IsPassed es s s' = IsSound net s' × HasGrown s s' × ((e : Edge) → IsIn e es → LeadsOn e s')

  pass_on :
      (e : Edge) (es : List Edge) (s t : Search) (o : Option Search)
      → HasGrown s t
      → LeadsOn e t
      → Returns (IsPassed es t) o
      → Returns (IsPassed (e ∷ es) s) o
  pass_on e es s t none grown leads h = h
  pass_on e es s t (some u) grown leads (sound, grown', all) = (
    sound,
    HasGrown-trans s t u grown grown',
    λ f i. elim i [
      | inl same ↦ subst (λ f. LeadsOn f u) (sym same) (λ r. grown'.0 e.to (leads r))
      | inr i ↦ all f i
    ],
  )

  pass_one :
      (n : NodeId) (e : Edge) (es : List Edge) (s : Search) (o : Option Search)
      → IsSound net s
      → IsVisited net.myself s
      → IsVisited n s
      → IsIn e (net.edges n)
      → Returns (IsExamined net n e s) o
      → ((t : Search)
          → IsSound net t
          → HasGrown s t
          → Returns (IsPassed es t) (examine_all net n es t))
      → Returns (IsPassed (e ∷ es) s) (elim o [ none ↦ none | some t ↦ examine_all net n es t ])
  pass_one n e es s none sound me vis is ex next = ex
  pass_one n e es s (some t) sound me vis is ex next =
      let (grown, leads) = examined-HasGrown n e s t me ex in
      pass_on e es s t (examine_all net n es t) grown leads
        (next t (examine-IsSound net n e s t sound vis is ex) grown)

  examine_all-IsPassed :
      (n : NodeId) (es : List Edge) (s : Search)
      → IsSound net s
      → IsVisited net.myself s
      → IsVisited n s
      → ((e : Edge) → IsIn e es → IsIn e (net.edges n))
      → Returns (IsPassed es s) (examine_all net n es s)
  unfolding examine_all
  examine_all-IsPassed n [] s sound me vis all =
      (sound, (λ m v. v, λ m i. i, λ m v. inl v), λ e i. absurd i)
  examine_all-IsPassed n (e ∷ es) s sound me vis all =
      pass_one n e es s (examine net n e s) sound me vis (all e (inl refl))
        (examine-IsExamined net n e s sound)
        (λ t sound' grown.
          examine_all-IsPassed n es t sound' (grown.0 net.myself me) (grown.0 n vis)
            (λ f i. all f (inr i)))

  -- A visited node is on the list, or its edges lead to visited nodes; this node is visited.
  abbrev pub IsExplored : Search → Type 0
  IsExplored s =
      IsVisited net.myself s
      × ((m : NodeId)
          → IsVisited m s
          → IsIn m s.todo
            ⊎ ((e : Edge) → IsIn e (net.edges m) → e.reverse ≡ true → IsVisited e.to s))

  abbrev pub IsRight : Search → Type 0
  IsRight s = IsSound net s × IsExplored s

  passed-IsRight :
      (n : NodeId) (s s' : Search)
      → IsVisited net.myself s
      → ((m : NodeId)
          → IsVisited m s
          → IsIn m (n ∷ s.todo)
            ⊎ ((e : Edge) → IsIn e (net.edges m) → e.reverse ≡ true → IsVisited e.to s))
      → IsPassed (net.edges n) s s'
      → IsRight s'
  passed-IsRight n s s' me known (sound, grown, leads) = (
    sound,
    (
      grown.0 net.myself me,
      λ m v. elim (grown.2 m v) [
        | inr i ↦ inl i
        | inl w ↦ elim (known m w) [
          | inl (inl same) ↦ inr (λ e is. leads e (subst (λ k. IsIn e (net.edges k)) same is))
          | inl (inr i) ↦ inl (grown.1 m i)
          | inr all ↦ inr (λ e is r. grown.0 e.to (all e is r))
        ]
      ],
    ),
  )

  all_passed :
      (n : NodeId) (s : Search) (o : Option Search)
      → IsVisited net.myself s
      → ((m : NodeId)
          → IsVisited m s
          → IsIn m (n ∷ s.todo)
            ⊎ ((e : Edge) → IsIn e (net.edges m) → e.reverse ≡ true → IsVisited e.to s))
      → Returns (IsPassed (net.edges n) s) o
      → Returns IsRight o
  all_passed n s none me known h = h
  all_passed n s (some s') me known h = passed-IsRight n s s' me known h

  pub round-IsRight : (s : Search) → IsRight s → Returns IsRight (round net s)
  unfolding round
  round-IsRight s right = by_list s.store s.todo right
    where
      by_list :
          (store : Store) (todo : List NodeId)
          → IsRight (record { store = store; todo = todo })
          → Returns IsRight (round net (record { store = store; todo = todo }))
      by_list store [] right = right
      by_list store (n ∷ rest) right =
          let s : Search = record { store = store; todo = rest } in
          let vis = right.0.1 n (inl refl) in
          let (d, e) = (right.0.0 n vis).1 in
          rw (e) (
            all_passed n s _ right.1.0 right.1.1 (
              examine_all-IsPassed n (net.edges n) s (right.0.0, λ m i. right.0.1 m (inr i))
                right.1.0 vis (λ f i. i)))
