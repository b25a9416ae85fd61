-- ===== src/Route/Switch/Laws.antt =====
-- What the timer of src/route.c does to the learned subnets.
use tinc.Base.{
  ◌≡◌, refl, Bool, true, false, not, ◌&&◌, ◌||◌, some, List, [], ◌∷◌, ltb, ◌==◌, if◌then◌else◌,
  arith, Bool-cases, ap, ◌∙◌, inl, inr, ℕ,
}
use tinc.Subnet.Compare
use tinc.Subnet.Compare.{Subnet}
use tinc.Subnet.Lookup.{
  Subnets, tree_of, delete_subnet, subnet_cache_flush, subnet_cache_flush_table,
  subnet_cache_flush_tables, subnet_del,
}
use tinc.Route.{Output, Traffic, Network}
use tinc.Route.Switch.{age_loop, age_subnets}

-- The time of a subnet has passed; it is still to come.
abbrev pub is_old : Network → Traffic → Subnet → Bool
is_old net s x = not (s.expires x == 0) && ltb (s.expires x) net.now

abbrev pub is_pending : Network → Traffic → Subnet → Bool
is_pending net s x = not (s.expires x == 0) && not (ltb (s.expires x) net.now)

abbrev pub filter : (Subnet → Bool) → List Subnet → List Subnet
filter test [] = []
filter test (x ∷ tree) = let rest = filter test tree in if test x then x ∷ rest else rest

abbrev pub any : (Subnet → Bool) → List Subnet → Bool
any test [] = false
any test (x ∷ tree) = test x || any test tree

abbrev pub delete_all : List Subnet → List Subnet → List Subnet
delete_all [] tree = tree
delete_all (x ∷ old) tree = delete_all old (delete_subnet x tree)

abbrev pub withdraw_all : List Subnet → List Output → List Output
withdraw_all [] log = log
withdraw_all (x ∷ old) log = withdraw_all old (Output.withdrawn x ∷ log)

flush-tree :
    (seed : ℕ) (net : Compare.Net) (s : Subnets) → (subnet_cache_flush seed net s).tree ≡ s.tree
unfolding subnet_cache_flush subnet_cache_flush_table subnet_cache_flush_tables
flush-tree seed (Compare.Net.mac a) s = refl
flush-tree seed (Compare.Net.ipv4 p a) s = ground arith
flush-tree seed (Compare.Net.ipv6 p a) s = ground arith

subnet_del-tree :
    (seed : ℕ) (x : Subnet) (s : Subnets) → (subnet_del seed x s).tree ≡ delete_subnet x s.tree
unfolding subnet_del
subnet_del-tree seed x s = flush-tree seed x.net (record s { tree = delete_subnet x s.tree })

or_false : (a : Bool) → a ≡ (a || false)
or_false true = refl
or_false false = refl

or_assoc : (a b c : Bool) → ((a || b) || c) ≡ (a || (b || c))
or_assoc true b c = refl
or_assoc false b c = refl

module _ (net : Network) where
  -- What the loop over `tree` makes of `s`.
  abbrev Aged : List Subnet → Bool → Traffic → Bool × Traffic → Type 0
  Aged tree left s r =
      (r.0 ≡ (left || any (is_pending net s) tree))
      × (r.1.log ≡ withdraw_all (filter (is_old net s) tree) s.log)
      × (r.1.subnets.tree ≡ delete_all (filter (is_old net s) tree) s.subnets.tree)
      × (r.1.expires ≡ s.expires)

  age_loop-Aged :
      (tree : List Subnet) (left : Bool) (s : Traffic) → Aged tree left s (age_loop net tree left s)
  unfolding age_loop
  age_loop-Aged [] left s = (or_false left, refl, refl, refl)
  age_loop-Aged (x ∷ tree) left s = elim (Bool-cases (s.expires x == 0)) [
    | inl a ↦
        rw (a, age_loop)
          (later false (age_loop net tree (left || false) s) (age_loop-Aged tree (left || false) s))
    | inr a ↦ elim (Bool-cases (ltb (s.expires x) net.now)) [
      | inl b ↦
          let after = record s {
            subnets = subnet_del net.hash_seed x s.subnets;
            log = Output.withdrawn x ∷ s.log;
          } in
          let (rest, log, gone, kept) = age_loop-Aged tree left after in
          rw (a, b, age_loop)
            (
              rest,
              log,
              gone
                  ∙ ap (delete_all (filter (is_old net s) tree))
                      (subnet_del-tree net.hash_seed x s.subnets),
              kept,
            )
      | inr b ↦
          rw (a, b, age_loop)
            (later true (age_loop net tree (left || true) s) (age_loop-Aged tree (left || true) s))
    ]
  ]
    where
      later :
          (b : Bool) (r : Bool × Traffic)
          → Aged tree (left || b) s r
          → (r.0 ≡ (left || (b || any (is_pending net s) tree)))
            × (r.1.log ≡ withdraw_all (filter (is_old net s) tree) s.log)
            × (r.1.subnets.tree ≡ delete_all (filter (is_old net s) tree) s.subnets.tree)
            × (r.1.expires ≡ s.expires)
      later b r (rest, log, gone, kept) =
          (rest ∙ or_assoc left b (any (is_pending net s) tree), log, gone, kept)

-- `age_subnets` withdraws those of this node's subnets whose time has passed, in their order, takes
-- just these out of the tree, leaves the times as they are, and sets the timer again if and only if
-- some of this node's subnets has a time that is still to come.
pub age_subnets_lem :
    (net : Network) (s : Traffic)
    → let mine = tree_of (some net.my_name) s.subnets.tree in
      let old = filter (is_old net s) mine in
      let withdrawn = withdraw_all old s.log in
      ((age_subnets net s).log
        ≡ (if any (is_pending net s) mine then Output.timer 10 ∷ withdrawn else withdrawn))
      × ((age_subnets net s).subnets.tree ≡ delete_all old s.subnets.tree)
      × ((age_subnets net s).expires ≡ s.expires)
unfolding age_subnets
age_subnets_lem net s =
    let mine = tree_of (some net.my_name) s.subnets.tree in
    let (left, log, gone, kept) = age_loop-Aged net mine false s in
    elim (Bool-cases (any (is_pending net s) mine)) [
      | inl e ↦ rw (left, e) (ap (λ l. Output.timer 10 ∷ l) log, gone, kept)
      | inr e ↦ rw (left, e) (log, gone, kept)
    ]
