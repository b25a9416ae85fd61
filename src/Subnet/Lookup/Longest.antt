-- ===== src/Subnet/Lookup/Longest.antt =====
-- What the search of `lookup_subnet_ipv4` (src/subnet.c) finds in a tree that is in the order of
-- `subnet_compare`.
use tinc.Base.{
  ℕ, zero, suc, ◌≤◌, ◌≡◌, ◌⊎◌, refl, Bool, true, false, ◌&&◌, ◌||◌, ltb, Option, none, some, List,
  [], ◌∷◌, arith, inl, inr, Bool-cases,
}
use tinc.Base.Bytes.{Bytes}
use tinc.Subnet.{ℤ, pos, negsuc, minus}
use tinc.Subnet.Compare.{
  Net, Subnet, or_else, memcmp, type_number, compare_net, compare_rest, subnet_compare,
}
use tinc.Subnet.Lookup.{is_reachable, find_subnet, matches_ipv4}

abbrev pub is_less : ℤ → Bool
is_less (pos n) = false
is_less (negsuc n) = true

-- The subnet compares as less than each of the list.
abbrev pub AreBehind : Subnet → List Subnet → Type 0
AreBehind p [] = Unit {0}
AreBehind p (q ∷ tree) = (is_less (subnet_compare p q) ≡ true) × AreBehind p tree

-- The list is in the order of `subnet_compare`.
abbrev pub AreOrdered : List Subnet → Type 0
AreOrdered [] = Unit {0}
AreOrdered (p ∷ tree) = AreBehind p tree × AreOrdered tree

abbrev pub IsIn : Subnet → List Subnet → Type 0
IsIn p [] = ⊥
IsIn p (q ∷ tree) = (p ≡ q) ⊎ IsIn p tree

abbrev pub prefix_of : Net → ℕ
prefix_of (Net.mac address) = 0
prefix_of (Net.ipv4 prefixlength address) = prefixlength
prefix_of (Net.ipv6 prefixlength address) = prefixlength

-- Some subnet of the tree matches; some that is reachable does; some that is reachable and has a
-- longer mask than `n` does.
abbrev pub any_match : (Net → Bool) → List Subnet → Bool
any_match matches [] = false
any_match matches (p ∷ tree) = matches p.net || any_match matches tree

abbrev pub any_reachable : (Bytes → Bool) → (Net → Bool) → List Subnet → Bool
any_reachable reachable matches [] = false
any_reachable reachable matches (p ∷ tree) =
    matches p.net && is_reachable reachable p.owner || any_reachable reachable matches tree

abbrev pub any_longer : (Bytes → Bool) → (Net → Bool) → ℕ → List Subnet → Bool
any_longer reachable matches n [] = false
any_longer reachable matches n (p ∷ tree) =
    matches p.net && is_reachable reachable p.owner && ltb n (prefix_of p.net)
    || any_longer reachable matches n tree

-- What a lookup promises: nothing only where nothing matches; otherwise a matching subnet of the
-- tree, which is reachable and such that no reachable one that matches has a longer mask, or which
-- is unreachable because no matching one can be reached.
abbrev pub Found : (Bytes → Bool) → (Net → Bool) → List Subnet → Option Subnet → Type 0
Found reachable matches tree none = any_match matches tree ≡ false
Found reachable matches tree (some p) =
    IsIn p tree
    × (matches p.net ≡ true)
    × (((is_reachable reachable p.owner ≡ true)
          × (any_longer reachable matches (prefix_of p.net) tree ≡ false))
        ⊎ (any_reachable reachable matches tree ≡ false))

abbrev is_greater : ℤ → Bool
is_greater (pos zero) = false
is_greater (pos (suc n)) = true
is_greater (negsuc n) = false

less_not_greater : (r : ℤ) → is_less r ≡ true → is_greater r ≡ false
less_not_greater (pos n) h = cc
less_not_greater (negsuc n) h = refl

first_not_greater : (r s : ℤ) → is_greater (or_else r s) ≡ false → is_greater r ≡ false
unfolding or_else
first_not_greater (pos zero) s h = refl
first_not_greater (pos (suc n)) s h = cc
first_not_greater (negsuc n) s h = refl

minus_not_greater : (q p : ℕ) → is_greater (minus q p) ≡ false → q ≤ p
unfolding minus
minus_not_greater q p h = ground (arith, h)

-- Of two IPv4 subnets the one that compares as less has the longer mask, or one as long.
longer_first :
    (address : Bytes) (a b : Net) (rest : ℤ)
    → matches_ipv4 address a ≡ true
    → matches_ipv4 address b ≡ true
    → is_less (or_else (minus (type_number a) (type_number b)) (or_else (compare_net a b) rest))
      ≡ true
    → prefix_of b ≤ prefix_of a
unfolding matches_ipv4 compare_net type_number or_else minus
longer_first address (Net.mac x) b rest h k l = cc
longer_first address (Net.ipv6 p x) b rest h k l = cc
longer_first address (Net.ipv4 p x) (Net.mac y) rest h k l = cc
longer_first address (Net.ipv4 p x) (Net.ipv6 q y) rest h k l = cc
longer_first address (Net.ipv4 p x) (Net.ipv4 q y) rest h k l =
    let masks = or_else (minus q p) (memcmp x y) in
    minus_not_greater q p (
      first_not_greater (minus q p) (memcmp x y)
        (first_not_greater masks rest (less_not_greater (or_else masks rest) l)))

module _ (reachable : Bytes → Bool) (address : Bytes) where
  abbrev longer : ℕ → List Subnet → Bool
  longer = any_longer reachable (matches_ipv4 address)

  none_longer_behind :
      (p : Subnet) (tree : List Subnet)
      → matches_ipv4 address p.net ≡ true
      → AreBehind p tree
      → longer (prefix_of p.net) tree ≡ false
  unfolding subnet_compare
  none_longer_behind p [] m b = refl
  none_longer_behind p (q ∷ tree) m b =
      let rest = none_longer_behind p tree m b.1 in
      elim (Bool-cases (matches_ipv4 address q.net)) [
        | inl e ↦ ground (arith, rest, longer_first address p.net q.net (compare_rest p q) m e b.0)
        | inr e ↦ ground (arith, rest, e)
      ]

  -- The match so far is one that cannot be reached.
  abbrev SoFar : Option Subnet → Type 0
  SoFar none = Unit {0}
  SoFar (some p) = (matches_ipv4 address p.net ≡ true) × (is_reachable reachable p.owner ≡ false)

  -- What the rest of the search finds when `r` is the match so far.
  abbrev FoundFrom : List Subnet → Option Subnet → Option Subnet → Type 0
  FoundFrom tree r none = (any_match (matches_ipv4 address) tree ≡ false) × (r ≡ none)
  FoundFrom tree r (some p) =
      (IsIn p tree ⊎ (r ≡ some p))
      × (matches_ipv4 address p.net ≡ true)
      × (((is_reachable reachable p.owner ≡ true) × (longer (prefix_of p.net) tree ≡ false))
          ⊎ (any_reachable reachable (matches_ipv4 address) tree ≡ false))

  skipped :
      (p : Subnet) (tree : List Subnet) (r found : Option Subnet)
      → matches_ipv4 address p.net ≡ false
      → FoundFrom tree r found
      → FoundFrom (p ∷ tree) r found
  skipped p tree r none e h = ground arith
  skipped p tree r (some q) e h = ground arith

  noted :
      (p : Subnet) (tree : List Subnet) (r found : Option Subnet)
      → matches_ipv4 address p.net ≡ true
      → is_reachable reachable p.owner ≡ false
      → FoundFrom tree (some p) found
      → FoundFrom (p ∷ tree) r found
  noted p tree r none e f h = ground arith
  noted p tree r (some q) e f h = ground arith

  taken :
      (p : Subnet) (tree : List Subnet) (r : Option Subnet)
      → matches_ipv4 address p.net ≡ true
      → is_reachable reachable p.owner ≡ true
      → AreBehind p tree
      → FoundFrom (p ∷ tree) r (some p)
  taken p tree r e f b = (inl (inl refl), e, inl (f, ground (arith, none_longer_behind p tree e b)))

  find_subnet-FoundFrom :
      (tree : List Subnet) (r : Option Subnet)
      → AreOrdered tree
      → SoFar r
      → FoundFrom tree r (find_subnet reachable (matches_ipv4 address) tree r)
  unfolding find_subnet
  find_subnet-FoundFrom [] none o h = (refl, refl)
  find_subnet-FoundFrom [] (some p) o h = (inr refl, h.0, inr refl)
  find_subnet-FoundFrom (p ∷ tree) r o h = elim (Bool-cases (matches_ipv4 address p.net)) [
    | inr other ↦ rw other (skipped p tree r _ other (find_subnet-FoundFrom tree r o.1 h))
    | inl same ↦ elim (Bool-cases (is_reachable reachable p.owner)) [
      | inl near ↦ rw (same, near) (taken p tree r same near o.0)
      | inr far ↦
          rw (same, far)
            (noted p tree r _ same far (find_subnet-FoundFrom tree (some p) o.1 (same, far)))
    ]
  ]

  pub find_subnet-Found :
      (tree : List Subnet)
      → AreOrdered tree
      → Found reachable
          (matches_ipv4 address)
          tree
          (find_subnet reachable (matches_ipv4 address) tree none)
  find_subnet-Found tree o = drop_none _ (find_subnet-FoundFrom tree none o tt)
    where
      drop_none :
          (found : Option Subnet)
          → FoundFrom tree none found
          → Found reachable (matches_ipv4 address) tree found
      drop_none none h = h.0
      drop_none (some p) (inl i, m, e) = (i, m, e)
      drop_none (some p) (inr i, m, e) = cc
