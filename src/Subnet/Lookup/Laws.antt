-- ===== src/Subnet/Lookup/Laws.antt =====
-- The caches of src/subnet.c, and what a lookup through them finds.
use tinc.Base.{
  ℕ, zero, suc, ◌%◌, ◌≡◌, refl, sym, Bool, true, ◌||◌, Option, none, some, [], ◌∷◌, arith, inl, inr,
  Bool-cases, Option-cases,
}
use mathlib.Core.Path.{subst}
use tinc.Base.Bytes.{Bytes}
use tinc.Utils.Names.{text_eq, text_eq_refl}
use tinc.Subnet.Compare.{Subnet}
use tinc.Subnet.Cache.{
  Table, Cache, put, is_null, next_slot, insert_at, hash_insert, search_at, hash_search, hash_clear,
  lookup_cached,
}
use tinc.Subnet.Lookup.Longest.{AreOrdered, Found, find_subnet-Found}
use tinc.Subnet.Lookup.{
  Subnets, find_subnet, matches_ipv4, lookup_subnet_ipv4, lookup_subnet_mac, ipv4_table, mac_table,
  matches_mac, tree_of,
}

text_eq→eq : (a b : Bytes) → text_eq a b ≡ true → a ≡ b
text_eq→eq [] [] h = refl
text_eq→eq [] (y ∷ b) h = cc
text_eq→eq (x ∷ a) [] h = cc
text_eq→eq (x ∷ a) (y ∷ b) h = ground (arith, text_eq→eq a b)

-- Every entry holds what the search would find.
abbrev pub IsCoherent : (Bytes → Option Subnet) → Cache → Type 0
IsCoherent find c = (i : ℕ) (v : Subnet) → c.values i ≡ some v → find (c.keys i) ≡ some v

module _ (t : Table) (find : Bytes → Option Subnet) where
  search_at_sound :
      (rounds i : ℕ) (key : Bytes) (c : Cache) (v : Subnet)
      → IsCoherent find c
      → search_at t rounds i key c ≡ some v
      → find key ≡ some v
  unfolding search_at
  search_at_sound zero i key c v h e = cc
  search_at_sound (suc rounds) i key c v h e = elim (Bool-cases (text_eq key (c.keys i))) [
    | inl same ↦ rw (text_eq→eq key (c.keys i) same) (h i v (ground arith))
    | inr other ↦ search_at_sound rounds (next_slot t i) key c v h (ground arith)
  ]

  put-IsCoherent :
      (i : ℕ) (key : Bytes) (v : Subnet) (c : Cache)
      → IsCoherent find c
      → find key ≡ some v
      → IsCoherent find (put i key (some v) c)
  put-IsCoherent i key v c h f j w e = ground (arith, h j w)

  insert_at-IsCoherent :
      (rounds i : ℕ) (key : Bytes) (v : Subnet) (c : Cache)
      → IsCoherent find c
      → find key ≡ some v
      → IsCoherent find (insert_at t rounds i key v c)
  unfolding insert_at
  insert_at-IsCoherent zero i key v c h f = put-IsCoherent i key v c h f
  insert_at-IsCoherent (suc rounds) i key v c h f =
      elim (Bool-cases (is_null (c.values i) || text_eq key (c.keys i))) [
        | inl here ↦ rw here (put-IsCoherent i key v c h f)
        | inr on ↦ rw on (insert_at-IsCoherent rounds (next_slot t i) key v c h f)
      ]

  hash_search_sound :
      (key : Bytes) (c : Cache) (v : Subnet)
      → IsCoherent find c
      → hash_search t key c ≡ some v
      → find key ≡ some v
  unfolding hash_search
  hash_search_sound key c v = search_at_sound 4 (t.hash key % t.size) key c v

  hash_insert-IsCoherent :
      (key : Bytes) (v : Subnet) (c : Cache)
      → IsCoherent find c
      → find key ≡ some v
      → IsCoherent find (hash_insert t key v c)
  unfolding hash_insert
  hash_insert-IsCoherent key v c = insert_at-IsCoherent 3 (t.hash key % t.size) key v c

  lookup_cached_lem :
      (key : Bytes) (c : Cache)
      → IsCoherent find c
      → ((lookup_cached t find key c).0 ≡ find key) × IsCoherent find (lookup_cached t find key c).1
  unfolding lookup_cached
  lookup_cached_lem key c h = elim (Option-cases (hash_search t key c)) [
    | inr (v, e) ↦
        let eq : lookup_cached t find key c ≡ (some v, c) = rw (e, lookup_cached) in
        rw eq (sym (hash_search_sound key c v h e), h)
    | inl e ↦ elim (Option-cases (find key)) [
      | inl f ↦
          let eq : lookup_cached t find key c ≡ (none, c) = rw (e, f, lookup_cached) in
          rw eq (sym f, h)
      | inr (v, f) ↦
          let eq : lookup_cached t find key c ≡ (some v, hash_insert t key v c) =
            rw (e, f, lookup_cached) in
          rw eq (sym f, hash_insert-IsCoherent key v c h f)
    ]
  ]

  search_empty : (key : Bytes) → hash_search t key (hash_clear t) ≡ none
  unfolding hash_search search_at hash_clear
  search_empty key = ground arith

  -- An empty table finds what was just inserted.
  search-insert_empty :
      (key : Bytes) (v : Subnet) → hash_search t key (hash_insert t key v (hash_clear t)) ≡ some v
  unfolding hash_search search_at hash_insert insert_at hash_clear
  search-insert_empty key v = ground (arith, text_eq_refl key)

  cached_again :
      (find' : Bytes → Option Subnet) (key : Bytes) (v : Subnet)
      → find key ≡ some v
      → (lookup_cached t find' key (lookup_cached t find key (hash_clear t)).1).0 ≡ some v
  unfolding lookup_cached
  cached_again find' key v f =
      let first : lookup_cached t find key (hash_clear t)
          ≡ (some v, hash_insert t key v (hash_clear t)) =
        rw (search_empty key, f, lookup_cached) in
      rw first (rw (search-insert_empty key v, lookup_cached))

-- In a tree in the order of `subnet_compare`, a lookup of an IPv4 address with a coherent cache
-- returns exactly what the search of the tree returns, and leaves the cache coherent and the tree
-- as it was. It finds nothing only if no subnet of the tree matches; a reachable subnet that it
-- finds is one of the tree that matches, with no longer mask on another that is reachable and
-- matches; and one that is not reachable is found only if no subnet that matches can be reached.
pub lookup_subnet_ipv4-Found :
    (seed : ℕ) (reachable : Bytes → Bool) (address : Bytes) (s : Subnets)
    → AreOrdered s.tree
    → IsCoherent (λ a. find_subnet reachable (matches_ipv4 a) s.tree none) s.ipv4_cache
    → let (r, s') = lookup_subnet_ipv4 seed reachable address s in
      (r ≡ find_subnet reachable (matches_ipv4 address) s.tree none)
      × Found reachable (matches_ipv4 address) s.tree r
      × IsCoherent (λ a. find_subnet reachable (matches_ipv4 a) s.tree none) s'.ipv4_cache
      × (s'.tree ≡ s.tree)
unfolding lookup_subnet_ipv4
lookup_subnet_ipv4-Found seed reachable address s o h =
    let (same, kept) =
      lookup_cached_lem (ipv4_table seed) (λ a. find_subnet reachable (matches_ipv4 a) s.tree none)
        address s.ipv4_cache h in
    (
      same,
      subst (Found reachable (matches_ipv4 address) s.tree) (sym same)
          (find_subnet-Found reachable address s.tree o),
      kept,
      refl,
    )

-- The cache of MAC addresses does not tell whose subnets were searched: once an address was found
-- among all subnets, a search among those of one node gives the same subnet, whoever owns it.
pub lookup_subnet_mac_mixes :
    (seed : ℕ) (reachable : Bytes → Bool) (address owner : Bytes) (s : Subnets) (v : Subnet)
    → s.mac_cache ≡ hash_clear (mac_table seed)
    → find_subnet reachable (matches_mac address) s.tree none ≡ some v
    → (lookup_subnet_mac seed reachable
        (some owner)
        address
        (lookup_subnet_mac seed reachable none address s).1).0
      ≡ some v
unfolding lookup_subnet_mac lookup_cached tree_of
lookup_subnet_mac_mixes seed reachable address owner s v e f = rw e (
    cached_again (mac_table seed) (λ a. find_subnet reachable (matches_mac a) s.tree none)
      (λ a. find_subnet reachable (matches_mac a) (tree_of (some owner) s.tree) none) address v f)
