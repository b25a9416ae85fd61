-- ===== src/Subnet/Lookup.antt =====
-- The lookup routines of src/subnet.c, and what adding and removing a subnet does to their caches.
pub mod Longest
pub mod Laws
use Prim.Native.Nat.{bit_xor}
use tinc.Base.{
  ℕ, ◌+◌, ◌*◌, ◌%◌, ◌^◌, Bool, true, false, ◌&&◌, ◌||◌, Option, none, some, List, [], ◌∷◌, ◌==◌,
  if◌then◌else◌, get_or, replicate,
}
use tinc.Base.Bytes.{Bytes, u32}
use tinc.Utils.Names.{text_eq}
use tinc.Subnet.{ℤ, pos, negsuc, maskcmp}
use tinc.Subnet.Compare.{Net, Subnet, subnet_compare, memcmp}
use tinc.Subnet.Cache.{Table, Cache, hash_clear, hash_delete, lookup_cached}

-- `subnet_tree` as the list of its subnets in order, and the caches.
pub record Subnets : Type 0 where
  pub tree : List Subnet
  pub ipv4_cache : Cache
  pub ipv6_cache : Cache
  pub mac_cache : Cache

abbrev pub half : Bytes → ℕ → ℕ
half p i = get_or p (2 * i) 0 + get_or p (2 * i + 1) 0 * 256

abbrev pub full : Bytes → ℕ → ℕ
full p i = half p (2 * i) + half p (2 * i + 1) * 65536

-- On a 64-bit machine whose first byte is the low one.
unfoldable pub hash_ipv4 : ℕ → Bytes → ℕ
hash_ipv4 seed p = bit_xor (u32 (seed + u32 (half p 1 * 0x9e370001))) (half p 0)

abbrev pub mix : ℕ → ℕ → ℕ
mix hash word = u32 (u32 (hash + word) * 0x9e370001)

unfoldable pub hash_ipv6 : ℕ → Bytes → ℕ
hash_ipv6 seed p = mix (mix (mix (mix seed (full p 0)) (full p 1)) (full p 2)) (full p 3)

unfoldable pub hash_mac : ℕ → Bytes → ℕ
hash_mac seed p = mix (mix (mix seed (half p 0)) (half p 1)) (half p 2)

abbrev pub ipv4_table : ℕ → Table
ipv4_table seed = record { size = 65536; hash = hash_ipv4 seed; zeros = replicate 4 0 }

abbrev pub ipv6_table : ℕ → Table
ipv6_table seed = record { size = 65536; hash = hash_ipv6 seed; zeros = replicate 16 0 }

abbrev pub mac_table : ℕ → Table
mac_table seed = record { size = 65536; hash = hash_mac seed; zeros = replicate 6 0 }

abbrev pub is_zero : ℤ → Bool
is_zero (pos n) = n == 0
is_zero (negsuc n) = false

-- The tests of the three loops.
unfoldable pub matches_ipv4 : Bytes → Net → Bool
matches_ipv4 address (Net.mac a) = false
matches_ipv4 address (Net.ipv4 prefixlength a) = is_zero (maskcmp address a prefixlength)
matches_ipv4 address (Net.ipv6 prefixlength a) = false

unfoldable pub matches_ipv6 : Bytes → Net → Bool
matches_ipv6 address (Net.mac a) = false
matches_ipv6 address (Net.ipv4 prefixlength a) = false
matches_ipv6 address (Net.ipv6 prefixlength a) = is_zero (maskcmp address a prefixlength)

unfoldable pub matches_mac : Bytes → Net → Bool
matches_mac address (Net.mac a) = is_zero (memcmp address a)
matches_mac address (Net.ipv4 prefixlength a) = false
matches_mac address (Net.ipv6 prefixlength a) = false

-- A subnet that nobody owns counts as reachable.
abbrev pub is_reachable : (Bytes → Bool) → Option Bytes → Bool
is_reachable reachable none = true
is_reachable reachable (some name) = reachable name

-- The loop: the first match that is reachable, or else the last match; `r` is the match so far.
unfoldable pub find_subnet :
    (Bytes → Bool) → (Net → Bool) → List Subnet → Option Subnet → Option Subnet
find_subnet reachable matches [] r = r
find_subnet reachable matches (p ∷ tree) r =
    let go_on = find_subnet reachable matches tree (if matches p.net then some p else r) in
    if matches p.net && is_reachable reachable p.owner then some p else go_on

abbrev pub owned_by : Bytes → Option Bytes → Bool
owned_by name none = false
owned_by name (some n) = text_eq name n

-- `owner->subnet_tree` holds the subnets of one owner.
unfoldable pub tree_of : Option Bytes → List Subnet → List Subnet
tree_of none tree = tree
tree_of (some name) [] = []
tree_of (some name) (p ∷ tree) =
    let rest = tree_of (some name) tree in if owned_by name p.owner then p ∷ rest else rest

unfoldable pub lookup_subnet_ipv4 : ℕ → (Bytes → Bool) → Bytes → Subnets → Option Subnet × Subnets
lookup_subnet_ipv4 seed reachable address s =
    let (r, cache) =
      lookup_cached (ipv4_table seed) (λ a. find_subnet reachable (matches_ipv4 a) s.tree none)
        address s.ipv4_cache in
    (r, record s { ipv4_cache = cache })

unfoldable pub lookup_subnet_ipv6 : ℕ → (Bytes → Bool) → Bytes → Subnets → Option Subnet × Subnets
lookup_subnet_ipv6 seed reachable address s =
    let (r, cache) =
      lookup_cached (ipv6_table seed) (λ a. find_subnet reachable (matches_ipv6 a) s.tree none)
        address s.ipv6_cache in
    (r, record s { ipv6_cache = cache })

unfoldable pub lookup_subnet_mac :
    ℕ → (Bytes → Bool) → Option Bytes → Bytes → Subnets → Option Subnet × Subnets
lookup_subnet_mac seed reachable owner address s =
    let (r, cache) =
      lookup_cached (mac_table seed)
        (λ a. find_subnet reachable (matches_mac a) (tree_of owner s.tree) none) address
        s.mac_cache in
    (r, record s { mac_cache = cache })

unfoldable pub subnet_cache_flush_tables : ℕ → Subnets → Subnets
subnet_cache_flush_tables seed s = record s {
  ipv4_cache = hash_clear (ipv4_table seed);
  ipv6_cache = hash_clear (ipv6_table seed);
  mac_cache = hash_clear (mac_table seed);
}

-- `subnet_cache_flush_table` for a type of subnet.
unfoldable pub subnet_cache_flush_table : ℕ → Net → Subnets → Subnets
subnet_cache_flush_table seed (Net.mac a) s = subnet_cache_flush_tables seed s
subnet_cache_flush_table seed (Net.ipv4 p a) s = record s {
  ipv4_cache = hash_clear (ipv4_table seed);
  mac_cache = hash_clear (mac_table seed);
}
subnet_cache_flush_table seed (Net.ipv6 p a) s = record s {
  ipv6_cache = hash_clear (ipv6_table seed);
  mac_cache = hash_clear (mac_table seed);
}

-- A subnet of one address is in the cache for that address only.
unfoldable pub subnet_cache_flush : ℕ → Net → Subnets → Subnets
subnet_cache_flush seed (Net.mac a) s = record s {
  mac_cache = hash_delete (mac_table seed) a s.mac_cache;
}
subnet_cache_flush seed (Net.ipv4 p a) s =
    if p == 32
    then record s { ipv4_cache = hash_delete (ipv4_table seed) a s.ipv4_cache }
    else subnet_cache_flush_table seed (Net.ipv4 p a) s
subnet_cache_flush seed (Net.ipv6 p a) s =
    if p == 128
    then record s { ipv6_cache = hash_delete (ipv6_table seed) a s.ipv6_cache }
    else subnet_cache_flush_table seed (Net.ipv6 p a) s

-- What `splay_insert` and `splay_delete` do to the order: a new subnet goes before the first that
-- is greater, and one that is there already is not inserted again.
unfoldable pub insert_subnet : Subnet → List Subnet → List Subnet
insert_subnet x [] = x ∷ []
insert_subnet x (y ∷ tree) =
    let rest = insert_subnet x tree in
    elim (subnet_compare x y) [
      | negsuc n ↦ x ∷ y ∷ tree
      | pos n ↦ if n == 0 then y ∷ tree else y ∷ rest
    ]

unfoldable pub delete_subnet : Subnet → List Subnet → List Subnet
delete_subnet x [] = []
delete_subnet x (y ∷ tree) =
    let rest = delete_subnet x tree in if is_zero (subnet_compare x y) then tree else y ∷ rest

unfoldable pub subnet_add : ℕ → Option Bytes → Subnet → Subnets → Subnets
subnet_add seed owner subnet s =
    let new = record subnet { owner = owner } in
    subnet_cache_flush seed new.net (record s { tree = insert_subnet new s.tree })

unfoldable pub subnet_del : ℕ → Subnet → Subnets → Subnets
subnet_del seed subnet s =
    subnet_cache_flush seed subnet.net (record s { tree = delete_subnet subnet s.tree })
