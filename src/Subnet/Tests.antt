-- ===== src/Subnet/Tests.antt =====
-- The theorems on src/subnet_parse.c and src/subnet.c at concrete addresses.
use tinc.Base.{Bool, Option, none, some, ◌≡◌, ◌↔◌, true, [], ◌∷◌, arith, refl}
use tinc.Base.Bytes.{Bytes, codes}
use tinc.Subnet.Compare.{Net, Subnet, subnet_compare, compare_net, or_else, type_number, memcmp}
use tinc.Subnet.{pos, negsuc, minus, all_zero, maskcmp, mask, maskcheck}
use tinc.Utils.Names.{text_eq}
use tinc.Subnet.Cache.{hash_clear, hash_search, search_at, hash_insert, insert_at, lookup_cached}
use tinc.Subnet.Lookup.{
  Subnets, hash_ipv4, ipv4_table, ipv6_table, mac_table, matches_ipv4, matches_mac, find_subnet,
  lookup_subnet_ipv4, lookup_subnet_mac,
}
use tinc.Subnet.Lookup.Longest.{AreOrdered, Found}
use tinc.Subnet.Lookup.Laws.{IsCoherent, lookup_subnet_ipv4-Found, lookup_subnet_mac_mixes}
use tinc.Subnet.Masks.{maskcmp_iff}

abbrev network : Bytes
network = 10 ∷ 1 ∷ 128 ∷ 0 ∷ []

abbrev host : Bytes
host = 10 ∷ 1 ∷ 200 ∷ 7 ∷ []

maskcmp_iff_example : (maskcmp host network 17 ≡ pos 0) ↔ (mask host 17 ≡ mask network 17)
maskcmp_iff_example = maskcmp_iff host network 17 refl (omega arith)

host_in_network : maskcmp host network 17 ≡ pos 0
unfolding maskcmp minus
host_in_network = refl

network_checked : maskcheck network 17 ≡ true
unfolding maskcheck all_zero
network_checked = refl

abbrev near : Subnet
near = record { owner = some (codes "alice"); weight = pos 10; net = Net.ipv4 17 network }

abbrev far : Subnet
far = record { owner = some (codes "bob"); weight = negsuc 2; net = Net.ipv4 24 host }

-- The longer mask comes first.
longer_first : subnet_compare near far ≡ pos 7
unfolding subnet_compare compare_net or_else minus type_number
longer_first = refl

-- A node is reachable if its name is bob.
abbrev only_bob : Bytes → Bool
only_bob name = text_eq name (codes "bob")

abbrev bobs_card : Bytes
bobs_card = 2 ∷ 0 ∷ 0 ∷ 0 ∷ 0 ∷ 1 ∷ []

abbrev bobs : Subnet
bobs = record { owner = some (codes "bob"); weight = pos 10; net = Net.mac bobs_card }

abbrev known : Subnets
known = record {
  tree = bobs ∷ far ∷ near ∷ [];
  ipv4_cache = hash_clear (ipv4_table 5);
  ipv6_cache = hash_clear (ipv6_table 5);
  mac_cache = hash_clear (mac_table 5);
}

cleared-IsCoherent : (find : Bytes → Option Subnet) → IsCoherent find (hash_clear (ipv4_table 5))
unfolding hash_clear
cleared-IsCoherent find i v e = cc

abbrev find_known : Bytes → Option Subnet
find_known a = find_subnet only_bob (matches_ipv4 a) known.tree none

known-AreOrdered : AreOrdered known.tree
unfolding subnet_compare compare_net or_else minus type_number
known-AreOrdered = ((refl, (refl, tt)), ((refl, tt), (tt, tt)))

-- The subnets after the address has been looked up once, and is in the cache.
abbrev visited : Subnets
visited = (lookup_subnet_ipv4 5 only_bob host known).1

visited-AreOrdered : AreOrdered visited.tree
unfolding lookup_subnet_ipv4
visited-AreOrdered = known-AreOrdered

visited-IsCoherent : IsCoherent find_known visited.ipv4_cache
visited-IsCoherent =
    (lookup_subnet_ipv4-Found 5 only_bob host known known-AreOrdered
      (cleared-IsCoherent find_known)).2

visited_cached : hash_search (ipv4_table 5) host visited.ipv4_cache ≡ some far
unfolding hash_search search_at hash_clear hash_insert insert_at lookup_cached lookup_subnet_ipv4
    find_subnet matches_ipv4 maskcmp minus hash_ipv4
visited_cached = refl

lookup_subnet_ipv4-Found_example :
    let (r, s') = lookup_subnet_ipv4 5 only_bob host visited in
    (r ≡ find_subnet only_bob (matches_ipv4 host) visited.tree none)
    × Found only_bob (matches_ipv4 host) visited.tree r
    × IsCoherent (λ a. find_subnet only_bob (matches_ipv4 a) visited.tree none) s'.ipv4_cache
    × (s'.tree ≡ visited.tree)
unfolding lookup_subnet_ipv4
lookup_subnet_ipv4-Found_example =
    lookup_subnet_ipv4-Found 5 only_bob host visited visited-AreOrdered visited-IsCoherent

bobs_card_found : find_subnet only_bob (matches_mac bobs_card) known.tree none ≡ some bobs
unfolding find_subnet matches_mac memcmp or_else minus
bobs_card_found = refl

-- Alice owns no subnet of that address.
lookup_subnet_mac_mixes_example :
    (lookup_subnet_mac 5 only_bob
      (some (codes "alice"))
      bobs_card
      (lookup_subnet_mac 5 only_bob none bobs_card known).1).0
    ≡ some bobs
lookup_subnet_mac_mixes_example =
    lookup_subnet_mac_mixes 5 only_bob bobs_card (codes "alice") known bobs refl bobs_card_found
