-- ===== src/Subnet/Order.antt =====
-- What the order of subnets in src/subnet_parse.c promises to the trees that are sorted by it.
use tinc.Base.{ℕ, zero, suc, ◌≡◌, ◌↔◌, refl, ap, Option, none, some, [], ◌∷◌, length, arith, false}
use tinc.Base.Bytes.{Bytes}
use tinc.Subnet.{ℤ, pos, negsuc, minus}
use tinc.Utils.Names.{contains}
use tinc.Subnet.Compare.{
  Net, Subnet, ◌-ℤ◌, or_else, memcmp, compare_owner, compare_rest, type_number, compare_net,
  subnet_compare,
}

abbrev pub negate : ℤ → ℤ
negate (pos zero) = pos zero
negate (pos (suc n)) = negsuc n
negate (negsuc n) = pos (suc n)

negate-minus : (a b : ℕ) → negate (minus a b) ≡ minus b a
unfolding minus
negate-minus a b = ground arith

negate-or_else : (r s : ℤ) → negate (or_else r s) ≡ or_else (negate r) (negate s)
unfolding or_else
negate-or_else (pos zero) s = refl
negate-or_else (pos (suc n)) s = refl
negate-or_else (negsuc n) s = refl

negate-memcmp : (a b : Bytes) → negate (memcmp a b) ≡ memcmp b a
unfolding memcmp
negate-memcmp [] [] = refl
negate-memcmp [] (y ∷ b) = negate-minus 0 y
negate-memcmp (x ∷ a) [] = negate-minus x 0
negate-memcmp (x ∷ a) (y ∷ b) = rw (negate-or_else, negate-minus, negate-memcmp a b) refl

negate-sub : (a b : ℤ) → negate (a -ℤ b) ≡ b -ℤ a
unfolding ◌-ℤ◌
negate-sub (pos a) (pos b) = negate-minus a b
negate-sub (pos a) (negsuc b) = ap negsuc (omega arith)
negate-sub (negsuc a) (pos b) = ap (λ n. pos (suc n)) (omega arith)
negate-sub (negsuc a) (negsuc b) = negate-minus b a

negate-owner : (a b : Option Bytes) → negate (compare_owner a b) ≡ compare_owner b a
unfolding compare_owner
negate-owner none none = refl
negate-owner none (some b) = refl
negate-owner (some a) none = refl
negate-owner (some a) (some b) = negate-memcmp a b

negate-rest : (a b : Subnet) → negate (compare_rest a b) ≡ compare_rest b a
unfolding compare_rest
negate-rest a b = rw (negate-or_else, negate-sub, negate-owner) refl

prefix_first :
    (p q : ℕ) (a b : Bytes)
    → negate (or_else (minus q p) (memcmp a b)) ≡ or_else (minus p q) (memcmp b a)
prefix_first p q a b = rw (negate-or_else, negate-minus, negate-memcmp) refl

negate-net : (a b : Net) → negate (compare_net a b) ≡ compare_net b a
unfolding compare_net
negate-net (Net.mac a) (Net.mac b) = negate-memcmp a b
negate-net (Net.mac a) (Net.ipv4 q b) = refl
negate-net (Net.mac a) (Net.ipv6 q b) = refl
negate-net (Net.ipv4 p a) (Net.mac b) = refl
negate-net (Net.ipv4 p a) (Net.ipv4 q b) = prefix_first p q a b
negate-net (Net.ipv4 p a) (Net.ipv6 q b) = refl
negate-net (Net.ipv6 p a) (Net.mac b) = refl
negate-net (Net.ipv6 p a) (Net.ipv4 q b) = refl
negate-net (Net.ipv6 p a) (Net.ipv6 q b) = prefix_first p q a b

-- The order is antisymmetric: comparing two subnets the other way round gives the negated result.
pub negate-subnet_compare : (a b : Subnet) → negate (subnet_compare a b) ≡ subnet_compare b a
unfolding subnet_compare
negate-subnet_compare a b =
    rw (negate-or_else, negate-minus, negate-or_else, negate-net, negate-rest) refl

or_else_zero : (r s : ℤ) → (or_else r s ≡ pos 0) ↔ ((r ≡ pos 0) × (s ≡ pos 0))
unfolding or_else
or_else_zero (pos zero) s = ground arith
or_else_zero (pos (suc n)) s = ground arith
or_else_zero (negsuc n) s = ground arith

minus_zero : (a b : ℕ) → (minus a b ≡ pos 0) ↔ (a ≡ b)
unfolding minus
minus_zero a b = ground arith

sub_zero : (a b : ℤ) → (a -ℤ b ≡ pos 0) ↔ (a ≡ b)
unfolding ◌-ℤ◌
sub_zero (pos a) (pos b) = ground (arith, minus_zero a b)
sub_zero (pos a) (negsuc b) = ground arith
sub_zero (negsuc a) (pos b) = ground arith
sub_zero (negsuc a) (negsuc b) = ground (arith, minus_zero b a)

memcmp_zero : (a b : Bytes) → length a ≡ length b → (memcmp a b ≡ pos 0) ↔ (a ≡ b)
unfolding memcmp
memcmp_zero [] [] e = (λ h. refl, λ h. refl)
memcmp_zero [] (y ∷ b) e = absurd (omega arith)
memcmp_zero (x ∷ a) [] e = absurd (omega arith)
memcmp_zero (x ∷ a) (y ∷ b) e =
    ground (arith, or_else_zero (minus x y) (memcmp a b), minus_zero x y, memcmp_zero a b)

strcmp_zero :
    (a b : Bytes) → contains a 0 ≡ false → contains b 0 ≡ false → (memcmp a b ≡ pos 0) ↔ (a ≡ b)
unfolding memcmp
strcmp_zero [] [] p q = (λ h. refl, λ h. refl)
strcmp_zero [] (y ∷ b) p q = ground (arith, minus_zero 0 y)
strcmp_zero (x ∷ a) [] p q = ground (arith, minus_zero x 0)
strcmp_zero (x ∷ a) (y ∷ b) p q =
    ground (arith, or_else_zero (minus x y) (memcmp a b), minus_zero x y, strcmp_zero a b)

-- The addresses have the lengths of `mac_t`, `ipv4_t` and `ipv6_t`.
abbrev pub IsSized : Net → Type 0
IsSized (Net.mac address) = length address ≡ 6
IsSized (Net.ipv4 prefixlength address) = length address ≡ 4
IsSized (Net.ipv6 prefixlength address) = length address ≡ 16

prefix_zero :
    (p q : ℕ) (a b : Bytes)
    → length a ≡ length b
    → (or_else (minus q p) (memcmp a b) ≡ pos 0) ↔ ((p ≡ q) × (a ≡ b))
prefix_zero p q a b e =
    ground (arith, or_else_zero (minus q p) (memcmp a b), minus_zero q p, memcmp_zero a b e)

net_zero :
    (a b : Net)
    → IsSized a
    → IsSized b
    → (or_else (minus (type_number a) (type_number b)) (compare_net a b) ≡ pos 0) ↔ (a ≡ b)
unfolding compare_net type_number or_else minus
net_zero (Net.mac a) (Net.mac b) h k = ground (arith, memcmp_zero a b)
net_zero (Net.mac a) (Net.ipv4 q b) h k = ground arith
net_zero (Net.mac a) (Net.ipv6 q b) h k = ground arith
net_zero (Net.ipv4 p a) (Net.mac b) h k = ground arith
net_zero (Net.ipv4 p a) (Net.ipv4 q b) h k = ground (arith, prefix_zero p q a b)
net_zero (Net.ipv4 p a) (Net.ipv6 q b) h k = ground arith
net_zero (Net.ipv6 p a) (Net.mac b) h k = ground arith
net_zero (Net.ipv6 p a) (Net.ipv4 q b) h k = ground arith
net_zero (Net.ipv6 p a) (Net.ipv6 q b) h k = ground (arith, prefix_zero p q a b)

rest_zero :
    (a b : Subnet) (m n : Bytes)
    → a.owner ≡ some m
    → b.owner ≡ some n
    → contains m 0 ≡ false
    → contains n 0 ≡ false
    → (compare_rest a b ≡ pos 0) ↔ ((a.weight ≡ b.weight) × (m ≡ n))
unfolding compare_rest compare_owner
rest_zero a b m n e f p q =
    rw (e, f)
      (ground (
        arith,
        or_else_zero (a.weight -ℤ b.weight) (memcmp m n),
        sub_zero a.weight b.weight,
        strcmp_zero m n p q,
      ))

-- Two subnets that have owners, whose names hold no NUL, and whose addresses have the length of
-- their type compare as equal exactly if they agree in type, mask, address, weight and owner.
pub subnet_compare_zero :
    (a b : Subnet) (m n : Bytes)
    → a.owner ≡ some m
    → b.owner ≡ some n
    → contains m 0 ≡ false
    → contains n 0 ≡ false
    → IsSized a.net
    → IsSized b.net
    → (subnet_compare a b ≡ pos 0) ↔ (a ≡ b)
unfolding subnet_compare
subnet_compare_zero a b m n e f p q h k = ground (
  arith,
  or_else_zero (minus (type_number a.net) (type_number b.net))
      (or_else (compare_net a.net b.net) (compare_rest a b)),
  or_else_zero (compare_net a.net b.net) (compare_rest a b),
  or_else_zero (minus (type_number a.net) (type_number b.net)) (compare_net a.net b.net),
  net_zero a.net b.net h k,
  rest_zero a b m n e f p q,
)
