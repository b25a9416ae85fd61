-- ===== src/Subnet/Compare.antt =====
-- The order of subnets in src/subnet_parse.c: `subnet_compare` and its three cases, over the
-- subnets of src/subnet.h.
use tinc.Base.{ℕ, zero, suc, ◌+◌, Option, none, some, [], ◌∷◌, Bool, true}
use tinc.Base.Bytes.{Bytes}
use tinc.Subnet.{ℤ, pos, negsuc, minus, maskcheck}

-- The type of a subnet and the member of the union that goes with it; a mask comes before its
-- address, the address is its bytes.
pub data Net : Type 0 where
  mac : Bytes → Net
  ipv4 : ℕ → Bytes → Net
  ipv6 : ℕ → Bytes → Net

-- `owner` is the name of the node, or none where the pointer is NULL. The expiry time stands in
-- `Traffic` of Route.antt.
pub record Subnet : Type 0 where
  pub owner : Option Bytes
  pub weight : ℤ
  pub net : Net

-- The difference of two ints, where it fits an int.
infixl 20 ◌-ℤ◌
unfoldable pub ◌-ℤ◌ : ℤ → ℤ → ℤ
pos a -ℤ pos b = minus a b
pos a -ℤ negsuc b = pos (suc (a + b))
negsuc a -ℤ pos b = negsuc (a + b)
negsuc a -ℤ negsuc b = minus b a

-- if(result) return result;
unfoldable pub or_else : ℤ → ℤ → ℤ
or_else (pos zero) rest = rest
or_else (pos (suc n)) rest = pos (suc n)
or_else (negsuc n) rest = negsuc n

-- `memcmp` of two addresses of the same length and `strcmp` of two texts: the difference of the
-- first bytes that differ, where the end of a text is a NUL.
unfoldable pub memcmp : Bytes → Bytes → ℤ
memcmp [] [] = pos 0
memcmp [] (y ∷ b) = minus 0 y
memcmp (x ∷ a) [] = minus x 0
memcmp (x ∷ a) (y ∷ b) = or_else (minus x y) (memcmp a b)

unfoldable pub compare_owner : Option Bytes → Option Bytes → ℤ
compare_owner none b = pos 0
compare_owner (some a) none = pos 0
compare_owner (some a) (some b) = memcmp a b

-- The weights, then the names of the owners if both are known.
unfoldable pub compare_rest : Subnet → Subnet → ℤ
compare_rest a b = or_else (a.weight -ℤ b.weight) (compare_owner a.owner b.owner)

unfoldable pub type_number : Net → ℕ
type_number (Net.mac address) = 0
type_number (Net.ipv4 prefixlength address) = 1
type_number (Net.ipv6 prefixlength address) = 2

-- The masks, the longer one first, and the addresses; subnets of different types do not come here.
unfoldable pub compare_net : Net → Net → ℤ
compare_net (Net.mac a) (Net.mac b) = memcmp a b
compare_net (Net.ipv4 p a) (Net.ipv4 q b) = or_else (minus q p) (memcmp a b)
compare_net (Net.ipv6 p a) (Net.ipv6 q b) = or_else (minus q p) (memcmp a b)
compare_net _ _ = pos 0

unfoldable pub subnet_compare : Subnet → Subnet → ℤ
subnet_compare a b =
    or_else (minus (type_number a.net) (type_number b.net))
      (or_else (compare_net a.net b.net) (compare_rest a b))

unfoldable pub subnetcheck : Subnet → Bool
subnetcheck s = elim s.net [
  | Net.mac address ↦ true
  | Net.ipv4 prefixlength address ↦ maskcheck address prefixlength
  | Net.ipv6 prefixlength address ↦ maskcheck address prefixlength
]
