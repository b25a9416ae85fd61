-- ===== src/Base/Bits.antt =====
-- One byte as eight bits: the laws of setting, clearing and testing a bit, by tables.
use Prim.Native.Nat.{ℕ, zero, suc, ◌-◌, ◌^◌, ◌<◌, bit_and, bit_or}
use mathlib.Core.Path.{◌≡◌, refl}
use mathlib.Core.Bool.{Bool, true, false, not, ◌&&◌, ◌||◌, beq}
use native.Mathlib.Omega.{arith}
use tinc.Base.Tests.{ltb, ◌==◌}

-- Bit `k` of the byte `b`, as `b & (1 << k)` tests it.
abbrev pub bit : ℕ → ℕ → Bool
bit b k = not (bit_and b (2 ^ k) == 0)

-- `b | 1 << k` and `b & ~(1 << k)`.
abbrev pub set_bit : ℕ → ℕ → ℕ
set_bit b k = bit_or b (2 ^ k)

abbrev pub clear_bit : ℕ → ℕ → ℕ
clear_bit b k = bit_and b (255 - 2 ^ k)

-- The test passes at every number below the limit.
unfoldable pub holds_below : ℕ → (ℕ → Bool) → Bool
holds_below zero test = true
holds_below (suc limit) test = holds_below limit test && test limit

pub below_at :
    (limit : ℕ) (test : ℕ → Bool) (at : ℕ)
    → holds_below limit test ≡ true
    → at < limit
    → test at ≡ true
unfolding holds_below
below_at (suc limit) test at passed h = ground (arith, below_at limit test at)
below_at zero test at passed h = absurd (omega arith)

pub beq→eq : (a b : Bool) → beq a b ≡ true → a ≡ b
beq→eq true true h = refl
beq→eq true false h = cc
beq→eq false true h = cc
beq→eq false false h = refl

set_row : ℕ → ℕ → ℕ → Bool
set_row b k j = beq (bit (set_bit b k) j) (k == j || bit b j)

set_table : holds_below 256 (λ b. holds_below 8 (λ k. holds_below 8 (set_row b k))) ≡ true
unfolding holds_below set_row
set_table = refl

clear_row : ℕ → ℕ → ℕ → Bool
clear_row b k j = beq (bit (clear_bit b k) j) (not (k == j) && bit b j)

clear_table : holds_below 256 (λ b. holds_below 8 (λ k. holds_below 8 (clear_row b k))) ≡ true
unfolding holds_below clear_row
clear_table = refl

range_table :
    holds_below 256 (λ b. holds_below 8 (λ k. ltb (set_bit b k) 256 && ltb (clear_bit b k) 256))
    ≡ true
unfolding holds_below
range_table = refl

table3 :
    (p : ℕ → ℕ → ℕ → Bool)
    → holds_below 256 (λ b. holds_below 8 (λ k. holds_below 8 (p b k))) ≡ true
    → (b k j : ℕ) → b < 256
    → k < 8
    → j < 8
    → p b k j ≡ true
table3 p h b k j hb hk hj =
    below_at 8 (p b k) j
      (below_at 8 (λ k. holds_below 8 (p b k)) k
        (below_at 256 (λ b. holds_below 8 (λ k. holds_below 8 (p b k))) b h hb) hk)
      hj

pub bit-set_bit : (b k j : ℕ) → b < 256 → k < 8 → j < 8 → bit (set_bit b k) j ≡ (k == j || bit b j)
unfolding set_row
bit-set_bit b k j hb hk hj = beq→eq _ _ (table3 set_row set_table b k j hb hk hj)

pub bit-clear_bit :
    (b k j : ℕ) → b < 256 → k < 8 → j < 8 → bit (clear_bit b k) j ≡ (not (k == j) && bit b j)
unfolding clear_row
bit-clear_bit b k j hb hk hj = beq→eq _ _ (table3 clear_row clear_table b k j hb hk hj)

range_row : (b k : ℕ) → b < 256 → k < 8 → (ltb (set_bit b k) 256 && ltb (clear_bit b k) 256) ≡ true
range_row b k hb hk =
    below_at 8 (λ k. ltb (set_bit b k) 256 && ltb (clear_bit b k) 256) k
      (below_at 256 (λ b. holds_below 8 (λ k. ltb (set_bit b k) 256 && ltb (clear_bit b k) 256)) b
        range_table hb)
      hk

pub set_bit-lt : (b k : ℕ) → b < 256 → k < 8 → set_bit b k < 256
set_bit-lt b k hb hk = ground (arith, range_row b k hb hk)

pub clear_bit-lt : (b k : ℕ) → b < 256 → k < 8 → clear_bit b k < 256
clear_bit-lt b k hb hk = ground (arith, range_row b k hb hk)
