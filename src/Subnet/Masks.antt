-- ===== src/Subnet/Masks.antt =====
-- The four functions on masks of src/subnet_parse.c, and how they relate.
use tinc.Base.{
  ℕ, suc, ◌+◌, ◌-◌, ◌*◌, ◌/◌, ◌%◌, ◌^◌, ◌<◌, ◌≤◌, ◌≡◌, ◌↔◌, refl, ap, ◌∙◌, sym, Bool, true, ◌&&◌,
  [], ◌∷◌, ◌++◌, length, get_or, take, replicate, leb, ◌==◌, if◌then◌else◌, bit_and, arith, inl,
  inr, Bool-cases,
}
use tinc.Base.Bits.{holds_below, below_at, beq→eq}
use mathlib.Core.Bool.{beq}
use tinc.Base.Bytes.{Bytes, AllBytes}
use tinc.Subnet.{pos, minus, high_bits, maskcmp, mask, maskcpy, maskcheck, all_zero}

mask_next : (x : ℕ) (b : Bytes) (n : ℕ) → mask (x ∷ b) (8 + n) ≡ x ∷ mask b n
unfolding mask
mask_next x b n =
    rw (q, r)
      (elim (Bool-cases (n % 8 == 0)) [
        | inl whole ↦ rw whole (ap (λ k. x ∷ (take (n / 8) b ++ replicate k 0)) (omega arith))
        | inr part ↦ rw part (
            ap
              (λ k.
                x ∷ (take (n / 8) b ++ (high_bits (n % 8) (get_or b (n / 8) 0) ∷ replicate k 0)))
              (omega arith))
      ])
  where
    q : (8 + n) / 8 ≡ suc (n / 8)
    q = omega arith

    r : (8 + n) % 8 ≡ n % 8
    r = omega arith

mask_last :
    (x : ℕ) (b : Bytes) (n : ℕ)
    → n < 8
    → mask (x ∷ b) n ≡ (if n == 0 then 0 else high_bits n x) ∷ replicate (length b) 0
unfolding mask
mask_last x b n h = rw (q, r) (ground arith)
  where
    q : n / 8 ≡ 0
    q = omega arith

    r : n % 8 ≡ n
    r = omega arith

mask-nil : (n : ℕ) → n ≤ 0 → mask [] n ≡ []
unfolding mask
mask-nil n h = ground arith

-- Copying under a mask and masking in place are two loops that write the same bytes, if the mask
-- is no longer than the address.
pub maskcpy-mask :
    (b : Bytes) (masklen : ℕ) → masklen ≤ 8 * length b → maskcpy b masklen ≡ mask b masklen
unfolding maskcpy
maskcpy-mask [] n h = sym (mask-nil n (omega arith))
maskcpy-mask (x ∷ b) n h = elim (Bool-cases (leb 8 n)) [
  | inl more ↦
      let e : 8 + (n - 8) ≡ n = ground arith in
      let ih = maskcpy-mask b (n - 8) (ground arith) in
      rw more (ap (λ l. x ∷ l) ih ∙ sym (mask_next x b (n - 8)) ∙ ap (mask (x ∷ b)) e)
  | inr last ↦ rw last (sym (mask_last x b n (ground arith)))
]

maskcheck_next : (x : ℕ) (b : Bytes) (n : ℕ) → maskcheck (x ∷ b) (8 + n) ≡ maskcheck b n
unfolding maskcheck
maskcheck_next x b n = rw (q, r) refl
  where
    q : (8 + n) / 8 ≡ suc (n / 8)
    q = omega arith

    r : (8 + n) % 8 ≡ n % 8
    r = omega arith

-- The byte that the mask cuts, and the test of the bits behind it.
abbrev cut_byte : ℕ → ℕ → ℕ
cut_byte n x = if n == 0 then 0 else high_bits n x

abbrev low_clear : ℕ → ℕ → Bool
low_clear n x = if n == 0 then x == 0 else bit_and x (255 / 2 ^ n) == 0

cut_row : ℕ → ℕ → Bool
cut_row x n = beq (low_clear n x) (cut_byte n x == x)

cut_table : holds_below 256 (λ x. holds_below 8 (cut_row x)) ≡ true
unfolding holds_below cut_row
cut_table = refl

low_clear-eq : (x n : ℕ) → x < 256 → n < 8 → low_clear n x ≡ (cut_byte n x == x)
unfolding cut_row
low_clear-eq x n h k =
    beq→eq _ _
      (below_at 8 (cut_row x) n (below_at 256 (λ x. holds_below 8 (cut_row x)) x cut_table h) k)

maskcheck_last :
    (x : ℕ) (b : Bytes) (n : ℕ) → n < 8 → maskcheck (x ∷ b) n ≡ (low_clear n x && all_zero b)
unfolding maskcheck all_zero
maskcheck_last x b n h = rw (q, r) (ground arith)
  where
    q : n / 8 ≡ 0
    q = omega arith

    r : n % 8 ≡ n
    r = omega arith

all_zero-replicate : (b : Bytes) → (all_zero b ≡ true) ↔ (replicate (length b) 0 ≡ b)
unfolding all_zero
all_zero-replicate [] = (λ h. refl, λ h. refl)
all_zero-replicate (x ∷ b) = ground (arith, all_zero-replicate b)

maskcheck-nil : (n : ℕ) → n ≤ 0 → maskcheck [] n ≡ true
unfolding maskcheck all_zero
maskcheck-nil n h = ground arith

last_iff :
    (x : ℕ) (b : Bytes) (n : ℕ)
    → x < 256
    → n < 8
    → (maskcheck (x ∷ b) n ≡ true) ↔ (mask (x ∷ b) n ≡ x ∷ b)
last_iff x b n h k =
    rw (maskcheck_last x b n k, mask_last x b n k, low_clear-eq x n h k)
      (ground (arith, all_zero-replicate b))

next_iff :
    (x : ℕ) (b : Bytes) (n : ℕ)
    → ((maskcheck b n ≡ true) ↔ (mask b n ≡ b))
    → (maskcheck (x ∷ b) (8 + n) ≡ true) ↔ (mask (x ∷ b) (8 + n) ≡ x ∷ b)
next_iff x b n ih = rw (maskcheck_next x b n, mask_next x b n) (ground (arith, ih))

-- `maskcheck` accepts an address exactly if masking leaves it as it is, for an address of bytes
-- that is as long as the mask or longer.
pub maskcheck_iff :
    (a : Bytes) (masklen : ℕ)
    → AllBytes a
    → masklen ≤ 8 * length a
    → (maskcheck a masklen ≡ true) ↔ (mask a masklen ≡ a)
maskcheck_iff [] n h k = ground (arith, maskcheck-nil n (omega arith), mask-nil n (omega arith))
maskcheck_iff (x ∷ a) n h k = elim (Bool-cases (leb 8 n)) [
  | inl more ↦
      let e : 8 + (n - 8) ≡ n = ground arith in
      rw e at (next_iff x a (n - 8) (maskcheck_iff a (n - 8) h.1 (ground arith)))
  | inr less ↦ last_iff x a n h.0 (ground arith)
]

minus_zero : (x y : ℕ) → (minus x y ≡ pos 0) ↔ (x ≡ y)
unfolding minus
minus_zero x y = ground arith

compare_next :
    (x y : ℕ) (a b : Bytes) (n : ℕ)
    → ((maskcmp a b n ≡ pos 0) ↔ (mask a n ≡ mask b n))
    → (maskcmp (x ∷ a) (y ∷ b) (8 + n) ≡ pos 0) ↔ (mask (x ∷ a) (8 + n) ≡ mask (y ∷ b) (8 + n))
unfolding maskcmp
compare_next x y a b n ih =
    let e : 8 + n - 8 ≡ n = omega arith in
    rw (mask_next x a n, mask_next y b n, e) (ground (arith, ih, minus_zero x y))

compare_last :
    (x y : ℕ) (a b : Bytes) (n : ℕ)
    → length a ≡ length b
    → n < 8
    → (maskcmp (x ∷ a) (y ∷ b) n ≡ pos 0) ↔ (mask (x ∷ a) n ≡ mask (y ∷ b) n)
unfolding maskcmp
compare_last x y a b n e h =
    rw (mask_last x a n h, mask_last y b n h)
      (ground (arith, minus_zero (high_bits n x) (high_bits n y)))

-- Two addresses of the same length compare as equal under a mask that is no longer than they are
-- exactly if masking makes them the same: this is how a subnet is found for an address.
pub maskcmp_iff :
    (a b : Bytes) (masklen : ℕ)
    → length a ≡ length b
    → masklen ≤ 8 * length a
    → (maskcmp a b masklen ≡ pos 0) ↔ (mask a masklen ≡ mask b masklen)
unfolding maskcmp
maskcmp_iff [] [] n e k = (λ h. refl, λ h. refl)
maskcmp_iff [] (y ∷ b) n e k = absurd (omega arith)
maskcmp_iff (x ∷ a) [] n e k = absurd (omega arith)
maskcmp_iff (x ∷ a) (y ∷ b) n e k = elim (Bool-cases (leb 8 n)) [
  | inl more ↦
      let eq : 8 + (n - 8) ≡ n = ground arith in
      rw eq at (compare_next x y a b (n - 8) (maskcmp_iff a b (n - 8) (omega arith) (ground arith)))
  | inr less ↦ compare_last x y a b n (omega arith) (ground arith)
]
