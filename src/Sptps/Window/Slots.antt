-- ===== src/Sptps/Window/Slots.antt =====
-- The circular bitmap of src/sptps.c, read as one bit for each sequence number.
use native.Mathlib.Nat.{mod-eq_of_lt, mod-eq-sub-mod, mod-add-mod}
use native.Mathlib.Decide.{dec_lt, ℕ_discrete}
use tinc.Base.{
  ℕ, zero, suc, ◌+◌, ◌-◌, ◌*◌, ◌/◌, ◌%◌, ◌≤◌, ◌<◌, ◌≡◌, ◌≢◌, ◌∙◌, refl, Bool, true, false, not,
  ◌&&◌, ◌||◌, List, arith, ◌==◌, length, get_or, set, replicate, length-set, get_or-set_self,
  get_or-set_ne, get_or-replicate, length-replicate, get_or_past,
}
use tinc.Base.Bits.{
  bit, set_bit, clear_bit, bit-set_bit, bit-clear_bit, set_bit-lt, clear_bit-lt, holds_below,
  below_at,
}
use tinc.Sptps.Window.{slot, late_bit, mark_late, mark_received, mark_missed}

-- `win` bytes.
pub record IsBitmap (win : ℕ) (l : List ℕ) : Type 0 where
  pub size : length l ≡ win
  pub byte : (k : ℕ) → get_or l k 0 < 256

-- Two numbers share their place in the bitmap.
pub same_place : ℕ → ℕ → ℕ → Bool
same_place win i j = slot win i == slot win j && i % 8 == j % 8

slot-lt : (win i : ℕ) → 0 < win → slot win i < win
slot-lt win i h = omega arith

-- Fewer than `w` steps round a circle of `w` do not come back.
add-mod-ne : (w a k : ℕ) → 0 < k → k < w → (a + k) % w ≢ a % w
add-mod-ne w a k hk hw e = elim (dec_lt (a % w + k) w) [
  | yes p ↦ omega (arith, mod-add-mod a w k, mod-eq_of_lt p)
  | no p ↦ omega (
    arith,
    mod-add-mod a w k,
    mod-eq-sub-mod {n = a % w + k} {m = w} (omega arith),
    mod-eq_of_lt {n = a % w + k - w} {m = w} (omega arith),
  )
]

-- Two numbers fewer than `8 * win` apart have places of their own.
pub same_place-ne : (win i j : ℕ) → i < j → j < i + 8 * win → same_place win i j ≡ false
unfolding same_place
same_place-ne win i j h k = elim (ℕ_discrete (i % 8) (j % 8)) [
  | yes e ↦ ground (
    arith,
    add-mod-ne win (i / 8) (j / 8 - i / 8) (omega arith) (omega arith),
    shift (omega arith),
  )
  | no ne ↦ ground arith
]
  where
    shift : i / 8 ≤ j / 8 → i / 8 + (j / 8 - i / 8) ≡ j / 8
    shift p = omega arith

pub same_place_comm : (win i j : ℕ) → same_place win i j ≡ same_place win j i
unfolding same_place
same_place_comm win i j = ground arith

pub same_place_self : (win i : ℕ) → same_place win i i ≡ true
unfolding same_place
same_place_self win i = ground arith

module _ (win : ℕ) (l : List ℕ) (b : IsBitmap win l) (pos : 0 < win) where
  set-byte : (k v : ℕ) → v < 256 → (j : ℕ) → k < win → get_or (set l k v) j 0 < 256
  set-byte k v hv j hk = elim (ℕ_discrete k j) [
    | yes e ↦ rw (← e) (rw (get_or-set_self l k v 0 (omega (arith, b.size))) hv)
    | no ne ↦ rw (get_or-set_ne l k j v 0 ne) (b.byte j)
  ]

  pub IsBitmap-mark_late : (i : ℕ) → IsBitmap win (mark_late win l i)
  unfolding mark_late
  IsBitmap-mark_late i = record {
    size = length-set l _ _ ∙ b.size;
    byte = λ k. set-byte _ _ (set_bit-lt _ _ (b.byte _) (omega arith)) k (slot-lt win i pos);
  }

  pub IsBitmap-mark_received : (i : ℕ) → IsBitmap win (mark_received win l i)
  unfolding mark_received
  IsBitmap-mark_received i = record {
    size = length-set l _ _ ∙ b.size;
    byte = λ k. set-byte _ _ (clear_bit-lt _ _ (b.byte _) (omega arith)) k (slot-lt win i pos);
  }

  pub late_bit-mark_late :
      (i j : ℕ) → late_bit win (mark_late win l i) j ≡ (same_place win i j || late_bit win l j)
  unfolding mark_late late_bit same_place
  late_bit-mark_late i j = elim (ℕ_discrete (slot win i) (slot win j)) [
    | yes e ↦
        rw (← e, get_or-set_self l (slot win i) (set_bit (get_or l (slot win i) 0) (i % 8)) 0 room)
          (ground (arith, bit-set_bit (get_or l (slot win i) 0) (i % 8) (j % 8) (b.byte _)))
    | no ne ↦ rw (get_or-set_ne l (slot win i) (slot win j) _ 0 ne) (ground arith)
  ]
    where
      room : slot win i < length l
      room = omega (arith, b.size, slot-lt win i pos)

  pub late_bit-mark_received :
      (i j : ℕ)
      → late_bit win (mark_received win l i) j ≡ (not (same_place win i j) && late_bit win l j)
  unfolding mark_received late_bit same_place
  late_bit-mark_received i j = elim (ℕ_discrete (slot win i) (slot win j)) [
    | yes e ↦
        rw
          (← e, get_or-set_self l (slot win i) (clear_bit (get_or l (slot win i) 0) (i % 8)) 0 room)
          (ground (arith, bit-clear_bit (get_or l (slot win i) 0) (i % 8) (j % 8) (b.byte _)))
    | no ne ↦ rw (get_or-set_ne l (slot win i) (slot win j) _ 0 ne) (ground arith)
  ]
    where
      room : slot win i < length l
      room = omega (arith, b.size, slot-lt win i pos)

  pub late_bit_full : (j : ℕ) → late_bit win (replicate win 255) j ≡ true
  unfolding late_bit
  late_bit_full j =
      rw (get_or-replicate {A = ℕ} win 255 0 (slot win j) (slot-lt win j pos))
        (below_at 8 (λ k. bit 255 k) (j % 8) table (omega arith))
    where
      table : holds_below 8 (λ k. bit 255 k) ≡ true
      table = unfold holds_below in refl

pub IsBitmap-constant : (win v : ℕ) → v < 256 → IsBitmap win (replicate win v)
IsBitmap-constant win v h = record {
  size = length-replicate win v;
  byte = λ k. elim (dec_lt k win) [
    | yes p ↦ rw (get_or-replicate {A = ℕ} win v 0 k p) h
    | no p ↦
        rw
          (get_or_past {A = ℕ} (replicate win v) k 0
            (omega (arith, length-replicate {A = ℕ} win v)))
          (omega arith)
  ];
}

pub IsBitmap-full : (win : ℕ) → IsBitmap win (replicate win 255)
IsBitmap-full win = IsBitmap-constant win 255 (omega arith)

module _ (win : ℕ) (pos : 0 < win) where
  mark_missed-keeps :
      (n i : ℕ) (l : List ℕ) (j : ℕ)
      → IsBitmap win l
      → late_bit win l j ≡ true
      → late_bit win (mark_missed win n i l) j ≡ true
  unfolding mark_missed
  mark_missed-keeps zero i l j b h = h
  mark_missed-keeps (suc n) i l j b h =
      mark_missed-keeps n (i + 1) (mark_late win l i) j (IsBitmap-mark_late win l b pos i)
        (ground (arith, late_bit-mark_late win l b pos i j))

  -- The loop marks its own numbers, and no number of the window that it leaves behind.
  pub IsBitmap-mark_missed :
      (n i : ℕ) (l : List ℕ) → IsBitmap win l → IsBitmap win (mark_missed win n i l)
  unfolding mark_missed
  IsBitmap-mark_missed zero i l b = b
  IsBitmap-mark_missed (suc n) i l b =
      IsBitmap-mark_missed n (i + 1) (mark_late win l i) (IsBitmap-mark_late win l b pos i)

  pub late_bit-mark_missed_below :
      (n i : ℕ) (l : List ℕ) (j : ℕ)
      → IsBitmap win l
      → j < i
      → i + n ≤ j + 8 * win
      → late_bit win (mark_missed win n i l) j ≡ late_bit win l j
  unfolding mark_missed
  late_bit-mark_missed_below zero i l j b h k = refl
  late_bit-mark_missed_below (suc n) i l j b h k = ground (
    arith,
    late_bit-mark_missed_below n (i + 1) (mark_late win l i) j (IsBitmap-mark_late win l b pos i)
        (omega arith) (omega arith),
    late_bit-mark_late win l b pos i j,
    same_place-ne win j i h (omega arith),
    same_place_comm win i j,
  )

  pub late_bit-mark_missed_within :
      (n i : ℕ) (l : List ℕ) (j : ℕ)
      → IsBitmap win l
      → i ≤ j
      → j < i + n
      → late_bit win (mark_missed win n i l) j ≡ true
  unfolding mark_missed
  late_bit-mark_missed_within zero i l j b h k = absurd (omega arith)
  late_bit-mark_missed_within (suc n) i l j b h k = elim (dec_lt i j) [
    | yes p ↦
        late_bit-mark_missed_within n (i + 1) (mark_late win l i) j
          (IsBitmap-mark_late win l b pos i) (omega arith) (omega arith)
    | no p ↦
        let e : i ≡ j = omega arith in
        rw (← e) (
          mark_missed-keeps n (i + 1) (mark_late win l i) i (IsBitmap-mark_late win l b pos i)
            (ground (arith, late_bit-mark_late win l b pos i i, same_place_self win i)))
  ]
