-- ===== src/Sptps/Window/Refine.antt =====
-- `sptps_check_seqno` (src/sptps.c) against the set of the numbers that are still missing.
use native.Mathlib.Decide.{ℕ_discrete}
use tinc.Base.{
  ℕ, ◌+◌, ◌-◌, ◌*◌, ◌/◌, ◌%◌, ◌^◌, ◌≢◌, if_intro, ◌≤◌, ◌<◌, ◌≡◌, inl, inr, sym, ◌∙◌, Bool-cases,
  Bool, true, false, not, ◌&&◌, ◌||◌, List, arith, ltb, leb, ◌==◌, if◌then◌else◌, replicate,
}
use tinc.Sptps.Window.{Window, late_bit, mark_received, mark_missed, check_seqno}
use tinc.Sptps.Window.Slots.{
  IsBitmap, IsBitmap-mark_received, IsBitmap-mark_missed, IsBitmap-full, late_bit-mark_received,
  late_bit-mark_missed_below, late_bit-mark_missed_within, late_bit_full, same_place-ne,
  same_place_comm, same_place_self, same_place,
}

pub record IsValid (w : Window) : Type 0 where
  pub active : 0 < w.replaywin
  pub bitmap : IsBitmap w.replaywin w.late
  pub next : w.inseqno < 2 ^ 32

-- The end of the window has not come round to the start of the number space.
abbrev pub HasRoom : Window → Type 0
HasRoom w = w.inseqno + 8 * w.replaywin < 2 ^ 32

abbrev pub missing : Window → ℕ → Bool
missing w j = late_bit w.replaywin w.late j

-- The decision in terms of distances: a new number passes if it is less than a window ahead, or
-- after enough far ones; an old one if it lies in the window and is missing.
unfoldable pub passes : Window → ℕ → Bool
passes w n =
    if ltb n w.inseqno
    then leb w.inseqno (n + 8 * w.replaywin) && missing w n
    else ltb n (w.inseqno + 8 * w.replaywin) || leb (w.replaywin / 4) w.farfuture

-- While a valid window has room, `sptps_check_seqno` decides by distance and bitmap as `passes`
-- says.
pub check_seqno-passes :
    (w : Window) (n : ℕ) (update : Bool)
    → IsValid w
    → HasRoom w
    → (check_seqno w n update).0 ≡ passes w n
unfolding check_seqno passes
check_seqno-passes w n true v r = ground arith
check_seqno-passes w n false v r = ground arith

-- A check that may not update leaves the state alone, and gives the verdict that the updating
-- check of the same packet would give.
pub check_seqno_peek : (w : Window) (n : ℕ) → check_seqno w n false ≡ ((check_seqno w n true).0, w)
unfolding check_seqno
check_seqno_peek w n = ground arith

-- A refused packet changes no bit of the bitmap, nor the expected number, nor the count.
pub check_seqno_refused :
    (w : Window) (n : ℕ)
    → (check_seqno w n true).0 ≡ false
    → let w' = (check_seqno w n true).1 in
      (w'.late ≡ w.late)
      × (w'.inseqno ≡ w.inseqno)
      × (w'.received ≡ w.received)
      × (w'.replaywin ≡ w.replaywin)
unfolding check_seqno
check_seqno_refused w n h = ground arith

pub replaywin-check_seqno :
    (w : Window) (n : ℕ) (update : Bool) → (check_seqno w n update).1.replaywin ≡ w.replaywin
unfolding check_seqno
replaywin-check_seqno w n true = ground arith
replaywin-check_seqno w n false = ground arith

-- The bitmap before the packet's own bit is cleared.
base : Window → ℕ → List ℕ
base w n =
    if n == w.inseqno
    then w.late
    else (if leb ((w.inseqno + w.replaywin * 8) % 2 ^ 32) n
        then replicate w.replaywin 255
        else (if ltb n w.inseqno
            then w.late
            else mark_missed w.replaywin (n - w.inseqno) w.inseqno w.late))

IsBitmap-base : (w : Window) (n : ℕ) → IsValid w → IsBitmap w.replaywin (base w n)
unfolding base
IsBitmap-base w n v = if_intro P _ v.bitmap (
    if_intro P _ (IsBitmap-full w.replaywin) (
      if_intro P _ v.bitmap
        (IsBitmap-mark_missed w.replaywin v.active (n - w.inseqno) w.inseqno w.late v.bitmap)))
  where
    P : List ℕ → Type 0
    P = IsBitmap w.replaywin

late_bit-base :
    (w : Window) (n j : ℕ)
    → IsValid w
    → HasRoom w
    → j < (if ltb n w.inseqno then w.inseqno else n + 1)
    → (if ltb n w.inseqno then w.inseqno else n + 1) ≤ j + 8 * w.replaywin
    → j ≢ n
    → late_bit w.replaywin (base w n) j ≡ (leb w.inseqno j || missing w j)
unfolding base
late_bit-base w n j v r h k m = ground (
  arith,
  late_bit_full w.replaywin w.late v.bitmap v.active j,
  late_bit-mark_missed_below w.replaywin v.active (n - w.inseqno) w.inseqno w.late j v.bitmap,
  late_bit-mark_missed_within w.replaywin v.active (n - w.inseqno) w.inseqno w.late j v.bitmap,
)

accepted :
    (w : Window) (n : ℕ)
    → IsValid w
    → (check_seqno w n true).0 ≡ true
    → let w' = (check_seqno w n true).1 in
      (w'.late ≡ mark_received w.replaywin (base w n) n)
      × (w'.inseqno ≡ (if ltb n w.inseqno then w.inseqno else (n + 1) % 2 ^ 32))
      × (w'.replaywin ≡ w.replaywin)
      × (w'.farfuture ≡ 0)
unfolding check_seqno base
accepted w n v h = ground arith

-- A check keeps a valid window valid, if the number that comes after the packet's fits 32 bits.
pub check_seqno-IsValid :
    (w : Window) (n : ℕ) (update : Bool)
    → IsValid w
    → n + 1 < 2 ^ 32
    → IsValid (check_seqno w n update).1
check_seqno-IsValid w n false v h = rw check_seqno_peek v
check_seqno-IsValid w n true v h = elim (Bool-cases (check_seqno w n true).0) [
  | inl ok ↦ ground (
    arith,
    accepted w n v ok,
    IsBitmap-base w n v,
    IsBitmap-mark_received w.replaywin (base w n) (IsBitmap-base w n v) v.active n,
  )
  | inr refused ↦ ground (arith, check_seqno_refused w n refused)
]

within : (w : Window) (n : ℕ) → passes w n ≡ true → w.inseqno ≤ n + 8 * w.replaywin
unfolding passes
within w n h = ground arith

-- Clearing the packet's own bit leaves the law of the others.
cleared :
    (w : Window) (n j : ℕ)
    → IsValid w
    → HasRoom w
    → w.inseqno ≤ n + 8 * w.replaywin
    → j < (if ltb n w.inseqno then w.inseqno else n + 1)
    → (if ltb n w.inseqno then w.inseqno else n + 1) ≤ j + 8 * w.replaywin
    → late_bit w.replaywin (mark_received w.replaywin (base w n) n) j
      ≡ (not (j == n) && (leb w.inseqno j || missing w j))
cleared w n j v r near p q = elim (ℕ_discrete j n) [
  | yes e ↦ rw (e, law n) (ground (arith, same_place_self w.replaywin n))
  | no ne ↦ rw law (
      ground (
        arith,
        late_bit-base w n j v r p q ne,
        same_place-ne w.replaywin n j,
        same_place-ne w.replaywin j n,
        same_place_comm w.replaywin n j,
      ))
]
  where
    law :
        (k : ℕ)
        → late_bit w.replaywin (mark_received w.replaywin (base w n) n) k
          ≡ (not (same_place w.replaywin n k) && late_bit w.replaywin (base w n) k)
    law = late_bit-mark_received w.replaywin (base w n) (IsBitmap-base w n v) v.active n

pub check_seqno-missing :
    (w : Window) (n : ℕ)
    → IsValid w
    → HasRoom w
    → n + 1 < 2 ^ 32
    → (check_seqno w n true).0 ≡ true
    → let w' = (check_seqno w n true).1 in
      (w'.inseqno ≡ (if ltb n w.inseqno then w.inseqno else n + 1))
      × ((j : ℕ)
          → j < w'.inseqno
          → w'.inseqno ≤ j + 8 * w.replaywin
          → missing w' j ≡ (not (j == n) && (leb w.inseqno j || missing w j)))
check_seqno-missing w n v r h ok =
    let (late, next, win, _) = accepted w n v ok in
    let moved : (check_seqno w n true).1.inseqno ≡ (if ltb n w.inseqno then w.inseqno else n + 1) =
      ground arith in
    let near : w.inseqno ≤ n + 8 * w.replaywin =
      within w n (sym (check_seqno-passes w n true v r) ∙ ok) in
    (moved, λ j p q. rw (win, late) (cleared w n j v r near (rw moved at p) (rw moved at q)))

-- While a valid window has room, after a packet has passed whose next number fits, exactly these
-- numbers of the moved window are missing: those from its old end on, and those that were missing
-- before, less the packet's own. The new end is the old one, or comes right after the packet.
pub missing-check_seqno :
    (w : Window) (n j : ℕ)
    → IsValid w
    → HasRoom w
    → n + 1 < 2 ^ 32
    → (check_seqno w n true).0 ≡ true
    → j < (check_seqno w n true).1.inseqno
    → (check_seqno w n true).1.inseqno ≤ j + 8 * w.replaywin
    → ((check_seqno w n true).1.inseqno ≡ (if ltb n w.inseqno then w.inseqno else n + 1))
      × (missing (check_seqno w n true).1 j ≡ (not (j == n) && (leb w.inseqno j || missing w j)))
missing-check_seqno w n j v r h ok p q =
    let (moved, law) = check_seqno-missing w n v r h ok in (moved, law j p q)
