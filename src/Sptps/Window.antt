-- ===== src/Sptps/Window.antt =====
-- The replay window of a session: the fields of `sptps_t` that `sptps_check_seqno`
-- (src/sptps.c) reads and writes, and that function.
pub mod Slots
pub mod Refine
pub mod Replay
pub mod Far
use tinc.Base.{
  ℕ, zero, suc, ◌+◌, ◌-◌, ◌*◌, ◌/◌, ◌%◌, ◌^◌, Bool, true, false, not, ◌&&◌, ◌||◌, List, ltb, leb,
  ◌==◌, if◌then◌else◌, get_or, set, replicate,
}
use tinc.Base.Bytes.{u32}
use tinc.Base.Bits.{bit, set_bit, clear_bit}

-- `late` is the circular bitmap of `replaywin` bytes: a 1 bit is a packet not received yet.
pub record Window : Type 0 where
  pub inseqno : ℕ
  pub received : ℕ
  pub replaywin : ℕ
  pub farfuture : ℕ
  pub late : List ℕ

-- late[(i / 8) % replaywin] and the bit i % 8 of it
abbrev pub slot : ℕ → ℕ → ℕ
slot win i = i / 8 % win

unfoldable pub late_bit : ℕ → List ℕ → ℕ → Bool
late_bit win l i = bit (get_or l (slot win i) 0) (i % 8)

unfoldable pub mark_late : ℕ → List ℕ → ℕ → List ℕ
mark_late win l i = set l (slot win i) (set_bit (get_or l (slot win i) 0) (i % 8))

unfoldable pub mark_received : ℕ → List ℕ → ℕ → List ℕ
mark_received win l i = set l (slot win i) (clear_bit (get_or l (slot win i) 0) (i % 8))

-- for(i = from; i < from + rounds; i++) late[..] |= ..
unfoldable pub mark_missed : ℕ → ℕ → ℕ → List ℕ → List ℕ
mark_missed win zero i l = l
mark_missed win (suc rounds) i l = mark_missed win rounds (i + 1) (mark_late win l i)

-- The end of the function: the expected number moves on, and the packet is counted.
unfoldable pub advance : Window → ℕ → Window
advance w seqno =
    let next = if leb w.inseqno seqno then u32 (seqno + 1) else w.inseqno in
    record w { inseqno = next; received = if next == 0 then 0 else u32 (w.received + 1) }

-- The packet passes: its bit is cleared and the counters move on, if the state is to be updated.
unfoldable pub accept : Window → ℕ → Bool → Bool × Window
accept w seqno false = (true, w)
accept w seqno true = (
  true,
  advance (record w { late = mark_received w.replaywin w.late seqno; farfuture = 0 }) seqno,
)

-- A packet beyond the window: dropped until `replaywin >> 2` of them came in a row.
unfoldable pub far_future : Window → ℕ → Bool → Bool × Window
unfolding accept
far_future w seqno update =
    let counted = if update then record w { farfuture = u32 (w.farfuture + 1) } else w in
    if ltb w.farfuture (w.replaywin / 4)
    then (false, counted)
    else accept (if update then record counted { late = replicate w.replaywin 255 } else counted)
        seqno update

-- Farther in the past than the bitmap goes, or received already.
abbrev pub is_stale : Window → ℕ → Bool
is_stale w seqno =
    (leb (u32 (w.replaywin * 8)) w.inseqno && ltb seqno (w.inseqno - u32 (w.replaywin * 8)))
    || not (late_bit w.replaywin w.late seqno)

unfoldable pub check_seqno : Window → ℕ → Bool → Bool × Window
unfolding accept far_future advance
check_seqno w seqno update =
    if w.replaywin == 0
    then (true, if update then advance w seqno else w)
    else (if seqno == w.inseqno
        then accept w seqno update
        else (if leb (u32 (w.inseqno + w.replaywin * 8)) seqno
            then far_future w seqno update
            else (if ltb seqno w.inseqno
                then (if is_stale w seqno then (false, w) else accept w seqno update)
                else accept
                    (if update
                      then record w {
                        late = mark_missed w.replaywin (seqno - w.inseqno) w.inseqno w.late;
                      }
                      else w)
                    seqno update)))
