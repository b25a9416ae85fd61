-- ===== src/Sptps/Tests/Windows.antt =====
-- The theorems on the replay window of src/sptps.c at concrete windows.
use tinc.Base.{ℕ, ◌^◌, ◌≡◌, ◌<◌, refl, true, false, [], ◌∷◌, replicate, arith}
use tinc.Sptps.Window.{Window, check_seqno, late_bit}
use tinc.Sptps.Window.Slots.{IsBitmap-constant}
use tinc.Sptps.Window.Refine.{IsValid, missing, passes, check_seqno-passes, missing-check_seqno}
use tinc.Sptps.Window.Replay.{run, no_replay}
use tinc.Sptps.Window.Far.{replay_at_wrap}

-- A window of 16 bytes, all of whose places hold `byte`, before the packet `next`.
abbrev window_at : ℕ → ℕ → ℕ → Window
window_at next byte far = record {
  inseqno = next;
  received = 3;
  replaywin = 16;
  farfuture = far;
  late = replicate 16 byte;
}

window_at-IsValid :
    (next byte far : ℕ) → next < 2 ^ 32 → byte < 256 → IsValid (window_at next byte far)
window_at-IsValid next byte far h k = record {
  active = omega arith;
  bitmap = IsBitmap-constant 16 byte k;
  next = h;
}

-- Ten packets came; all were received.
abbrev calm : Window
calm = window_at 10 0 0

calm-IsValid : IsValid calm
calm-IsValid = window_at-IsValid 10 0 0 (omega arith) (omega arith)

calm-accepts : (check_seqno calm 12 true).0 ≡ true
unfolding check_seqno
calm-accepts = refl

calm-refuses : (check_seqno calm 9 true).0 ≡ false
unfolding check_seqno late_bit
calm-refuses = refl

check_seqno-passes_example : (check_seqno calm 12 true).0 ≡ passes calm 12
check_seqno-passes_example = check_seqno-passes calm 12 true calm-IsValid (omega arith)

calm-next : (check_seqno calm 12 true).1.inseqno ≡ 13
unfolding check_seqno
calm-next = refl

missing-check_seqno_example :
    ((check_seqno calm 12 true).1.inseqno ≡ 13) × (missing (check_seqno calm 12 true).1 11 ≡ true)
missing-check_seqno_example =
    missing-check_seqno calm 12 11 calm-IsValid (omega arith) (omega arith) calm-accepts
      (omega (arith, calm-next)) (omega (arith, calm-next))

no_replay_example :
    (check_seqno
      (run ((20, true) ∷ (12, false) ∷ (11, true) ∷ []) (check_seqno calm 12 true).1)
      12
      true).0
    ≡ false
no_replay_example =
    no_replay calm 12 ((20, true) ∷ (12, false) ∷ (11, true) ∷ []) true calm-IsValid (omega arith)
      (omega arith) (omega arith, (omega arith, (omega arith, tt))) calm-accepts

-- All of the last 128 packets were received, and packet 4294967290 passes again.
replay_at_wrap_example : (check_seqno (window_at 4294967295 0 4) 4294967290 true).0 ≡ true
replay_at_wrap_example =
    replay_at_wrap (window_at 4294967295 0 4) 4294967290
      (window_at-IsValid 4294967295 0 4 (omega arith) (omega arith)) (omega arith) (omega arith)
      (omega arith) (omega arith) (omega arith)
