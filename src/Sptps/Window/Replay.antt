-- ===== src/Sptps/Window/Replay.antt =====
-- What the replay window of src/sptps.c promises over whole runs of checks.
use tinc.Base.{
  ℕ, ◌+◌, ◌*◌, ◌^◌, ◌≤◌, ◌<◌, ◌≡◌, inl, inr, refl, ◌∙◌, Bool, true, false, List, [], ◌∷◌, arith,
  Bool-cases,
}
use tinc.Sptps.Window.{Window, check_seqno}
use tinc.Sptps.Window.Refine.{
  IsValid, HasRoom, missing, passes, check_seqno-passes, check_seqno_peek, check_seqno_refused,
  check_seqno-IsValid, check_seqno-missing, replaywin-check_seqno,
}

-- The calls of `sptps_check_seqno` that arriving packets cause: each with its number and whether
-- it may update the state.
unfoldable pub run : List (ℕ × Bool) → Window → Window
run [] w = w
run ((n, update) ∷ ops) w = run ops (check_seqno w n update).1

-- A number with room for a whole window behind it.
abbrev pub Fits : ℕ → ℕ → Type 0
Fits win n = n + 1 + 8 * win < 2 ^ 32

abbrev pub AllFit : ℕ → List (ℕ × Bool) → Type 0
AllFit win [] = Unit {0}
AllFit win ((n, update) ∷ ops) = Fits win n × AllFit win ops

-- The number was received: it can only lie before the window, or in it and not be missing.
record Seen (win n : ℕ) (w : Window) : Type 0 where
  valid : IsValid w
  room : HasRoom w
  same_win : w.replaywin ≡ win
  passed : n < w.inseqno
  marked : w.inseqno ≤ n + 8 * win → missing w n ≡ false

module _ (win n : ℕ) (w : Window) where
  Seen-refused : Seen win n w → (update : Bool) → (check_seqno w n update).0 ≡ false
  unfolding passes
  Seen-refused s update = ground (arith, check_seqno-passes w n update s.valid s.room, s.marked)

  Seen-check_seqno :
      (m : ℕ) (update : Bool) → Fits win m → Seen win n w → Seen win n (check_seqno w m update).1
  Seen-check_seqno m false f s = rw check_seqno_peek s
  Seen-check_seqno m true f s = elim (Bool-cases (check_seqno w m true).0) [
    | inl ok ↦
        let (moved, law) = check_seqno-missing w m s.valid s.room (omega arith) ok in
        let kept = replaywin-check_seqno w m true in
        record {
          valid = check_seqno-IsValid w m true s.valid (omega arith);
          room = ground (arith, s.same_win, s.room);
          same_win = kept ∙ s.same_win;
          passed = ground (arith, s.passed);
          marked = λ p. ground (
            arith,
            law n,
            s.marked,
            s.same_win,
            s.passed,
            check_seqno-passes w m true s.valid s.room,
            Seen-refused s true,
          );
        }
    | inr refused ↦
        let (late, next, _, kept) = check_seqno_refused w m refused in
        record {
          valid = check_seqno-IsValid w m true s.valid (omega arith);
          room = rw (next, kept) s.room;
          same_win = kept ∙ s.same_win;
          passed = rw next s.passed;
          marked = λ p. rw (kept, late) (s.marked (rw next at p));
        }
  ]

  -- What has just passed is seen.
  Seen-accepted :
      IsValid w
      → HasRoom w
      → w.replaywin ≡ win
      → Fits win n
      → (check_seqno w n true).0 ≡ true
      → Seen win n (check_seqno w n true).1
  Seen-accepted v r e f ok =
      let (moved, law) = check_seqno-missing w n v r (omega arith) ok in
      let kept = replaywin-check_seqno w n true in
      record {
        valid = check_seqno-IsValid w n true v (omega arith);
        room = ground arith;
        same_win = kept ∙ e;
        passed = ground arith;
        marked = λ p. ground (arith, law n);
      }

Seen-run :
    (win n : ℕ) (ops : List (ℕ × Bool)) (w : Window)
    → AllFit win ops
    → Seen win n w
    → Seen win n (run ops w)
unfolding run
Seen-run win n [] w f s = s
Seen-run win n ((m, update) ∷ ops) w f s =
    Seen-run win n ops (check_seqno w m update).1 f.1 (Seen-check_seqno win n w m update f.0 s)

-- No replay. In a valid window with room, a packet that has passed is refused ever after,
-- whatever checks come between, as long as its number and theirs leave a whole window before the
-- end of the 32-bit space.
pub no_replay :
    (w : Window) (n : ℕ) (ops : List (ℕ × Bool)) (update : Bool)
    → IsValid w
    → HasRoom w
    → Fits w.replaywin n
    → AllFit w.replaywin ops
    → (check_seqno w n true).0 ≡ true
    → (check_seqno (run ops (check_seqno w n true).1) n update).0 ≡ false
no_replay w n ops update v r f fs ok =
    Seen-refused w.replaywin n (run ops (check_seqno w n true).1)
      (Seen-run w.replaywin n ops (check_seqno w n true).1 fs
        (Seen-accepted w.replaywin n w v r refl f ok))
      update

-- A gap can be filled. In a valid window with room, a packet from less than a window ahead
-- passes, if its number leaves a whole window before the end of the 32-bit space, and then every
-- number that it skipped still passes.
pub gap_fills :
    (w : Window) (n m : ℕ) (update : Bool)
    → IsValid w
    → HasRoom w
    → Fits w.replaywin n
    → w.inseqno ≤ m
    → m < n
    → n < w.inseqno + 8 * w.replaywin
    → ((check_seqno w n true).0 ≡ true) × ((check_seqno (check_seqno w n true).1 m update).0 ≡ true)
unfolding passes
gap_fills w n m update v r f p q near =
    let ok : (check_seqno w n true).0 ≡ true = ground (arith, check_seqno-passes w n true v r) in
    let (moved, law) = check_seqno-missing w n v r (omega arith) ok in
    let kept = replaywin-check_seqno w n true in
    let v' = check_seqno-IsValid w n true v (omega arith) in
    (
      ok,
      ground (arith, check_seqno-passes (check_seqno w n true).1 m update v' (ground arith), law m),
    )
