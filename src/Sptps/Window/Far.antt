-- ===== src/Sptps/Window/Far.antt =====
-- Packets far ahead of the replay window of src/sptps.c, and the end of the 32-bit number space.
use tinc.Base.{ℕ, zero, suc, ◌+◌, ◌*◌, ◌/◌, ◌^◌, ◌≤◌, ◌<◌, ◌≡◌, ◌⊎◌, true, false, arith}
use tinc.Sptps.Window.{Window, check_seqno}
use tinc.Sptps.Window.Refine.{IsValid, HasRoom}

-- The same packet number offered `k` times.
unfoldable pub offer : ℕ → ℕ → Window → Window
offer zero n w = w
offer (suc k) n w = offer k n (check_seqno w n true).1

far_step :
    (w : Window) (n : ℕ)
    → IsValid w
    → HasRoom w
    → w.inseqno + 8 * w.replaywin ≤ n
    → w.farfuture < w.replaywin / 4
    → check_seqno w n true ≡ (false, record w { farfuture = w.farfuture + 1 })
unfolding check_seqno
far_step w n v r far h = ground arith

far_last :
    (w : Window) (n : ℕ)
    → HasRoom w
    → w.inseqno + 8 * w.replaywin ≤ n
    → w.farfuture ≡ w.replaywin / 4
    → ((check_seqno w n true).0 ≡ true)
      × ((check_seqno w n true).1.farfuture ≡ 0 ⊎ (w.replaywin ≡ 0))
unfolding check_seqno
far_last w n r far h = ground arith

-- In a valid window with room, a packet that is a window or more ahead is let in once `farfuture`
-- has come to `replaywin / 4`: the `k` offers that are missing to that are refused and only
-- counted, and the next one passes and ends the count.
pub far_future_run :
    (w : Window) (n k : ℕ)
    → IsValid w
    → HasRoom w
    → w.inseqno + 8 * w.replaywin ≤ n
    → w.farfuture + k ≡ w.replaywin / 4
    → (offer k n w ≡ record w { farfuture = w.replaywin / 4 })
      × ((check_seqno (offer k n w) n true).0 ≡ true)
      × ((check_seqno (offer k n w) n true).1.farfuture ≡ 0)
unfolding offer
far_future_run w n zero v r far e = ground (arith, far_last w n r far (omega arith), v.active)
far_future_run w n (suc k) v r far e =
    let w' = record w { farfuture = w.farfuture + 1 } in
    let v' : IsValid w' = record { active = v.active; bitmap = v.bitmap; next = v.next } in
    rw (far_step w n v r far (omega arith)) (far_future_run w' n k v' r far (omega arith))

-- At the end of the number space the protection fails. In a valid window smaller than that space,
-- where `inseqno + replaywin * 8` wraps, a number between the wrapped sum and the expected one
-- counts as far ahead: once `replaywin / 4` such packets were dropped it passes, whatever the
-- bitmap says of it.
pub replay_at_wrap :
    (w : Window) (n : ℕ)
    → IsValid w
    → 8 * w.replaywin < 2 ^ 32
    → 2 ^ 32 ≤ w.inseqno + 8 * w.replaywin
    → w.inseqno + 8 * w.replaywin ≤ n + 2 ^ 32
    → n < w.inseqno
    → w.replaywin / 4 ≤ w.farfuture
    → (check_seqno w n true).0 ≡ true
unfolding check_seqno
replay_at_wrap w n v h wraps low old tries = ground arith
