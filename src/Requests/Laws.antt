-- ===== src/Requests/Laws.antt =====
-- How long src/protocol.c remembers a request.
use tinc.Base.{ℕ, ◌+◌, ◌<◌, ◌≡◌, Bool, true, false, ◌&&◌, ◌||◌, List, [], ◌∷◌, leb, arith}
use tinc.Base.Bytes.{Bytes}
use tinc.Utils.Names.{text_eq, text_eq_refl}
use tinc.Requests.{PastRequest, Requests, search, seen_request, keep_recent, age_past_requests}

-- A request comes in at some time, or the timer runs out.
pub data Step : Type 0 where
  offered : ℕ → Bytes → Step
  aged : ℕ → Step

abbrev pub step : ℕ → Step → Requests → Requests
step pinginterval (Step.offered now request) s = (seen_request now request s).1
step pinginterval (Step.aged now) s = age_past_requests now pinginterval s

abbrev pub run : ℕ → List Step → Requests → Requests
run pinginterval [] s = s
run pinginterval (x ∷ steps) s = run pinginterval steps (step pinginterval x s)

-- The timer runs out before `time` only.
abbrev pub AgedBefore : ℕ → List Step → Type 0
AgedBefore time [] = Unit {0}
AgedBefore time (Step.offered now request ∷ steps) = AgedBefore time steps
AgedBefore time (Step.aged now ∷ steps) = (now < time) × AgedBefore time steps

-- The request is in the table since `time` or later.
abbrev since : Bytes → ℕ → List PastRequest → Bool
since request time [] = false
since request time (p ∷ past) =
    text_eq request p.request && leb time p.firstseen || since request time past

search-since :
    (request : Bytes) (time : ℕ) (past : List PastRequest)
    → since request time past ≡ true
    → search request past ≡ true
unfolding search
search-since request time [] h = h
search-since request time (p ∷ past) h = ground (arith, search-since request time past)

keep_recent-since :
    (request : Bytes) (time now pinginterval : ℕ) (past : List PastRequest)
    → now < time + pinginterval
    → since request time past ≡ true
    → since request time (keep_recent now pinginterval past) ≡ true
unfolding keep_recent
keep_recent-since request time now pinginterval [] early h = h
keep_recent-since request time now pinginterval (p ∷ past) early h =
    ground (arith, keep_recent-since request time now pinginterval past early)

step-since :
    (request : Bytes) (time now pinginterval : ℕ) (other : Bytes) (s : Requests)
    → since request time s.past ≡ true
    → since request time ((seen_request now other s).1.past) ≡ true
unfolding seen_request
step-since request time now pinginterval other s h = ground arith

run-since :
    (request : Bytes) (time pinginterval : ℕ) (steps : List Step) (s : Requests)
    → AgedBefore (time + pinginterval) steps
    → since request time s.past ≡ true
    → since request time ((run pinginterval steps s).past) ≡ true
unfolding age_past_requests
run-since request time pinginterval [] s early h = h
run-since request time pinginterval (Step.offered now other ∷ steps) s early h =
    run-since request time pinginterval steps (step pinginterval (Step.offered now other) s) early
      (step-since request time now pinginterval other s h)
run-since request time pinginterval (Step.aged now ∷ steps) s early h =
    run-since request time pinginterval steps (step pinginterval (Step.aged now) s) early.1
      (keep_recent-since request time now pinginterval s.past early.0 h)

since_new :
    (request : Bytes) (time : ℕ) (s : Requests)
    → (seen_request time request s).0 ≡ false
    → since request time ((seen_request time request s).1.past) ≡ true
unfolding seen_request
since_new request time s new = ground (arith, text_eq_refl request)

seen_known :
    (request : Bytes) (later : ℕ) (s : Requests)
    → search request s.past ≡ true
    → (seen_request later request s).0 ≡ true
unfolding seen_request
seen_known request later s h = ground arith

-- A request that was new at `time` is not new again, whatever other requests come in and however
-- often the timer runs out, if it does so only before `time + pinginterval`.
pub not_new_again :
    (request : Bytes) (time later pinginterval : ℕ) (steps : List Step) (s : Requests)
    → (seen_request time request s).0 ≡ false
    → AgedBefore (time + pinginterval) steps
    → (seen_request later request (run pinginterval steps (seen_request time request s).1)).0 ≡ true
not_new_again request time later pinginterval steps s new early =
    let first = (seen_request time request s).1 in
    let after = run pinginterval steps first in
    seen_known request later after (
      search-since request time after.past
        (run-since request time pinginterval steps first early (since_new request time s new)))
