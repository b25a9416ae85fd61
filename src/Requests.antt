-- ===== src/Requests.antt =====
-- The table of past requests of src/protocol.c, by which a request that floods the network is
-- handled once.
pub mod Laws
mod Tests
use tinc.Base.{ℕ, ◌+◌, Bool, true, false, not, ◌||◌, List, [], ◌∷◌, leb, if◌then◌else◌}
use tinc.Base.Bytes.{Bytes}
use tinc.Utils.Names.{text_eq}

pub record PastRequest : Type 0 where
  pub request : Bytes
  pub firstseen : ℕ

-- `past_request_tree` as a list, whose order nothing here depends on, and whether its timer is set.
pub record Requests : Type 0 where
  pub past : List PastRequest
  pub timer : Bool

-- `splay_search`: `strcmp` is zero for texts that are the same.
unfoldable pub search : Bytes → List PastRequest → Bool
search request [] = false
search request (p ∷ past) = text_eq request p.request || search request past

-- The verdict, and the table after.
unfoldable pub seen_request : ℕ → Bytes → Requests → Bool × Requests
seen_request now request s = if search request s.past then (true, s) else (
  false,
  record { past = (record { request = request; firstseen = now }) ∷ s.past; timer = true },
)

unfoldable pub keep_recent : ℕ → ℕ → List PastRequest → List PastRequest
keep_recent now pinginterval [] = []
keep_recent now pinginterval (p ∷ past) =
    let rest = keep_recent now pinginterval past in
    if leb (p.firstseen + pinginterval) now then rest else p ∷ rest

abbrev pub is_nil : List PastRequest → Bool
is_nil [] = true
is_nil (p ∷ past) = false

unfoldable pub age_past_requests : ℕ → ℕ → Requests → Requests
age_past_requests now pinginterval s =
    let left = keep_recent now pinginterval s.past in
    record { past = left; timer = not (is_nil left) }

unfoldable pub exit_requests : Requests → Requests
exit_requests s = record { past = []; timer = false }
