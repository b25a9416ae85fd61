-- ===== src/Requests/Tests.antt =====
-- A request of src/protocol.c that comes in twice.
use tinc.Base.{◌≡◌, false, true, [], ◌∷◌, List, arith, refl}
use tinc.Base.Bytes.{Bytes, codes}
use tinc.Requests.{Requests, search, seen_request}
use tinc.Requests.Laws.{Step, run, not_new_again}

abbrev none_seen : Requests
none_seen = record { past = []; timer = false }

abbrev flooded_edge : Bytes
flooded_edge = codes "12 3b4c alice bob"

abbrev meanwhile : List Step
meanwhile = Step.offered 105 (codes "13 77 bob alice") ∷ Step.aged 110 ∷ Step.aged 159 ∷ []

seen_nothing : (seen_request 100 flooded_edge none_seen).0 ≡ false
unfolding seen_request search
seen_nothing = refl

not_new_again_example :
    (seen_request 170 flooded_edge (run 60 meanwhile (seen_request 100 flooded_edge none_seen).1)).0
    ≡ true
not_new_again_example =
    not_new_again flooded_edge 100 170 60 meanwhile none_seen seen_nothing
      (omega arith, (omega arith, tt))
