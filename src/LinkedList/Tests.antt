-- ===== src/LinkedList/Tests.antt =====
-- Runs of the model of src/list.c.
use tinc.Base.{◌≡◌, refl, none, some, [], ◌∷◌, ◌++◌, ◌==◌, if◌then◌else◌}
use tinc.LinkedList.{
  Cells, LinkedList, fore_to, back_to, list_insert_head, list_insert_tail, list_insert_after,
  list_insert_before, list_unlink_node, list_delete, delete_from,
}
use tinc.LinkedList.Parts.{Represents}
use tinc.LinkedList.Refine.{list_unlink_node-Represents}
use tinc.LinkedList.Insert.{Stores, insertions_lem}
use tinc.LinkedList.Delete.{without, list_delete-Represents}

-- The nodes 1, 2 and 3, with 10, 20 and 10.
abbrev memory : Cells
memory n =
    if n == 1
    then record { prev = none; next = some 2; content = 10 }
    else (if n == 2
        then record { prev = some 1; next = some 3; content = 20 }
        else record { prev = some 2; next = none; content = 10 })

abbrev trio : LinkedList
trio = record { head = some 1; tail = some 3; count = 3; cells = memory }

trio-Represents : Represents trio (1 ∷ (2 ∷ (3 ∷ [])))
trio-Represents =
    (refl, refl, refl, (refl, (refl, (refl, tt))), (refl, refl, (refl, refl, (refl, refl, tt))))

list_unlink_node-Represents_example : Represents (list_unlink_node 2 trio) ((1 ∷ []) ++ (3 ∷ []))
list_unlink_node-Represents_example =
    list_unlink_node-Represents trio (1 ∷ []) 2 (3 ∷ []) trio-Represents

insertions_lem_example :
    let before = list_insert_before 2 7 70 trio in
    let after = list_insert_after 2 7 70 trio in
    let head = list_insert_head 7 70 trio in
    let tail = list_insert_tail 7 70 trio in
    (Represents before ((1 ∷ []) ++ (7 ∷ (2 ∷ (3 ∷ [])))) × Stores trio 7 70 before)
    × (Represents after ((1 ∷ []) ++ (2 ∷ (7 ∷ (3 ∷ [])))) × Stores trio 7 70 after)
    × (Represents head (7 ∷ ((1 ∷ []) ++ (2 ∷ (3 ∷ [])))) × Stores trio 7 70 head)
    × (Represents tail (((1 ∷ []) ++ (2 ∷ (3 ∷ []))) ++ (7 ∷ [])) × Stores trio 7 70 tail)
insertions_lem_example = insertions_lem trio (1 ∷ []) 2 (3 ∷ []) 7 70 trio-Represents refl

list_delete-Represents_example :
    Represents (list_delete 10 trio) (without (λ a. (trio.cells a).content) 10 (1 ∷ (2 ∷ (3 ∷ []))))
list_delete-Represents_example = list_delete-Represents 10 trio (1 ∷ (2 ∷ (3 ∷ []))) trio-Represents

only_twenty : (list_delete 10 trio).head ≡ some 2
unfolding list_delete delete_from list_unlink_node fore_to back_to
only_twenty = refl
