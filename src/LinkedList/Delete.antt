-- ===== src/LinkedList/Delete.antt =====
-- `list_delete` of src/list.c on the nodes in memory, against a filter on lists.
use mathlib.Core.Path.{subst}
use mathlib.Core.List.{append_assoc}
use tinc.Base.{
  ℕ, ◌≡◌, refl, sym, ◌∙◌, inl, inr, none, List, [], ◌∷◌, ◌++◌, ◌==◌, if◌then◌else◌, length,
  Bool-cases,
}
use tinc.LinkedList.{Address, LinkedList, fore_to, list_unlink_node, delete_from, list_delete}
use tinc.LinkedList.Chain.{first, fore_to-content, back_to-content}
use tinc.LinkedList.Parts.{Represents, halves}
use tinc.LinkedList.Refine.{list_unlink_node-Represents}

-- The nodes without those of a content.
abbrev pub without : (Address → ℕ) → ℕ → List Address → List Address
without contents content [] = []
without contents content (a ∷ rest) =
    if contents a == content
    then without contents content rest
    else a ∷ without contents content rest

list_unlink_node-content :
    (l : LinkedList) (at a : Address)
    → ((list_unlink_node at l).cells a).content ≡ (l.cells a).content
unfolding list_unlink_node
list_unlink_node-content l at a =
    back_to-content (fore_to (l.cells at).prev (l.cells at).next l) _ _ a ∙ fore_to-content l _ _ a

delete_from-Represents :
    (contents : Address → ℕ) (content : ℕ) (ys xs : List Address) (l : LinkedList)
    → ((a : Address) → (l.cells a).content ≡ contents a)
    → Represents l (xs ++ ys)
    → Represents
        (delete_from (length ys) (first ys none) content l)
        (xs ++ without contents content ys)
unfolding delete_from
delete_from-Represents contents content [] xs l same rep = rep
delete_from-Represents contents content (y ∷ ys) xs l same rep =
    let next = (halves l xs (y ∷ ys) rep).1.1.1 in
    elim (Bool-cases (contents y == content)) [
      | inl e ↦
          rw (same y, e, next)
            (delete_from-Represents contents content ys xs (list_unlink_node y l)
              (λ a. list_unlink_node-content l y a ∙ same a)
              (list_unlink_node-Represents l xs y ys rep))
      | inr e ↦
          rw (same y, e, next)
            (subst (Represents (delete_from (length ys) (first ys none) content l))
              (append_assoc xs (y ∷ []) (without contents content ys))
              (delete_from-Represents contents content ys (xs ++ (y ∷ [])) l same
                (subst (Represents l) (sym (append_assoc xs (y ∷ []) ys)) rep)))
    ]

-- Every node with the data is taken out of a list in memory, and the others stay in their order.
pub list_delete-Represents :
    (content : ℕ) (l : LinkedList) (xs : List Address)
    → Represents l xs
    → Represents (list_delete content l) (without (λ a. (l.cells a).content) content xs)
unfolding list_delete
list_delete-Represents content l xs rep =
    subst
      (λ h.
        Represents (delete_from l.count h content l)
          (without (λ a. (l.cells a).content) content xs))
      (sym rep.0)
      (subst
        (λ k.
          Represents (delete_from k (first xs none) content l)
            (without (λ a. (l.cells a).content) content xs))
        (sym rep.2)
        (delete_from-Represents (λ a. (l.cells a).content) content xs [] l (λ a. refl) rep))
