-- ===== src/LinkedList.antt =====
-- src/list.c over a store of nodes that point to each other.
pub mod Chain
pub mod Parts
pub mod Refine
pub mod Insert
pub mod Delete
mod Tests
use tinc.Base.{
  ℕ, zero, suc, ◌-◌, Bool, true, false, Option, none, some, List, [], ◌∷◌, ◌==◌, if◌then◌else◌,
}

-- The address of a node; a pointer may be NULL.
abbrev pub Address : Type 0
Address = ℕ

-- `list_node_t`; `content` stands for what `data` points to.
pub record Cell : Type 0 where
  pub prev : Option Address
  pub next : Option Address
  pub content : ℕ

abbrev pub Cells : Type 0
Cells = Address → Cell

-- `list_t`, less the function it holds, with the nodes in memory.
pub record LinkedList : Type 0 where
  pub head : Option Address
  pub tail : Option Address
  pub count : ℕ
  pub cells : Cells

-- Writes of a node, of its `next` and of its `prev`.
abbrev pub put_cell : Address → Cell → Cells → Cells
put_cell at c cells m = if m == at then c else cells m

abbrev pub set_next : Address → Option Address → Cells → Cells
set_next at n cells = put_cell at (record (cells at) { next = n }) cells

abbrev pub set_prev : Address → Option Address → Cells → Cells
set_prev at p cells = put_cell at (record (cells at) { prev = p }) cells

-- `if(node->prev) node->prev->next = n; else list->head = n;`
unfoldable pub fore_to : Option Address → Option Address → LinkedList → LinkedList
fore_to none n l = record l { head = n }
fore_to (some p) n l = record l { cells = set_next p n l.cells }

-- `if(node->next) node->next->prev = p; else list->tail = p;`
unfoldable pub back_to : Option Address → Option Address → LinkedList → LinkedList
back_to none p l = record l { tail = p }
back_to (some n) p l = record l { cells = set_prev n p l.cells }

-- A new node in memory, counted.
unfoldable pub with_cell : Address → Option Address → Option Address → ℕ → LinkedList → LinkedList
with_cell fresh p n content l = record l {
  count = suc l.count;
  cells = put_cell fresh (record { prev = p; next = n; content = content }) l.cells;
}

unfoldable pub list_insert_head : Address → ℕ → LinkedList → LinkedList
list_insert_head fresh content l =
    let l' = with_cell fresh none l.head content l in
    back_to l.head (some fresh) (record l' { head = some fresh })

unfoldable pub list_insert_tail : Address → ℕ → LinkedList → LinkedList
list_insert_tail fresh content l =
    let l' = with_cell fresh l.tail none content l in
    fore_to l.tail (some fresh) (record l' { tail = some fresh })

unfoldable pub list_insert_after : Address → Address → ℕ → LinkedList → LinkedList
list_insert_after after fresh content l =
    let n = (l.cells after).next in
    let l' = with_cell fresh (some after) n content l in
    back_to n (some fresh) (record l' { cells = set_next after (some fresh) l'.cells })

unfoldable pub list_insert_before : Address → Address → ℕ → LinkedList → LinkedList
list_insert_before before fresh content l =
    let p = (l.cells before).prev in
    let l' = with_cell fresh p (some before) content l in
    fore_to p (some fresh) (record l' { cells = set_prev before (some fresh) l'.cells })

unfoldable pub list_unlink_node : Address → LinkedList → LinkedList
list_unlink_node at l =
    let l' = fore_to (l.cells at).prev (l.cells at).next l in
    let l'' = back_to (l'.cells at).next (l'.cells at).prev l' in
    record l'' { count = l''.count - 1 }

-- None where the list is empty, which is a read through a null pointer.
unfoldable pub list_delete_head : LinkedList → Option LinkedList
list_delete_head l = elim l.head [ none ↦ none | some at ↦ some (list_unlink_node at l) ]

unfoldable pub list_delete_tail : LinkedList → Option LinkedList
list_delete_tail l = elim l.tail [ none ↦ none | some at ↦ some (list_unlink_node at l) ]

unfoldable pub list_get_head : LinkedList → Option ℕ
list_get_head l = elim l.head [ none ↦ none | some at ↦ some (l.cells at).content ]

unfoldable pub list_get_tail : LinkedList → Option ℕ
list_get_tail l = elim l.tail [ none ↦ none | some at ↦ some (l.cells at).content ]

unfoldable pub list_empty_list : LinkedList → LinkedList
list_empty_list l = record l { head = none; tail = none; count = 0 }

-- The loop of `list_delete`, from a node on; `fuel` bounds its rounds.
unfoldable pub delete_from : ℕ → Option Address → ℕ → LinkedList → LinkedList
delete_from zero at content l = l
delete_from (suc fuel) none content l = l
delete_from (suc fuel) (some at) content l =
    let n = (l.cells at).next in
    delete_from fuel n content
      (if (l.cells at).content == content then list_unlink_node at l else l)

unfoldable pub list_delete : ℕ → LinkedList → LinkedList
list_delete content l = delete_from l.count l.head content l
