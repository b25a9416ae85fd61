-- ===== src/Splay/State.antt =====
-- The operations of src/splay_tree.c on a tree that is at once a linked list. The pointers `next`,
-- `prev`, `head` and `tail` are the list `thread`; addresses of nodes are numbers.
use Prim.Native.Nat.{Ordering}
use Prim.Native.Nat.Ordering.{lt, eq, gt}
use tinc.Base.{ℕ, ◌+◌, ◌-◌, ◌^◌, Option, none, some, List, [], ◌∷◌, ◌==◌, if◌then◌else◌, map}
use tinc.Base.Bytes.{u32}
use tinc.Splay.{SplayNode, Tree, leaf, node, tree_found, splay_top_down, splay_bottom_up}

-- `splay_tree_t`, less the two functions it holds.
pub record SplayTree (A : Type 0) : Type 0 where
  pub root : Tree A
  pub thread : List (SplayNode A)
  pub count : ℕ
  pub generation : ℕ

module _ {A : Type 0} where
  abbrev pub empty_splay : SplayTree A
  empty_splay = record { root = leaf; thread = []; count = 0; generation = 0 }

  -- `node->prev`, `node->next`, `tree->head` and `tree->tail`.
  unfoldable pub prev_of : ℕ → Option (SplayNode A) → List (SplayNode A) → Option (SplayNode A)
  prev_of at last [] = none
  prev_of at last (x ∷ xs) = if x.id == at then last else prev_of at (some x) xs

  unfoldable pub head_of : List (SplayNode A) → Option (SplayNode A)
  head_of [] = none
  head_of (x ∷ xs) = some x

  unfoldable pub next_of : ℕ → List (SplayNode A) → Option (SplayNode A)
  next_of at [] = none
  next_of at (x ∷ xs) = if x.id == at then head_of xs else next_of at xs

  unfoldable pub tail_of : Option (SplayNode A) → List (SplayNode A) → Option (SplayNode A)
  tail_of last [] = last
  tail_of last (x ∷ xs) = tail_of (some x) xs

  -- A node linked in before or after another, and linked out.
  unfoldable pub link_before : ℕ → SplayNode A → List (SplayNode A) → List (SplayNode A)
  link_before at n [] = []
  link_before at n (x ∷ xs) = if x.id == at then n ∷ (x ∷ xs) else x ∷ link_before at n xs

  unfoldable pub link_after : ℕ → SplayNode A → List (SplayNode A) → List (SplayNode A)
  link_after at n [] = []
  link_after at n (x ∷ xs) = if x.id == at then x ∷ (n ∷ xs) else x ∷ link_after at n xs

  unfoldable pub link_out : ℕ → List (SplayNode A) → List (SplayNode A)
  link_out at [] = []
  link_out at (x ∷ xs) = if x.id == at then xs else x ∷ link_out at xs

  -- `node->right = t`, for the node at an address.
  unfoldable pub set_right : ℕ → Tree A → Tree A → Tree A
  set_right at t leaf = leaf
  set_right at t (node l x r) =
      if x.id == at then node l x t else node (set_right at t l) x (set_right at t r)

  unfoldable pub insert_top : SplayNode A → SplayTree A → SplayTree A
  insert_top n s = record {
    root = node leaf n leaf;
    thread = n ∷ [];
    count = u32 (s.count + 1);
    generation = u32 (s.generation + 1);
  }

  -- What hangs from the new root: the node it was put beside comes to the root first.
  unfoldable pub root_before : SplayNode A → Tree A → Tree A
  root_before n leaf = leaf
  root_before n (node l b r) = node l n (node leaf b r)

  unfoldable pub root_after : SplayNode A → Tree A → Tree A
  root_after n leaf = leaf
  root_after n (node l b r) = node (node l b leaf) n r

  unfoldable pub insert_before_node : ℕ → SplayNode A → SplayTree A → SplayTree A
  insert_before_node before n s = record {
    root = root_before n (splay_bottom_up before s.root);
    thread = link_before before n s.thread;
    count = u32 (s.count + 1);
    generation = u32 (s.generation + 1);
  }

  unfoldable pub insert_after_node : ℕ → SplayNode A → SplayTree A → SplayTree A
  insert_after_node after n s = record {
    root = root_after n (splay_bottom_up after s.root);
    thread = link_after after n s.thread;
    count = u32 (s.count + 1);
    generation = u32 (s.generation + 1);
  }

  unfoldable pub insert_before : Option ℕ → SplayNode A → SplayTree A → SplayTree A
  insert_before (some before) n s = insert_before_node before n s
  insert_before none n s = elim (tail_of none s.thread) [
    | some tail ↦ insert_after_node tail.id n s
    | none ↦ insert_top n s
  ]

  unfoldable pub insert_after : Option ℕ → SplayNode A → SplayTree A → SplayTree A
  insert_after (some after) n s = insert_after_node after n s
  insert_after none n s = elim (head_of s.thread) [
    | some head ↦ insert_before_node head.id n s
    | none ↦ insert_top n s
  ]

  -- The root that is left, when the node to go is the root.
  unfoldable pub root_without : Option (SplayNode A) → Option (SplayNode A) → Tree A → Tree A
  root_without prev next leaf = leaf
  root_without (some prev) next (node l x r) = set_right prev.id r l
  root_without none (some next) (node l x r) = r
  root_without none none (node l x r) = leaf

  unfoldable pub unlink_node : ℕ → SplayTree A → SplayTree A
  unlink_node at s = record {
    root =
        root_without (prev_of at none s.thread) (next_of at s.thread) (splay_bottom_up at s.root);
    thread = link_out at s.thread;
    count = u32 (s.count + (2 ^ 32 - 1));
    generation = u32 (s.generation + 1);
  }

  unfoldable pub empty_tree : SplayTree A → SplayTree A
  empty_tree s = record { root = leaf; thread = []; count = 0; generation = u32 (s.generation + 1) }

  -- What `splay_foreach` passes to the action, in turn.
  unfoldable pub foreach : SplayTree A → List A
  foreach s = map (λ x. x.content) s.thread

  -- What an operation makes of the answer of a search.
  unfoldable pub exact_of : Option (SplayNode A) × Ordering → Option (SplayNode A)
  exact_of (found, lt) = none
  exact_of (found, eq) = found
  exact_of (found, gt) = none

  unfoldable pub smaller_of : (Option (SplayNode A) × Ordering) × SplayTree A → Option (SplayNode A)
  smaller_of ((none, result), s) = none
  smaller_of ((some x, lt), s) = prev_of x.id none s.thread
  smaller_of ((some x, eq), s) = some x
  smaller_of ((some x, gt), s) = some x

  unfoldable pub greater_of : (Option (SplayNode A) × Ordering) × SplayTree A → Option (SplayNode A)
  greater_of ((none, result), s) = none
  greater_of ((some x, lt), s) = some x
  greater_of ((some x, eq), s) = some x
  greater_of ((some x, gt), s) = next_of x.id s.thread

  -- Where the result of the search puts the node.
  unfoldable pub place :
      SplayNode A
      → (Option (SplayNode A) × Ordering) × SplayTree A
      → Option (SplayNode A) × SplayTree A
  place n ((none, result), s) = (some n, insert_top n s)
  place n ((some closest, eq), s) = (none, s)
  place n ((some closest, lt), s) = (some n, insert_before (some closest.id) n s)
  place n ((some closest, gt), s) = (some n, insert_after (some closest.id) n s)

  unfoldable pub unlink_found :
      Option (SplayNode A) × SplayTree A → Option (SplayNode A) × SplayTree A
  unlink_found (none, s) = (none, s)
  unlink_found (some x, s) = (some x, unlink_node x.id s)

-- The operations that compare: `compare(data, node->data)`.
module _ {A : Type 0} (compare : A → A → Ordering) where
  abbrev pub side_of : A → SplayNode A → Ordering
  side_of content x = compare content x.content

  -- A null pointer comes with the result 0.
  unfoldable pub search_closest_node :
      A → SplayTree A → (Option (SplayNode A) × Ordering) × SplayTree A
  search_closest_node content s = elim (splay_top_down (side_of content) s.root) [
    | none ↦ ((none, eq), s)
    | some f ↦ ((some f.root, f.result), record s { root = tree_found f })
  ]

  unfoldable pub search_node : A → SplayTree A → Option (SplayNode A) × SplayTree A
  search_node content s =
      let answer = search_closest_node content s in (exact_of answer.0, answer.1)

  unfoldable pub search_closest_smaller_node : A → SplayTree A → Option (SplayNode A) × SplayTree A
  search_closest_smaller_node content s =
      let answer = search_closest_node content s in (smaller_of answer, answer.1)

  unfoldable pub search_closest_greater_node : A → SplayTree A → Option (SplayNode A) × SplayTree A
  search_closest_greater_node content s =
      let answer = search_closest_node content s in (greater_of answer, answer.1)

  unfoldable pub insert_node : SplayNode A → SplayTree A → Option (SplayNode A) × SplayTree A
  insert_node n s = place n (search_closest_node n.content s)

  -- `fresh` is the address that the new node gets.
  unfoldable pub insert : A → ℕ → SplayTree A → Option (SplayNode A) × SplayTree A
  insert content fresh s = insert_node (record { id = fresh; content = content }) s

  unfoldable pub unlink : A → SplayTree A → Option (SplayNode A) × SplayTree A
  unlink content s = unlink_found (search_node content s)

  -- What is freed leaves no trace.
  unfoldable pub delete : A → SplayTree A → SplayTree A
  delete content s = (unlink content s).1

  unfoldable pub search_content : A → SplayTree A → Option A × SplayTree A
  search_content content s =
      let (found, s') = search_node content s in
      (elim found [ none ↦ none | some x ↦ some x.content ], s')
