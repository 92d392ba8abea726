-- ===== src/Ring.antt =====
-- list.hh: the circular doubly linked list, linked through the `list_t` at each address.
pub mod Chain
use free_guard.Base.{ℕ, ◌==◌, if◌then◌else◌, Bool, update}

-- The `next` and the `prev` field of the `list_t` at each address.
pub record Nodes : Type 0 where
  pub next : ℕ → ℕ
  pub prev : ℕ → ℕ

abbrev pub set_next : ℕ → ℕ → Nodes → Nodes
set_next p q s = record s { next = update s.next p q }

abbrev pub set_prev : ℕ → ℕ → Nodes → Nodes
set_prev p q s = record s { prev = update s.prev p q }

-- `nodeInit`, `listInit`
unfoldable pub node_init : ℕ → Nodes → Nodes
node_init node s = set_next node node (set_prev node node s)

unfoldable pub is_list_empty : ℕ → Nodes → Bool
is_list_empty head s = s.next head == head

-- `tailList`, which gives NULL for an empty list.
unfoldable pub tail_list : ℕ → Nodes → ℕ
tail_list head s = if is_list_empty head s then 0 else s.prev head

-- `__insert_between`
unfoldable pub insert_between : ℕ → ℕ → ℕ → Nodes → Nodes
insert_between node prev next s =
    set_prev next node (set_next prev node (set_prev node prev (set_next node next s)))

unfoldable pub list_insert_node : ℕ → ℕ → Nodes → Nodes
list_insert_node node prev s = insert_between node prev (s.next prev) s

unfoldable pub list_insert_tail : ℕ → ℕ → Nodes → Nodes
list_insert_tail node head s = insert_between node (s.prev head) head s

unfoldable pub list_insert_head : ℕ → ℕ → Nodes → Nodes
list_insert_head node head s = insert_between node head (s.next head) s

-- `__list_link`
unfoldable pub list_link : ℕ → ℕ → Nodes → Nodes
list_link p n s = set_prev n p (set_next p n s)

-- `listInsertList`. The second link reads `where->next` after the first has set it.
unfoldable pub list_insert_list : ℕ → ℕ → Nodes → Nodes
list_insert_list list place s =
    let linked = list_link place list s in list_link (linked.prev list) (linked.next place) linked

unfoldable pub list_insert_list_tail : ℕ → ℕ → Nodes → Nodes
list_insert_list_tail list place s =
    let linked = list_link (s.prev place) (s.next list) s in
    list_link (linked.prev list) place linked

unfoldable pub list_remove_node : ℕ → Nodes → Nodes
list_remove_node node s = node_init node (list_link (s.prev node) (s.next node) s)

unfoldable pub is_list_tail : ℕ → ℕ → Nodes → Bool
is_list_tail node head s = s.next node == head

-- `listRetrieveItem`, which gives NULL for an empty list.
unfoldable pub list_retrieve_item : ℕ → Nodes → ℕ × Nodes
list_retrieve_item list s =
    if is_list_empty list s then (0, s) else (s.next list, list_remove_node (s.next list) s)

unfoldable pub list_retrieve_all_items : ℕ → ℕ → Nodes → Nodes
list_retrieve_all_items dest src s =
    let first = s.next src in
    let last = s.prev src in
    node_init src
      (set_prev dest last (set_next dest first (set_next last dest (set_prev first dest s))))
