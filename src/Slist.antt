-- ===== src/Slist.antt =====
-- slist.h: the singly linked list. Its header is itself a `slist_t`, so it lies in the same memory.
-- Each loop runs on fuel, one round for each node that it visits.
pub mod Stack
use free_guard.Base.{ℕ, zero, suc, ◌==◌, if◌then◌else◌, Bool, Run, fault, hang}
use free_guard.Links.{Ptr, null, Links, Cmd, pure, ◌>>=◌, ◌>>◌, load, store}

unfoldable pub init_sll : Ptr → Cmd (Unit {0})
init_sll slist = store slist null

unfoldable pub is_sll_empty : Ptr → Cmd Bool
is_sll_empty slist = do first ← load slist; pure (first == null)

unfoldable pub next_entry : Ptr → Cmd Ptr
next_entry cur = load cur

unfoldable pub insert_sll_head : Ptr → Ptr → Cmd (Unit {0})
insert_sll_head node slist = do first ← load slist; store node first; store slist node

-- The loop of `getTailSLL`.
unfoldable pub tail_loop : ℕ → Ptr → Cmd Ptr
tail_loop zero current = λ _. fault hang
tail_loop (suc k) current = do
  next ← load current
  if next == null then pure current else tail_loop k next

unfoldable pub get_tail_sll : ℕ → Ptr → Cmd Ptr
get_tail_sll fuel slist = if slist == null then pure null else tail_loop fuel slist

-- The header's `next` is overwritten before the tail is looked for, and the tail of an empty list
-- is NULL.
unfoldable pub insert_all_sll_head : ℕ → Ptr → Ptr → Cmd (Unit {0})
insert_all_sll_head fuel node slist = do
  tmp ← load slist
  first ← load node
  store slist first
  tail ← get_tail_sll fuel first
  store tail tmp

unfoldable pub remove_sll_head : Ptr → Cmd Ptr
remove_sll_head slist = do temp ← load slist; next ← load temp; store slist next; pure temp
