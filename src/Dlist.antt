-- ===== src/Dlist.antt =====
-- dlist.h: the list with a pointer to each end, which the FIFO free lists are. The header is a value
-- of its own; the nodes are `slist_t`s in the memory.
pub mod Queue
use free_guard.Base.{ℕ, zero, suc, ◌==◌, if◌then◌else◌, not, Bool, fault, hang}
use free_guard.Links.{Ptr, null, Cmd, pure, ◌>>=◌, ◌>>◌, load, store}

pub record Dlist : Type 0 where
  pub next : Ptr
  pub prev : Ptr

unfoldable pub init_dll : Dlist
init_dll = record { next = null; prev = null }

unfoldable pub is_dll_empty : Dlist → Bool
is_dll_empty dlist = dlist.next == null

unfoldable pub insert_dll_head : Ptr → Dlist → Cmd Dlist
insert_dll_head node dlist = do
  store node dlist.next
  pure (record { next = node; prev = if not (dlist.prev == null) then dlist.prev else node })

unfoldable pub insert_dll_tail : Ptr → Dlist → Cmd Dlist
insert_dll_tail node dlist = do
  store node null
  if dlist.prev == null
      then pure (record { next = node; prev = node })
      else do store dlist.prev node; pure (record { next = dlist.next; prev = node })

-- The removed node is returned; its `next` is left as it was.
unfoldable pub remove_dll_head : Dlist → Cmd (Ptr × Dlist)
remove_dll_head dlist = do
  replacement ← load dlist.next
  pure (
    dlist.next,
    record { next = replacement; prev = if replacement == null then null else dlist.prev },
  )

-- The loop of `insertAllDLLTail`: it turns the list round and returns `tail_segment2`.
unfoldable pub turn_loop : ℕ → Ptr → Ptr → Cmd Ptr
turn_loop zero tail_segment1 tail_segment2 = λ _. fault hang
turn_loop (suc k) tail_segment1 tail_segment2 = do
  next ← load tail_segment1
  store tail_segment1 tail_segment2
  if next == null then pure tail_segment1 else turn_loop k next tail_segment1

unfoldable pub insert_all_dll_tail : ℕ → Ptr → Dlist → Cmd Dlist
unfolding turn_loop
insert_all_dll_tail fuel slist dlist = do
  first ← load slist
  if first == null then pure dlist else do
    turned ← turn_loop fuel first null
    if dlist.prev == null
        then pure (record { next = turned; prev = first })
        else do store dlist.prev turned; pure (record { next = dlist.next; prev = first })
