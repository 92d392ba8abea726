-- ===== src/Bibop/Object.antt =====
-- bibopheap.hh: `allocateSmallObject`, `freeSmallObject` and the size queries.
pub mod Allocate
pub mod Free
pub mod Served
use free_guard.Base.{
  ℕ, zero, suc, ◌+◌, ◌-◌, ◌^◌, ◌==◌, if◌then◌else◌, not, Bool, ◌&&◌, update, bit_and, sub64, Option,
  none, some, Run, ok, fault, double_free, canary_broken, ◌>>=◌, ◌>>◌,
}
use free_guard.Links.{Ptr}
use free_guard.Dlist.{Dlist, is_dll_empty, insert_dll_tail, remove_dll_head}
use free_guard.Xdefines.{
  page_size, bibop_bag_set_size, bibop_bag_set_randomizer_mask, canary_sentinel, alloc_sentinel,
}
use free_guard.Bibop.{BibopHeap, PerThreadBag, Memory, update_bag, touch_entry, touch_byte}
use free_guard.Bibop.SizeClass.{with_canary, class_size_of, get_bag_num}
use free_guard.Bibop.Address.{
  get_shadow_object_info, find_object, get_addr_from_shadow_info, is_small_object,
}
use free_guard.Bibop.Bump.{increment_bump_pointer, try_random_guard_page}
use free_guard.Bibop.Neighbor.{Direction, left, right, get_next_canary_neighbor}

-- The number that `allocateSmallObject` draws, and the one that `tryRandomGuardPage` draws if it is
-- called.
pub record Draws : Type 0 where
  pub bag_set : ℕ
  pub guard : ℕ

-- `isObjectFree`
unfoldable pub is_object_free : Ptr → Memory → Bool
is_object_free shadowinfo mem = not (mem.links shadowinfo == alloc_sentinel)

unfoldable pub canary_intact : Ptr → PerThreadBag → Memory → Bool
canary_intact addr bag mem = mem.bytes (addr + bag.class_size - 1) == canary_sentinel

-- The branch of `allocateSmallObject` that takes an object from the free list.
unfoldable pub take_free : BibopHeap → PerThreadBag → ℕ → Memory → Run (Ptr × PerThreadBag × Memory)
take_free h bag item mem = do
  touch_entry h (bag.freelist item).next
  ((shadowinfo, list), links) ← remove_dll_head (bag.freelist item) mem.links
  ok (
    get_addr_from_shadow_info h shadowinfo bag,
    record bag { freelist = update bag.freelist item list },
    record mem { links = links },
  )

-- The branch that takes the object at the bump pointer. The pointer that it moves to may get a
-- random guard page if it is at the start of a page.
unfoldable pub take_fresh : BibopHeap → PerThreadBag → ℕ → ℕ → Memory → Ptr × PerThreadBag × Memory
take_fresh h bag item rand mem =
    let r = increment_bump_pointer h.bibop_bag_size bag item mem in
    let s =
      if bit_and (r.0.position item) (page_size - 1) == 0
      then try_random_guard_page h.bibop_bag_size r.0 item rand r.1
      else r in
    (bag.position item, s.0, s.1)

-- The memory with the canary behind the object and the mark in its shadow entry.
abbrev pub marked : BibopHeap → PerThreadBag → Ptr → Memory → Memory
marked h bag ptr mem = record mem {
  bytes = update mem.bytes (ptr + bag.class_size - 1) canary_sentinel;
  links = update mem.links (get_shadow_object_info h ptr bag) alloc_sentinel;
}

-- The writes of the canary and of the mark.
unfoldable pub mark_allocated : BibopHeap → PerThreadBag → Ptr → Memory → Run Memory
mark_allocated h bag ptr mem = do
  touch_byte (ptr + bag.class_size - 1) mem
  touch_entry h (get_shadow_object_info h ptr bag)
  ok (marked h bag ptr mem)

-- What follows the choice of the bag `b` of thread `t`.
unfoldable pub allocate_in_bag : BibopHeap → ℕ → ℕ → Draws → Memory → Run (Ptr × BibopHeap × Memory)
allocate_in_bag h t b draws mem =
    let bag = h.thread_bag t b in
    let item = bit_and draws.bag_set (bibop_bag_set_size - 1) in
    let use_bump_pointer = bit_and draws.bag_set bibop_bag_set_randomizer_mask == 0 in
    do
      (ptr, bag', mem') ←
          if not (is_dll_empty (bag.freelist item)) && not use_bump_pointer
          then take_free h bag item mem
          else ok (take_fresh h bag item draws.guard mem)
      r ← mark_allocated h bag' ptr mem'
      ok (ptr, record h { thread_bag = update_bag h.thread_bag t b bag' }, r)

unfoldable pub allocate_small_object :
    BibopHeap → ℕ → ℕ → Draws → Memory → Run (Ptr × BibopHeap × Memory)
allocate_small_object h thread_index sz draws mem =
    allocate_in_bag h thread_index (get_bag_num h.first_bag_power (class_size_of (with_canary sz)))
      draws mem

-- The canaries of at most `k` neighbours in one direction. Only objects in use are inspected.
unfoldable pub check_neighbors :
    BibopHeap → PerThreadBag → Direction → ℕ → Ptr → Memory → Run (Unit {0})
check_neighbors h bag move zero shadowinfo mem = ok tt
check_neighbors h bag move (suc k) shadowinfo mem =
    elim (get_next_canary_neighbor h shadowinfo bag move) [
      | none ↦ ok tt
      | some next ↦
          let addr = get_addr_from_shadow_info h next bag in
          let rest = check_neighbors h bag move k next mem in
          touch_entry h next
          >> (if is_object_free next mem then ok tt else touch_byte (addr + bag.class_size - 1) mem)
          >> (if not (is_object_free next mem) && not (canary_intact addr bag mem)
              then fault canary_broken
              else rest)
    ]

-- `insertDLLTail` writes the link of the old tail, if there is one.
unfoldable pub touch_tail : BibopHeap → Dlist → Run (Unit {0})
touch_tail h list = if is_dll_empty list then ok tt else touch_entry h list.prev

unfoldable pub free_small_object : BibopHeap → Ptr → Memory → Run (BibopHeap × Memory)
free_small_object h addr mem = do
  found ← find_object h addr
  let bag = h.thread_bag found.thread found.bag
  let item = found.bag_set_item
  touch_entry h found.shadowinfo
  if is_object_free found.shadowinfo mem
      then fault double_free
      else touch_byte (addr + bag.class_size - 1) mem
        >> (if not (canary_intact addr bag mem) then fault canary_broken else do
          check_neighbors h bag left 2 found.shadowinfo mem
          check_neighbors h bag right 2 found.shadowinfo mem
          touch_tail h (bag.freelist item)
          (list, links) ← insert_dll_tail found.shadowinfo (bag.freelist item) mem.links
          ok (
            record h {
              thread_bag =
                  update_bag h.thread_bag found.thread found.bag
                    (record bag { freelist = update bag.freelist item list });
            },
            record mem { links = links },
          ))

-- `getUsableSize`: the class size less the canary.
unfoldable pub get_usable_size : BibopHeap → Ptr → Run ℕ
get_usable_size h ptr = do
  found ← find_object h ptr
  ok (sub64 (h.thread_bag found.thread found.bag).class_size 1)

-- `getObjectSize`, which returns -1, the largest `size_t`, outside the heap.
unfoldable pub get_object_size : BibopHeap → Ptr → Run ℕ
get_object_size h addr =
    if not (is_small_object h addr) then ok (2 ^ 64 - 1) else get_usable_size h addr
