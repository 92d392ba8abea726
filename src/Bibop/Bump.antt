-- ===== src/Bibop/Bump.antt =====
-- bibopheap.hh: the bump pointer of each bag, the guard page behind a bag and the random ones.
pub mod Order
pub mod Frame
pub mod Covered
pub mod Page
pub mod Guard
use free_guard.Base.{ℕ, ◌+◌, ◌-◌, ◌*◌, ◌/◌, ◌==◌, if◌then◌else◌, ltb, update, not, ◌∷◌}
use free_guard.Links.{Ptr}
use free_guard.Xdefines.{page_size}
use free_guard.Bibop.{BibopHeap, PerThreadBag, Memory, get_last_of_bag}

-- `mprotect(addr, size, PROT_NONE)`
unfoldable pub protect : Ptr → ℕ → Memory → Memory
protect addr size mem = record mem { guards = (addr, size) ∷ mem.guards }

-- `setGuardPage`
unfoldable pub set_guard_page : ℕ → Ptr → ℕ → ℕ → Memory → Memory
unfolding protect
set_guard_page bag_size bag_start_addr guardsize guardoffset mem =
    if guardsize == 0 then mem else protect (bag_start_addr + bag_size - guardoffset) guardsize mem

-- `incrementBumpPointer`
unfoldable pub increment_bump_pointer : ℕ → PerThreadBag → ℕ → Memory → PerThreadBag × Memory
unfolding set_guard_page get_last_of_bag
increment_bump_pointer bag_size bag item mem =
    let position = bag.position item in
    if ltb position (bag.last_of_cur_bag item)
    then (record bag { position = update bag.position item (position + bag.class_size) }, mem)
    else let next = position + bag.next_heap_object_offset in
      (
        record bag {
          position = update bag.position item next;
          last_of_cur_bag =
              update bag.last_of_cur_bag item
                (get_last_of_bag bag_size next bag.guardoffset bag.class_size);
        },
        set_guard_page bag_size next bag.guardsize bag.guardoffset mem,
      )

-- `tryRandomGuardPage`, with the number that it draws. A tenth of `RNG_MAX` is the limit.
unfoldable pub try_random_guard_page : ℕ → PerThreadBag → ℕ → ℕ → Memory → PerThreadBag × Memory
try_random_guard_page bag_size bag item rand mem =
    let saved_position = bag.position item in
    let skip = (page_size / bag.class_size - 1) * bag.class_size in
    if not (ltb (rand * 10) 0x8000)
    then (bag, mem)
    else if ltb bag.class_size page_size
    then increment_bump_pointer bag_size
        (record bag { position = update bag.position item (saved_position + skip) }) item
        (protect saved_position page_size mem)
    else increment_bump_pointer bag_size bag item (protect saved_position bag.class_size mem)
