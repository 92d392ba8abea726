-- ===== src/Bibop/Neighbor.antt =====
-- bibopheap.hh: `getNextCanaryNeighbor`, the shadow entry next to one, within the bag or in the next
-- heap of the same bag set.
pub mod Inverse
use free_guard.Base.{ℕ, ◌+◌, ◌-◌, ◌==◌, if◌then◌else◌, ltb, Option, none, some, sub64}
use free_guard.Links.{Ptr}
use free_guard.Xdefines.{bibop_bag_set_size}
use free_guard.Bibop.{BibopHeap, PerThreadBag}
use free_guard.Bibop.Address.{get_heap_number_of_shadow, object_index}

pub data Direction : Type 0 where
  left right : Direction

unfoldable pub get_next_canary_neighbor : BibopHeap → Ptr → PerThreadBag → Direction → Option Ptr
get_next_canary_neighbor h shadowinfo bag left =
    if object_index h shadowinfo bag == 0
    then (if ltb (get_heap_number_of_shadow h shadowinfo) bibop_bag_set_size
        then none
        else some (sub64 shadowinfo bag.next_shadow_heap_object_offset))
    else some (shadowinfo - h.shadow_object_info_size)
get_next_canary_neighbor h shadowinfo bag right =
    if object_index h shadowinfo bag == bag.last_object_index
    then some (shadowinfo + bag.next_shadow_heap_object_offset)
    else some (shadowinfo + h.shadow_object_info_size)
