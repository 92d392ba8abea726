-- ===== src/Bibop/Address.antt =====
-- bibopheap.hh: from an object's address to its shadow entry and back.
pub mod RoundTrip
use free_guard.Base.{
  ℕ, ◌+◌, ◌-◌, ◌*◌, ◌/◌, ◌%◌, ◌^◌, ◌==◌, if◌then◌else◌, ltb, leb, ◌&&◌, not, Bool, bit_and, sub64,
  shl64, shr, Run, ok, fault, invalid_object,
}
use free_guard.Links.{Ptr}
use free_guard.Xdefines.{bibop_bag_set_size}
use free_guard.Bibop.{BibopHeap, PerThreadBag}

-- `getHeapNumber` of a shadow entry
unfoldable pub get_heap_number_of_shadow : BibopHeap → Ptr → ℕ
get_heap_number_of_shadow h shadowinfo =
    shr (sub64 shadowinfo h.shadow_mem_begin) h.shadow_mem_size_per_heap_ceil_shift_bits % 2 ^ 32

-- `getHeapNumber` of an address
unfoldable pub get_heap_number : BibopHeap → Ptr → ℕ
get_heap_number h addr =
    let offset = sub64 addr h.heap_begin in
    let global_bag_num = shr offset h.bag_shift_bits % 2 ^ 32 in
    shr global_bag_num h.num_bags_per_heap_shift_bits

-- Where the shadow entries of a bag begin in heap `heap_index`, and the entry of the object at an
-- offset into the bag.
unfoldable pub shadow_entry : BibopHeap → PerThreadBag → ℕ → ℕ → Ptr
shadow_entry h bag heap_index local_bag_offset =
    h.shadow_mem_begin
    + shl64 heap_index h.shadow_mem_size_per_heap_ceil_shift_bits
    + bag.start_shadow_mem_offset
    + shr local_bag_offset bag.shift_bits * h.shadow_object_info_size

-- `getShadowObjectInfo(addr, bag)`
unfoldable pub get_shadow_object_info : BibopHeap → Ptr → PerThreadBag → Ptr
get_shadow_object_info h addr bag =
    let offset = sub64 addr h.heap_begin in
    let local_bag_offset = bit_and offset h.bag_mask in
    let global_bag_num = shr offset h.bag_shift_bits in
    let heap_index = shr global_bag_num h.num_bags_per_heap_shift_bits in
    shadow_entry h bag heap_index local_bag_offset

-- What `getShadowObjectInfo(addr, &bag, &numBagSetItem)` finds: the bag by its two indices.
pub record Found : Type 0 where
  pub shadowinfo : Ptr
  pub thread : ℕ
  pub bag : ℕ
  pub bag_set_item : ℕ

unfoldable pub find_object : BibopHeap → Ptr → Run Found
find_object h addr =
    let offset = sub64 addr h.heap_begin in
    let local_heap_offset = bit_and offset h.heap_mask in
    let local_bag_offset = bit_and offset h.bag_mask in
    let global_bag_num = shr offset h.bag_shift_bits in
    let heap_index = shr global_bag_num h.num_bags_per_heap_shift_bits in
    let t = shr local_heap_offset h.thread_shift_bits in
    let b = bit_and global_bag_num h.num_bags_per_sub_heap_mask in
    let bag = h.thread_bag t b in
    if not (bit_and local_bag_offset bag.class_mask == 0)
    then fault invalid_object
    else ok (record {
      shadowinfo = shadow_entry h bag heap_index local_bag_offset;
      thread = t;
      bag = b;
      bag_set_item = bit_and heap_index (bibop_bag_set_size - 1);
    })

-- The index, within its bag, of the object that a shadow entry belongs to.
unfoldable pub object_index : BibopHeap → Ptr → PerThreadBag → ℕ
object_index h shadowaddr bag =
    let shadow_offset = sub64 shadowaddr h.shadow_mem_begin in
    shr (sub64 (bit_and shadow_offset h.shadow_mem_size_per_heap_mask) bag.start_shadow_mem_offset)
      h.shadow_object_info_size_shift_bits

-- `getAddrFromShadowInfo`
unfoldable pub get_addr_from_shadow_info : BibopHeap → Ptr → PerThreadBag → Ptr
get_addr_from_shadow_info h shadowaddr bag =
    let shadow_offset = sub64 shadowaddr h.shadow_mem_begin in
    let heap_index = shr shadow_offset h.shadow_mem_size_per_heap_ceil_shift_bits in
    let heap_offset = shl64 heap_index h.heap_size_shift_bits in
    h.heap_begin
    + heap_offset
    + bag.start_offset
    + shl64 (object_index h shadowaddr bag) bag.shift_bits

-- `isSmallObject`; `isInvalidAddr` is its negation.
unfoldable pub is_small_object : BibopHeap → Ptr → Bool
is_small_object h addr = leb h.heap_begin addr && leb addr h.heap_end
