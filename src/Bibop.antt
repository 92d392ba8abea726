-- ===== src/Bibop.antt =====
-- bibopheap.hh: the fields of `BibopHeap` and of its `PerThreadBag`s, and the memory that the heap
-- writes. Arrays are functions from their index. The spin locks are left out: each operation is one
-- step here.
pub mod SizeClass
pub mod Layout
pub mod Address
pub mod Init
pub mod Bump
pub mod Neighbor
pub mod Object
pub mod Whole
use free_guard.Base.{
  ◌≤◌, ◌≡◌, refl, false, leb, le→leb, ◌&&◌, if◌then◌else◌, Run, ok, fault, access_violation,
  is_guarded, ℕ, ◌+◌, ◌-◌, ◌*◌, List, update,
}
use free_guard.Links.{Ptr, Links}
use free_guard.Dlist.{Dlist}
use free_guard.Xdefines.{bibop_num_bags, max_alive_threads}

pub record PerThreadBag : Type 0 where
  pub freelist : ℕ → Dlist
  -- the memory that is not allocated yet, and the last object of the current bag
  pub position : ℕ → Ptr
  pub last_of_cur_bag : ℕ → Ptr
  pub num_objects : ℕ
  pub last_object_index : ℕ
  pub bag_num : ℕ
  pub thread_index : ℕ
  pub class_mask : ℕ
  pub class_size : ℕ
  pub shift_bits : ℕ
  pub start_offset : ℕ
  pub start_shadow_mem_offset : ℕ
  pub next_heap_object_offset : ℕ
  pub next_shadow_heap_object_offset : ℕ
  pub cflthreshold : ℕ
  pub guardsize : ℕ
  pub guardoffset : ℕ

pub record BibopHeap : Type 0 where
  pub heap_begin : Ptr
  pub heap_end : Ptr
  pub heap_mask : ℕ
  pub heap_size_shift_bits : ℕ
  pub shadow_mem_begin : Ptr
  pub shadow_mem_end : Ptr
  pub shadow_mem_size_per_heap : ℕ
  pub shadow_mem_size_per_heap_ceil : ℕ
  pub shadow_mem_size_per_heap_ceil_shift_bits : ℕ
  pub shadow_mem_size_per_heap_mask : ℕ
  pub shadow_object_info_size : ℕ
  pub shadow_object_info_size_shift_bits : ℕ
  pub num_usable_bags : ℕ
  pub last_usable_bag : ℕ
  pub bibop_bag_size : ℕ
  pub first_bag_power : ℕ
  pub thread_size : ℕ
  pub thread_shift_bits : ℕ
  pub bag_shift_bits : ℕ
  pub bag_mask : ℕ
  pub num_objects_per_heap : ℕ
  pub num_objects_per_sub_heap : ℕ
  pub num_bags_per_heap : ℕ
  pub num_bags_per_sub_heap_mask : ℕ
  pub num_bags_per_heap_shift_bits : ℕ
  pub thread_bag : ℕ → ℕ → PerThreadBag

-- `links` is the shadow memory, whose entries begin with the `next` field of a free list; `bytes` is
-- the heap's own memory; `guards` are the ranges that `mprotect` made inaccessible, address and
-- size, the latest first.
pub record Memory : Type 0 where
  pub links : Links
  pub bytes : Ptr → ℕ
  pub guards : List (Ptr × ℕ)

-- An access to the first field of a shadow entry: only the mapping of `allocShadowMem` can be accessed.
unfoldable pub touch_entry : BibopHeap → Ptr → Run (Unit {0})
touch_entry h entry =
    if leb h.shadow_mem_begin entry && leb (entry + 8) h.shadow_mem_end
    then ok tt
    else fault access_violation

-- An access to a byte of the heap: memory that `mprotect` made inaccessible cannot be accessed.
unfoldable pub touch_byte : Ptr → Memory → Run (Unit {0})
touch_byte addr mem = if is_guarded mem.guards addr then fault access_violation else ok tt

pub touch_entry-ok :
    (h : BibopHeap) (entry : Ptr)
    → h.shadow_mem_begin ≤ entry
    → entry + 8 ≤ h.shadow_mem_end
    → touch_entry h entry ≡ ok tt
unfolding touch_entry
touch_entry-ok h entry le le' = rw (le→leb _ _ le, le→leb _ _ le') refl

pub touch_byte-ok :
    (addr : Ptr) (mem : Memory) → is_guarded mem.guards addr ≡ false → touch_byte addr mem ≡ ok tt
unfolding touch_byte
touch_byte-ok addr mem e = rw e refl

-- `BIBOP_HEAP_SIZE`: the bags of all the threads' subheaps.
abbrev pub bibop_heap_size : ℕ → ℕ
bibop_heap_size bag_size = bibop_num_bags * bag_size * max_alive_threads

abbrev pub update_bag : (ℕ → ℕ → PerThreadBag) → ℕ → ℕ → PerThreadBag → ℕ → ℕ → PerThreadBag
update_bag table t b bag = update table t (update (table t) b bag)

-- `getLastOfBag`
unfoldable pub get_last_of_bag : ℕ → Ptr → ℕ → ℕ → Ptr
get_last_of_bag bag_size start guardoffset class_size = start + bag_size - guardoffset - class_size
