-- ===== src/Bibop/Layout.antt =====
-- bibopheap.hh: how the heap and its shadow memory are laid out, as predicates on the fields.
pub mod Keep
pub mod Cells
use free_guard.Base.{
  ℕ, ◌+◌, ◌-◌, ◌*◌, ◌%◌, ◌^◌, ◌≤◌, ◌<◌, ◌≡◌, arith, word, bit_and, bit_and-mask, ap, ◌∙◌, sym,
}
use free_guard.Links.{Ptr}
use free_guard.Xdefines.{bibop_num_heaps, max_alive_threads, bibop_num_bags}
use free_guard.Bibop.{BibopHeap, PerThreadBag}

-- The sizes are powers of two with their shifts and masks, and the regions end below 2^64.
pub record IsSized (h : BibopHeap) : Type 0 where
  pub bag_pos : 0 < h.bibop_bag_size
  pub bag_bits : 2 ^ h.bag_shift_bits ≡ h.bibop_bag_size
  pub bag_mask : h.bag_mask ≡ h.bibop_bag_size - 1
  pub heap_bits : 2 ^ h.heap_size_shift_bits ≡ 4096 * h.bibop_bag_size
  pub heap_mask : h.heap_mask ≡ 4096 * h.bibop_bag_size - 1
  pub thread_bits : 2 ^ h.thread_shift_bits ≡ 32 * h.bibop_bag_size
  pub per_heap_bits : h.num_bags_per_heap_shift_bits ≡ 12
  pub sub_heap_mask : h.num_bags_per_sub_heap_mask ≡ 31
  pub info_size : h.shadow_object_info_size ≡ 8
  pub info_bits : h.shadow_object_info_size_shift_bits ≡ 3
  pub ceil_bits : 2 ^ h.shadow_mem_size_per_heap_ceil_shift_bits ≡ h.shadow_mem_size_per_heap_ceil
  pub ceil_pos : 0 < h.shadow_mem_size_per_heap_ceil
  pub shadow_mask : h.shadow_mem_size_per_heap_mask ≡ h.shadow_mem_size_per_heap_ceil - 1
  pub heap_end : h.heap_end ≡ h.heap_begin + bibop_num_heaps * (4096 * h.bibop_bag_size)
  pub heap_fits : h.heap_end < word
  pub shadow_fits : h.shadow_mem_begin + bibop_num_heaps * h.shadow_mem_size_per_heap_ceil < word

-- The bag `b` of thread `t`: its objects and its guard fill the bag, its shadow entries lie within
-- one heap's share, and the jumps lead from the last object to the first one, four heaps on.
pub record IsLaidOut (h : BibopHeap) (t b : ℕ) (bag : PerThreadBag) : Type 0 where
  pub thread : t < max_alive_threads
  pub usable : b < bibop_num_bags
  pub class_pos : 0 < bag.class_size
  pub class_bits : 2 ^ bag.shift_bits ≡ bag.class_size
  pub class_mask : bag.class_mask ≡ bag.class_size - 1
  pub start : bag.start_offset ≡ (t * 32 + b) * h.bibop_bag_size
  pub count : bag.num_objects ≡ bag.last_object_index + 1
  pub room : bag.num_objects * bag.class_size + bag.guardoffset ≡ h.bibop_bag_size
  pub shadow_room :
      bag.start_shadow_mem_offset + bag.num_objects * 8 ≤ h.shadow_mem_size_per_heap_ceil
  pub next_heap :
      bag.next_heap_object_offset + bag.last_object_index * bag.class_size
      ≡ 4 * (4096 * h.bibop_bag_size)
  pub next_shadow :
      bag.next_shadow_heap_object_offset + bag.last_object_index * 8
      ≡ 4 * h.shadow_mem_size_per_heap_ceil

-- The shadow entries of the heaps below this number lie in the mapping of `allocShadowMem`, which is
-- too short for those of all heaps.
abbrev pub mapped_heaps : ℕ
mapped_heaps = 1022

-- Object `i` of a bag in heap `n`, and its shadow entry.
unfoldable pub object_addr : BibopHeap → PerThreadBag → ℕ → ℕ → Ptr
object_addr h bag n i =
    h.heap_begin + n * (4096 * h.bibop_bag_size) + bag.start_offset + i * bag.class_size

unfoldable pub shadow_addr : BibopHeap → PerThreadBag → ℕ → ℕ → Ptr
shadow_addr h bag n i =
    h.shadow_mem_begin + n * h.shadow_mem_size_per_heap_ceil + bag.start_shadow_mem_offset + i * 8

-- A mask of the size less one is the remainder by the size.
pub mask_lem :
    (size bits mask x : ℕ) → 2 ^ bits ≡ size → mask ≡ size - 1 → bit_and x mask ≡ x % size
mask_lem size bits mask x p q =
    ap (bit_and x) (q ∙ ap (λ s. s - 1) (sym p)) ∙ bit_and-mask bits x ∙ ap (λ s. x % s) p
