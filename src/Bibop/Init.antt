-- ===== src/Bibop/Init.antt =====
-- bibopheap.hh: `initialize`. The two results of `mmap` and the random number are its arguments.
pub mod Loop
pub mod Sizes
pub mod Table
pub mod Ready
pub mod Contents
pub mod Places
pub mod Guards
pub mod Placed
use free_guard.Base.{
  ℕ, zero, suc, ◌+◌, ◌-◌, ◌*◌, ◌/◌, ◌%◌, ◌^◌, ◌==◌, ltb, ◌&&◌, if◌then◌else◌, shl64, Bool, [],
}
use free_guard.Links.{Ptr, null}
use free_guard.Dlist.{init_dll}
use free_guard.Xdefines.{
  log2, clzll, page_size, max_alive_threads, bibop_num_heaps, bibop_num_bags, bibop_bag_set_size,
  bibop_min_block_size, min_random_bag_size, max_random_bag_size, large_object_threshold,
}
use free_guard.Bibop.{PerThreadBag, BibopHeap, Memory, bibop_heap_size, update_bag, get_last_of_bag}
use free_guard.Bibop.Bump.{set_guard_page}

-- The randomized bag size.
unfoldable pub choose_bag_size : ℕ → ℕ
choose_bag_size rand =
    let rand_power = rand % (log2 (max_random_bag_size / min_random_bag_size) + 1) in
    shl64 min_random_bag_size rand_power

-- What the loops over the bags read.
pub record Plan : Type 0 where
  pub bag_size : ℕ
  pub last_usable_bag_size : ℕ
  pub num_usable_bags : ℕ
  pub heap_begin : Ptr

unfoldable pub plan_of : ℕ → Ptr → Plan
plan_of bag_size heap_begin =
    let last = if ltb large_object_threshold bag_size then large_object_threshold else bag_size in
    let usable = log2 last - log2 bibop_min_block_size + 1 in
    record {
      bag_size = bag_size;
      last_usable_bag_size = last;
      num_usable_bags = if ltb bibop_num_bags usable then bibop_num_bags else usable;
      heap_begin = heap_begin;
    }

-- Whether a bag is the last usable one and holds a single object, which gets no guard of its own.
abbrev is_single : Plan → ℕ → Bool
is_single p b = b == p.num_usable_bags - 1 && p.bag_size == p.last_usable_bag_size

unfoldable pub guardoffset_of : Plan → ℕ → ℕ → ℕ
guardoffset_of p b class_size =
    if is_single p b then 0 else if ltb page_size class_size then class_size else page_size

-- The last usable bag's guard also covers the bags that are not usable.
unfoldable pub guardsize_of : Plan → ℕ → ℕ → ℕ
unfolding guardoffset_of
guardsize_of p b class_size =
    if b == p.num_usable_bags - 1
    then guardoffset_of p b class_size
      + (bibop_num_bags - log2 p.last_usable_bag_size + log2 bibop_min_block_size - 1) * p.bag_size
    else guardoffset_of p b class_size

-- The number of objects in a bag, less those that make room for the guard.
unfoldable pub num_bag_objects : ℕ → ℕ → ℕ
num_bag_objects bag_size class_size =
    let all = bag_size / class_size in
    if ltb 1 all
    then (if ltb class_size page_size then all - page_size / class_size else all - 1)
    else all

-- The variables of the loops, and the memory.
pub record Cursor : Type 0 where
  pub table : ℕ → ℕ → PerThreadBag
  pub mem : Memory
  pub num_cum_objects : ℕ
  pub offset_bag : ℕ
  pub offset_shadow_mem : ℕ

-- The fields of one bag. The second pass sets the shadow offset of the next heap.
unfoldable pub init_bag : Plan → ℕ → ℕ → ℕ → ℕ → ℕ → ℕ → PerThreadBag
unfolding get_last_of_bag
init_bag p t b class_size shift_bits offset_bag offset_shadow_mem =
    let heap_size = bibop_heap_size p.bag_size in
    let num = num_bag_objects p.bag_size class_size in
    let guardoffset = guardoffset_of p b class_size in
    let position = λ (k : ℕ). p.heap_begin + offset_bag + k * heap_size in
    record {
      freelist = λ _. init_dll;
      position = position;
      last_of_cur_bag = λ k. get_last_of_bag p.bag_size (position k) guardoffset class_size;
      num_objects = num;
      last_object_index = num - 1;
      bag_num = b;
      thread_index = t;
      class_mask = class_size - 1;
      class_size = class_size;
      shift_bits = shift_bits;
      start_offset = offset_bag;
      start_shadow_mem_offset = offset_shadow_mem;
      next_heap_object_offset =
          heap_size * (bibop_bag_set_size - 1)
          + (heap_size - p.bag_size + class_size + guardoffset);
      next_shadow_heap_object_offset = 0;
      cflthreshold = num / 10;
      guardsize = guardsize_of p b class_size;
      guardoffset = guardoffset;
    }

-- The guard pages of the bag's first heaps, one for each bag set item.
init_guards : ℕ → ℕ → PerThreadBag → Memory → Memory
init_guards bag_size zero bag mem = mem
init_guards bag_size (suc k) bag mem =
    set_guard_page bag_size (bag.position k) bag.guardsize bag.guardoffset
      (init_guards bag_size k bag mem)

pub step_bag : Plan → ℕ → ℕ → ℕ → ℕ → Cursor → Cursor
unfolding init_guards
step_bag p t b class_size shift_bits c =
    let bag = init_bag p t b class_size shift_bits c.offset_bag c.offset_shadow_mem in
    record {
      table = update_bag c.table t b bag;
      mem = init_guards p.bag_size bibop_bag_set_size bag c.mem;
      num_cum_objects = c.num_cum_objects + bag.num_objects;
      offset_bag = c.offset_bag + p.bag_size;
      offset_shadow_mem = c.offset_shadow_mem + bag.num_objects * 8;
    }

-- The loop over the bags of one thread: the rounds left, and the bag that is next.
pub init_bags : Plan → ℕ → ℕ → ℕ → ℕ → ℕ → Cursor → Cursor
init_bags p t zero b class_size shift_bits c = c
init_bags p t (suc left) b class_size shift_bits c =
    init_bags p t left (suc b) (class_size * 2) (shift_bits + 1)
      (step_bag p t b class_size shift_bits c)

-- The bags that are not usable are skipped at the end of each thread's round.
pub skip_unusable : Plan → Cursor → Cursor
skip_unusable p c = record c {
  offset_bag = c.offset_bag + (bibop_num_bags - p.num_usable_bags) * p.bag_size;
}

-- The loop over the threads.
pub init_threads : Plan → ℕ → ℕ → Cursor → Cursor
unfolding step_bag init_bags skip_unusable
init_threads p zero t c = c
init_threads p (suc left) t c = init_threads p left (suc t) (
    skip_unusable p
      (init_bags p t p.num_usable_bags 0 bibop_min_block_size (log2 bibop_min_block_size) c))

-- The second pass over the bags.
pub set_next_shadow : ℕ → ℕ → (ℕ → ℕ → PerThreadBag) → ℕ → ℕ → PerThreadBag
set_next_shadow ceil usable table t b =
    let bag = table t b in
    if ltb t max_alive_threads && ltb b usable
    then record bag {
      next_shadow_heap_object_offset = ceil * bibop_bag_set_size - (bag.num_objects - 1) * 8;
    }
    else bag

-- A bag that is never initialized is all zero, as static storage is.
abbrev zero_bag : PerThreadBag
zero_bag = record {
  freelist = λ _. record { next = null; prev = null };
  position = λ _. null;
  last_of_cur_bag = λ _. null;
  num_objects = 0;
  last_object_index = 0;
  bag_num = 0;
  thread_index = 0;
  class_mask = 0;
  class_size = 0;
  shift_bits = 0;
  start_offset = 0;
  start_shadow_mem_offset = 0;
  next_heap_object_offset = 0;
  next_shadow_heap_object_offset = 0;
  cflthreshold = 0;
  guardsize = 0;
  guardoffset = 0;
}

-- New mappings read as zero.
abbrev zero_memory : Memory
zero_memory = record { links = λ _. null; bytes = λ _. 0; guards = [] }

pub first_pass : Plan → Cursor
first_pass p = init_threads p max_alive_threads 0 (record {
  table = λ t b. zero_bag;
  mem = zero_memory;
  num_cum_objects = 0;
  offset_bag = 0;
  offset_shadow_mem = 0;
})

-- All but the choice of the bag size.
unfoldable pub initialize_with : ℕ → Ptr → Ptr → BibopHeap × Memory
initialize_with bag_size heap_begin shadow_begin =
    let p = plan_of bag_size heap_begin in
    let heap_size = bibop_heap_size bag_size in
    let c = first_pass p in
    let num_bags_per_heap = bibop_num_bags * max_alive_threads in
    let shadow_size = c.num_cum_objects * 8 in
    let ceil_bits = 8 * 8 - clzll (shadow_size - 1) in
    let ceil = 2 ^ ceil_bits in
    (
      record {
        heap_begin = heap_begin;
        heap_end = heap_begin + bibop_num_heaps * heap_size;
        heap_mask = heap_size - 1;
        heap_size_shift_bits = log2 heap_size;
        shadow_mem_begin = shadow_begin;
        shadow_mem_end = shadow_begin + bibop_num_heaps * shadow_size;
        shadow_mem_size_per_heap = shadow_size;
        shadow_mem_size_per_heap_ceil = ceil;
        shadow_mem_size_per_heap_ceil_shift_bits = ceil_bits;
        shadow_mem_size_per_heap_mask = ceil - 1;
        shadow_object_info_size = 8;
        shadow_object_info_size_shift_bits = log2 8;
        num_usable_bags = p.num_usable_bags;
        last_usable_bag = p.num_usable_bags - 1;
        bibop_bag_size = bag_size;
        first_bag_power = log2 bibop_min_block_size;
        thread_size = bag_size * bibop_num_bags;
        thread_shift_bits = log2 (bag_size * bibop_num_bags);
        bag_shift_bits = log2 bag_size;
        bag_mask = bag_size - 1;
        num_objects_per_heap = c.num_cum_objects;
        num_objects_per_sub_heap = c.num_cum_objects / max_alive_threads;
        num_bags_per_heap = num_bags_per_heap;
        num_bags_per_sub_heap_mask = bibop_num_bags - 1;
        num_bags_per_heap_shift_bits = log2 num_bags_per_heap;
        thread_bag = set_next_shadow ceil p.num_usable_bags c.table;
      },
      c.mem,
    )

unfoldable pub initialize : ℕ → Ptr → Ptr → BibopHeap × Memory
initialize rand = initialize_with (choose_bag_size rand)
