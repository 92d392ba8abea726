-- ===== src/Bibop/Init/Ready.antt =====
-- bibopheap.hh: the heap after `initialize`.
use free_guard.Base.{ℕ, ◌+◌, ◌-◌, ◌*◌, ◌/◌, ◌%◌, ◌^◌, ◌≤◌, ◌<◌, ◌≡◌, sym, ap, subst, arith, []}
use free_guard.Links.{Ptr}
use free_guard.Dlist.Queue.{IsQueue, init_dll-IsQueue}
use free_guard.Bibop.{get_last_of_bag}
use free_guard.Bibop.Layout.{IsSized, IsLaidOut, object_addr, shadow_addr}
use free_guard.Bibop.Bump.Order.{AtObject}
use free_guard.Bibop.Init.{plan_of, init_bag, choose_bag_size, initialize_with, initialize}
use free_guard.Bibop.Init.Loop.{objects, sum_objects}
use free_guard.Bibop.Init.Sizes.{
  IsBagSize, IsMapped, choose_bag_size-IsBagSize, ceil_lem, total_lem, initialize_with-IsSized,
}
use free_guard.Bibop.Init.Table.{bag_of, initialize_with-table, bag_of-IsLaidOut}

module _ (size : ℕ) (s : IsBagSize size) (heap_begin shadow_begin : Ptr)
    (mapped : IsMapped heap_begin shadow_begin) where
  bag_of-AtObject :
      (t b : ℕ)
      → t < 128
      → b < 19
      → (k : ℕ)
      → let h = (initialize_with size heap_begin shadow_begin).0 in
        AtObject h (bag_of size heap_begin h.shadow_mem_size_per_heap_ceil t b) k k 0
  unfolding initialize_with init_bag objects plan_of object_addr get_last_of_bag
  bag_of-AtObject t b thread usable k =
      let (some, room) = s.bags heap_begin b usable in
      let rows : (objects size b - 1) * (16 * 2 ^ b) + 16 * 2 ^ b ≡ objects size b * (16 * 2 ^ b) =
        let e : objects size b - 1 + 1 ≡ objects size b = omega arith in
        omega (arith, ap (λ (j : ℕ). j * (16 * 2 ^ b)) e) in
      record { position = omega arith; limit = omega (arith, rows, room); inside = omega arith }

  bag_of-paged :
      (t b n : ℕ)
      → b < 19
      → heap_begin % 4096 ≡ 0
      → let h = (initialize_with size heap_begin shadow_begin).0 in
        let bag = bag_of size heap_begin h.shadow_mem_size_per_heap_ceil t b in
        object_addr h bag n bag.num_objects % 4096 ≡ 0
  unfolding initialize_with init_bag objects plan_of object_addr
  bag_of-paged t b n usable start =
      let q = size / 4096 in
      let whole : size ≡ q * 4096 = omega (arith, s.pages) in
      let row : (t * 32 + b) * size ≡ (t * 32 + b) * q * 4096 =
        omega (arith, ap (λ (k : ℕ). (t * 32 + b) * k) whole) in
      omega (arith, s.paged b usable, row)

  short_shadow :
      (b i : ℕ)
      → let h = (initialize_with size heap_begin shadow_begin).0 in
        h.shadow_mem_end
        ≤ h.shadow_mem_begin
          + 1023 * h.shadow_mem_size_per_heap_ceil
          + (127 * sum_objects size 0 19 + sum_objects size 0 b) * 8
          + i * 8
  unfolding initialize_with
  short_shadow b i = omega (
    arith,
    total_lem size s heap_begin shadow_begin mapped,
    ceil_lem size s heap_begin shadow_begin mapped,
    s.short,
  )

module _ (rand : ℕ) (heap_begin shadow_begin : Ptr)
    (mapped : IsMapped heap_begin shadow_begin) where
  -- Whatever number `initialize` draws, with regions that end below 2^64, the heap's sizes are
  -- powers of two with the shifts and masks that belong to them, and both regions end below
  -- 2^64.
  pub initialize-IsSized : IsSized (initialize rand heap_begin shadow_begin).0
  unfolding initialize
  initialize-IsSized =
      initialize_with-IsSized _ (choose_bag_size-IsBagSize rand) heap_begin shadow_begin mapped

  module _ (t b : ℕ) (thread : t < 128) (usable : b < 19) where
    -- Whatever number `initialize` draws, with regions that end below 2^64, each of the 19
    -- usable bags of each thread is laid out: its objects and its guard fill the bag, its
    -- shadow entries lie within one heap's share, and its jumps lead from the last object to
    -- the first one four heaps on.
    pub initialize-IsLaidOut :
        let h = (initialize rand heap_begin shadow_begin).0 in IsLaidOut h t b (h.thread_bag t b)
    unfolding initialize
    initialize-IsLaidOut =
        let s = choose_bag_size-IsBagSize rand in
        subst (IsLaidOut _ t b)
          (sym (initialize_with-table _ s heap_begin shadow_begin mapped t b thread usable))
          (bag_of-IsLaidOut _ s heap_begin shadow_begin mapped t b thread usable)

    -- After `initialize` each of the four bump pointers of a usable bag stands at the first
    -- object of the heap of the same number, with the limit at the last object there.
    pub initialize-AtObject :
        (k : ℕ)
        → let h = (initialize rand heap_begin shadow_begin).0 in AtObject h (h.thread_bag t b) k k 0
    unfolding initialize
    initialize-AtObject k =
        let s = choose_bag_size-IsBagSize rand in
        subst
          (λ bag.
            AtObject (initialize_with (choose_bag_size rand) heap_begin shadow_begin).0 bag k k 0)
          (sym (initialize_with-table _ s heap_begin shadow_begin mapped t b thread usable))
          (bag_of-AtObject _ s heap_begin shadow_begin mapped t b thread usable k)

    -- The last object of each bag ends with a page, if the heap begins with one.
    pub initialize-paged :
        (n : ℕ)
        → heap_begin % 4096 ≡ 0
        → let h = (initialize rand heap_begin shadow_begin).0 in
          object_addr h (h.thread_bag t b) n (h.thread_bag t b).num_objects % 4096 ≡ 0
    unfolding initialize
    initialize-paged n start =
        let s = choose_bag_size-IsBagSize rand in
        subst
          (λ bag.
            object_addr (initialize_with (choose_bag_size rand) heap_begin shadow_begin).0 bag n
                bag.num_objects
              % 4096
            ≡ 0)
          (sym (initialize_with-table _ s heap_begin shadow_begin mapped t b thread usable))
          (bag_of-paged _ s heap_begin shadow_begin mapped t b n usable start)

    -- Each of its free lists is empty.
    pub initialize-IsQueue :
        (k : ℕ)
        → let (h, mem) = initialize rand heap_begin shadow_begin in
          IsQueue mem.links ((h.thread_bag t b).freelist k) []
    unfolding initialize init_bag
    initialize-IsQueue k =
        let s = choose_bag_size-IsBagSize rand in
        subst
          (λ bag.
            IsQueue (initialize_with (choose_bag_size rand) heap_begin shadow_begin).1.links
              (bag.freelist k) [])
          (sym (initialize_with-table _ s heap_begin shadow_begin mapped t b thread usable))
          (init_dll-IsQueue _)

  -- After `initialize`, whatever it draws, the shadow entries of thread 127 in the last heap
  -- begin at or behind the end of the shadow region: the region has 1024 times the size of a
  -- heap's entries, while heap `n` begins at `n` times that size rounded up to a power of two.
  pub shadow_end-le-entry :
      (b i : ℕ)
      → b < 19
      → let h = (initialize rand heap_begin shadow_begin).0 in
        h.shadow_mem_end ≤ shadow_addr h (h.thread_bag 127 b) 1023 i
  unfolding initialize shadow_addr init_bag
  shadow_end-le-entry b i usable =
      let s = choose_bag_size-IsBagSize rand in
      rw (initialize_with-table _ s heap_begin shadow_begin mapped 127 b (omega arith) usable)
        (short_shadow _ s heap_begin shadow_begin mapped b i)
