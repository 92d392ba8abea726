-- ===== src/Bibop/Address/RoundTrip.antt =====
-- bibopheap.hh: the address translations of `getShadowObjectInfo` and `getAddrFromShadowInfo`, and
-- the test of `isSmallObject`, on the objects of a bag.
use free_guard.Base.{
  ℕ, ◌+◌, ◌*◌, ◌/◌, ◌%◌, ◌^◌, ◌≤◌, ◌<◌, ◌≡◌, refl, ap, ◌∙◌, arith, word, bit_and, sub64, shr,
  block-lt, div_block, mod_block, div_multiple, sub64-eq-sub, shl64-eq-mul, ok, bit_and-mask, true,
  le→leb,
}
use free_guard.Xdefines.{bibop_num_heaps}
use free_guard.Bibop.{BibopHeap, PerThreadBag}
use free_guard.Bibop.Layout.{IsSized, IsLaidOut, object_addr, shadow_addr, mask_lem}
use free_guard.Bibop.Address.{
  get_shadow_object_info, get_addr_from_shadow_info, object_index, shadow_entry, find_object,
  get_heap_number_of_shadow, is_small_object,
}

module _ (h : BibopHeap) (z : IsSized h) (t b : ℕ) (bag : PerThreadBag) (l : IsLaidOut h t b bag)
    (n i : ℕ) (heap : n < bibop_num_heaps) (object : i < bag.num_objects) where
  -- The number of the bag, counted through all the heaps.
  bag_number : ℕ
  bag_number = n * 4096 + (t * 32 + b)

  object_in_bag : i * bag.class_size + bag.class_size ≤ h.bibop_bag_size
  object_in_bag = grind (arith, l.room)

  offset-eq :
      object_addr h bag n i ≡ h.heap_begin + (bag_number * h.bibop_bag_size + i * bag.class_size)
  unfolding object_addr bag_number
  offset-eq = omega (arith, l.start)

  bag_number-lt : bag_number < 1024 * 4096
  unfolding bag_number
  bag_number-lt = omega (arith, l.thread, l.usable)

  offset_in_heaps : h.heap_begin + (bag_number * h.bibop_bag_size + i * bag.class_size) < h.heap_end
  offset_in_heaps =
      let in_block =
        block-lt bag_number (1024 * 4096) h.bibop_bag_size (i * bag.class_size) bag_number-lt
          (omega (arith, object_in_bag, l.class_pos)) in
      omega (arith, z.heap_end)

  offset_fits : h.heap_begin + (bag_number * h.bibop_bag_size + i * bag.class_size) < word
  offset_fits = omega (arith, offset_in_heaps, z.heap_fits)

  offset_lem :
      sub64 (object_addr h bag n i) h.heap_begin
      ≡ bag_number * h.bibop_bag_size + i * bag.class_size
  offset_lem =
      ap (λ a. sub64 a h.heap_begin) offset-eq
      ∙ sub64-eq-sub _ _ offset_fits (omega arith)
      ∙ omega arith

  global_bag_lem : shr (sub64 (object_addr h bag n i) h.heap_begin) h.bag_shift_bits ≡ bag_number
  global_bag_lem =
      ap (λ x. shr x h.bag_shift_bits) offset_lem
      ∙ ap (λ s. (bag_number * h.bibop_bag_size + i * bag.class_size) / s) z.bag_bits
      ∙ div_block bag_number h.bibop_bag_size _ (omega (arith, object_in_bag, l.class_pos))

  heap_index_lem : shr bag_number h.num_bags_per_heap_shift_bits ≡ n
  unfolding bag_number
  heap_index_lem = rw z.per_heap_bits (omega (arith, l.thread, l.usable))

  local_lem : bit_and (sub64 (object_addr h bag n i) h.heap_begin) h.bag_mask ≡ i * bag.class_size
  local_lem =
      ap (λ x. bit_and x h.bag_mask) offset_lem
      ∙ mask_lem h.bibop_bag_size h.bag_shift_bits h.bag_mask _ z.bag_bits z.bag_mask
      ∙ mod_block bag_number h.bibop_bag_size _ (omega (arith, object_in_bag, l.class_pos))

  index_lem : shr (i * bag.class_size) bag.shift_bits ≡ i
  index_lem =
      ap (λ s. i * bag.class_size / s) l.class_bits ∙ div_multiple i bag.class_size l.class_pos

  ceil_fits : n * 2 ^ h.shadow_mem_size_per_heap_ceil_shift_bits < word
  ceil_fits = rw z.ceil_bits (grind (arith, z.shadow_fits, z.ceil_pos))

  entry_lem : shadow_entry h bag n (i * bag.class_size) ≡ shadow_addr h bag n i
  unfolding shadow_entry shadow_addr
  entry_lem = rw (
    index_lem,
    shl64-eq-mul n h.shadow_mem_size_per_heap_ceil_shift_bits ceil_fits,
    z.ceil_bits,
    z.info_size,
  )

  -- The shadow entry that is computed for an object's address is the entry of that object.
  pub get_shadow_object_info_lem :
      get_shadow_object_info h (object_addr h bag n i) bag ≡ shadow_addr h bag n i
  unfolding get_shadow_object_info
  get_shadow_object_info_lem = rw (global_bag_lem, heap_index_lem, local_lem) entry_lem

  -- The offset into the object's heap.
  local_heap_offset : ℕ
  local_heap_offset = t * (32 * h.bibop_bag_size) + (b * h.bibop_bag_size + i * bag.class_size)

  thread_part-lt : b * h.bibop_bag_size + i * bag.class_size < 32 * h.bibop_bag_size
  thread_part-lt =
      block-lt b 32 h.bibop_bag_size (i * bag.class_size) l.usable
        (omega (arith, object_in_bag, l.class_pos))

  heap_part-lt : local_heap_offset < 4096 * h.bibop_bag_size
  unfolding local_heap_offset
  heap_part-lt = omega (
    arith,
    block-lt t 128 (32 * h.bibop_bag_size) (b * h.bibop_bag_size + i * bag.class_size) l.thread
        thread_part-lt,
  )

  thread_lem :
      shr (bit_and (sub64 (object_addr h bag n i) h.heap_begin) h.heap_mask) h.thread_shift_bits ≡ t
  unfolding local_heap_offset bag_number
  thread_lem =
      let e : bag_number * h.bibop_bag_size + i * bag.class_size
          ≡ n * (4096 * h.bibop_bag_size) + local_heap_offset =
        omega arith in
      ap (λ x. shr (bit_and x h.heap_mask) h.thread_shift_bits) (offset_lem ∙ e)
      ∙ ap (λ x. shr x h.thread_shift_bits)
          (mask_lem (4096 * h.bibop_bag_size) h.heap_size_shift_bits h.heap_mask _ z.heap_bits
              z.heap_mask
            ∙ mod_block n (4096 * h.bibop_bag_size) local_heap_offset heap_part-lt)
      ∙ ap (λ s. local_heap_offset / s) z.thread_bits
      ∙ div_block t (32 * h.bibop_bag_size) _ thread_part-lt

  bag_lem : bit_and bag_number h.num_bags_per_sub_heap_mask ≡ b
  unfolding bag_number
  bag_lem =
      mask_lem 32 5 h.num_bags_per_sub_heap_mask bag_number refl z.sub_heap_mask
      ∙ omega (arith, l.usable)

  aligned_lem : bit_and (i * bag.class_size) bag.class_mask ≡ 0
  aligned_lem =
      mask_lem bag.class_size bag.shift_bits bag.class_mask _ l.class_bits l.class_mask
      ∙ ap (λ x. x % bag.class_size) (omega arith)
      ∙ mod_block i bag.class_size 0 l.class_pos

  -- In a heap that is laid out, from the address of an object alone `getShadowObjectInfo` finds
  -- the thread and the number of its bag, its bag set item and its shadow entry.
  pub find_object_lem :
      h.thread_bag t b ≡ bag
      → find_object h (object_addr h bag n i)
        ≡ ok (record {
          shadowinfo = shadow_addr h bag n i;
          thread = t;
          bag = b;
          bag_set_item = n % 4;
        })
  unfolding find_object
  find_object_lem e = rw (
    global_bag_lem,
    heap_index_lem,
    thread_lem,
    bag_lem,
    local_lem,
    e,
    aligned_lem,
    entry_lem,
    bit_and-mask 2 n,
  )

  entry_in_share : bag.start_shadow_mem_offset + i * 8 < h.shadow_mem_size_per_heap_ceil
  entry_in_share = omega (arith, l.shadow_room)

  pub shadow_end :
      h.shadow_mem_begin
        + (n * h.shadow_mem_size_per_heap_ceil + (bag.start_shadow_mem_offset + i * 8))
      < word
  shadow_end = omega (
    arith,
    z.shadow_fits,
    block-lt n 1024 h.shadow_mem_size_per_heap_ceil (bag.start_shadow_mem_offset + i * 8) heap
        entry_in_share,
  )

  shadow_offset_lem :
      sub64 (shadow_addr h bag n i) h.shadow_mem_begin
      ≡ n * h.shadow_mem_size_per_heap_ceil + (bag.start_shadow_mem_offset + i * 8)
  unfolding shadow_addr
  shadow_offset_lem = sub64-eq-sub _ _ (omega (arith, shadow_end)) (omega arith) ∙ omega arith

  shadow_heap_lem :
      shr
        (sub64 (shadow_addr h bag n i) h.shadow_mem_begin)
        h.shadow_mem_size_per_heap_ceil_shift_bits
      ≡ n
  shadow_heap_lem =
      ap (λ x. shr x h.shadow_mem_size_per_heap_ceil_shift_bits) shadow_offset_lem
      ∙ ap (λ s. (n * h.shadow_mem_size_per_heap_ceil + (bag.start_shadow_mem_offset + i * 8)) / s)
          z.ceil_bits
      ∙ div_block n h.shadow_mem_size_per_heap_ceil _ entry_in_share

  -- The index of an object is read off its entry.
  pub object_index_lem : object_index h (shadow_addr h bag n i) bag ≡ i
  unfolding object_index
  object_index_lem =
      let e : bit_and (sub64 (shadow_addr h bag n i) h.shadow_mem_begin)
            h.shadow_mem_size_per_heap_mask
          ≡ bag.start_shadow_mem_offset + i * 8 =
        ap (λ x. bit_and x h.shadow_mem_size_per_heap_mask) shadow_offset_lem
        ∙ mask_lem h.shadow_mem_size_per_heap_ceil h.shadow_mem_size_per_heap_ceil_shift_bits
            h.shadow_mem_size_per_heap_mask _ z.ceil_bits z.shadow_mask
        ∙ mod_block n h.shadow_mem_size_per_heap_ceil _ entry_in_share in
      let f : sub64 (bag.start_shadow_mem_offset + i * 8) bag.start_shadow_mem_offset ≡ i * 8 =
        sub64-eq-sub _ _ (omega (arith, shadow_end)) (omega arith) ∙ omega arith in
      rw (e, f, z.info_bits) (omega arith)

  -- The heap number of an entry is that of its heap.
  pub get_heap_number_of_shadow_lem : get_heap_number_of_shadow h (shadow_addr h bag n i) ≡ n
  unfolding get_heap_number_of_shadow
  get_heap_number_of_shadow_lem = rw shadow_heap_lem (omega (arith, heap))

  -- In a heap that is laid out, `getAddrFromShadowInfo` takes the shadow entry of an object
  -- back to the object's address.
  pub get_addr_from_shadow_info_lem :
      get_addr_from_shadow_info h (shadow_addr h bag n i) bag ≡ object_addr h bag n i
  unfolding get_addr_from_shadow_info object_addr
  get_addr_from_shadow_info_lem =
      let fits : n * 2 ^ h.heap_size_shift_bits < word =
        rw z.heap_bits (grind (arith, z.heap_end, z.heap_fits)) in
      let fits' : i * 2 ^ bag.shift_bits < word = rw l.class_bits (omega (arith, offset_fits)) in
      rw (
        shadow_heap_lem,
        object_index_lem,
        shl64-eq-mul n h.heap_size_shift_bits fits,
        shl64-eq-mul i bag.shift_bits fits',
        z.heap_bits,
        l.class_bits,
      )

  -- Every object is a small object, by the test that `free` makes first.
  pub is_small_object_lem : is_small_object h (object_addr h bag n i) ≡ true
  unfolding is_small_object
  is_small_object_lem =
      let above : h.heap_begin ≤ object_addr h bag n i = omega (arith, offset-eq) in
      let below : object_addr h bag n i ≤ h.heap_end = omega (arith, offset-eq, offset_in_heaps) in
      rw (le→leb _ _ above, le→leb _ _ below)
