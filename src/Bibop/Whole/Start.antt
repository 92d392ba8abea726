-- ===== src/Bibop/Whole/Start.antt =====
-- bibopheap.hh: the whole heap after `initialize`.
use free_guard.Base.{ℕ, ◌+◌, ◌*◌, ◌%◌, ◌^◌, ◌<◌, ◌≡◌, ◌≢◌, ◌⊎◌, inl, inr, refl, sym, subst, arith}
use free_guard.Links.{Ptr}
use free_guard.Xdefines.Log.{log2_pow}
use free_guard.Bibop.{PerThreadBag}
use free_guard.Bibop.Init.{choose_bag_size, plan_of, init_bag, initialize, initialize_with}
use free_guard.Bibop.Init.Loop.{objects}
use free_guard.Bibop.Init.Places.{place, in_turn}
use free_guard.Bibop.Init.Sizes.{IsMapped, choose_bag_size-IsBagSize}
use free_guard.Bibop.Init.Table.{bag_of, initialize_with-table}
use free_guard.Bibop.Object.Served.Start.{start_view, initialize-IsPlaced, initialize-Served}
use free_guard.Bibop.Object.Served.{Object, object, IsInBag}
use free_guard.Bibop.Whole.Apart.{objects_apart}
use free_guard.Bibop.Whole.{IsWhole, AllServed}

module _ (size : ℕ) (heap_begin : Ptr) (ceil t b : ℕ) where
  fields :
      let bag = bag_of size heap_begin ceil t b in
      (bag.start_shadow_mem_offset ≡ place size t b * 8)
      × (bag.num_objects ≡ objects size b)
      × (bag.class_size ≡ 16 * 2 ^ b)
  unfolding init_bag objects plan_of
  fields = (refl, refl, refl)

module _ (rand : ℕ) (heap_begin shadow_begin : Ptr)
    (mapped : IsMapped heap_begin shadow_begin) where
  entries :
      (t b : ℕ)
      → t < 128
      → b < 19
      → let bag = (initialize rand heap_begin shadow_begin).0.thread_bag t b in
        (bag.start_shadow_mem_offset ≡ place (choose_bag_size rand) t b * 8)
        × (bag.num_objects ≡ objects (choose_bag_size rand) b)
        × (bag.class_size ≡ 16 * 2 ^ b)
  unfolding initialize
  entries t b thread usable =
      let s = choose_bag_size-IsBagSize rand in
      subst
        (λ (bag : PerThreadBag).
          (bag.start_shadow_mem_offset ≡ place (choose_bag_size rand) t b * 8)
          × (bag.num_objects ≡ objects (choose_bag_size rand) b)
          × (bag.class_size ≡ 16 * 2 ^ b))
        (sym (initialize_with-table _ s heap_begin shadow_begin mapped t b thread usable))
        (fields (choose_bag_size rand) heap_begin
          (initialize_with (choose_bag_size rand) heap_begin
            shadow_begin).0.shadow_mem_size_per_heap_ceil
          t b)

  power_lem : (initialize rand heap_begin shadow_begin).0.first_bag_power ≡ 4
  unfolding initialize initialize_with
  power_lem = log2_pow 4 (omega arith)

  start_lem : 0 < heap_begin → 0 < (initialize rand heap_begin shadow_begin).0.heap_begin
  unfolding initialize initialize_with
  start_lem h = h

  module _ (page : heap_begin % 4096 ≡ 0) (above : 1 < shadow_begin)
      (nonnull : 0 < heap_begin) where
    -- Whatever `initialize` draws, with regions that end below 2^64, a heap that begins with a
    -- page and is not NULL, and a shadow region that begins above the marks, the heap is laid
    -- out: each bag, no two bags have shadow entries in common, and bag `b` of each thread has
    -- objects of 16 * 2^b bytes.
    pub initialize-IsWhole : IsWhole (initialize rand heap_begin shadow_begin).0
    initialize-IsWhole = record {
      placed = λ t b thread usable.
          initialize-IsPlaced rand heap_begin shadow_begin mapped page above t b thread usable;
      apart = λ t b t' b' thread usable thread' usable' other.
          let (s, n, _) = entries t b thread usable in
          let (s', n', _) = entries t' b' thread' usable' in
          elim (in_turn (choose_bag_size rand) t b t' b' usable usable' other) [
            | inl le ↦ inl (omega arith)
            | inr le ↦ inr (omega arith)
          ];
      classes = λ t b thread usable. (entries t b thread usable).2;
      power = power_lem;
      nonnull = start_lem nonnull;
    }

    -- Under the conditions of `initialize-IsWhole`, after `initialize` each usable bag of each
    -- thread is ready to serve a program, with no object in use or freed and the four bump
    -- pointers at the first objects of the first four heaps.
    pub initialize-AllServed :
        let r = initialize rand heap_begin shadow_begin in AllServed r.0 (λ t b. start_view) r.0 r.1
    initialize-AllServed = record {
      bags = λ t b thread usable.
          initialize-Served rand heap_begin shadow_begin mapped page above t b thread usable;
      header = ((initialize rand heap_begin shadow_begin).0.thread_bag, refl);
    }

    -- After `initialize`, whatever it draws, with regions that end below 2^64, a heap that
    -- begins with a page and is not NULL, and a shadow region that begins above the marks, no
    -- two objects of the heap have a byte in common, of whatever threads, size classes and
    -- heaps they are.
    pub initialize-objects_apart :
        (t b t' b' : ℕ) (thread : t < 128) (usable : b < 19) (thread' : t' < 128)
        (usable' : b' < 19) (p q : Object) (x y : ℕ)
        → let h = (initialize rand heap_begin shadow_begin).0 in
          IsInBag h t b p
          → IsInBag h t' b' q
          → x < (h.thread_bag t b).class_size
          → y < (h.thread_bag t' b').class_size
          → ((t ≢ t') ⊎ (b ≢ b')) ⊎ (p ≢ q)
          → object h t b p + x ≢ object h t' b' q + y
    initialize-objects_apart t b t' b' thread usable thread' usable' p q x y inp inq small small' ne
          e =
        let (threads, bags, objects_same, _) =
          objects_apart (initialize rand heap_begin shadow_begin).0 initialize-IsWhole t b t' b'
            thread usable thread' usable' p q x y inp inq small small' e in
        elim ne [
          | inl (inl other) ↦ other threads
          | inl (inr other) ↦ other bags
          | inr other ↦ other objects_same
        ]
