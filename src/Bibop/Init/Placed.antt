-- ===== src/Bibop/Init/Placed.antt =====
-- bibopheap.hh: the shadow mapping and the guards after `initialize`.
use free_guard.Base.{ℕ, ◌+◌, ◌*◌, ◌≤◌, ◌<◌, ◌≡◌, ◌⊎◌, inl, inr, sym, subst, arith, is_guarded, true}
use free_guard.Links.{Ptr}
use free_guard.Bibop.{BibopHeap, PerThreadBag}
use free_guard.Bibop.Layout.{object_addr, shadow_addr}
use free_guard.Bibop.Bump.Covered.{InEnd}
use free_guard.Bibop.Object.Free.{Mapped}
use free_guard.Bibop.Init.{
  plan_of, init_bag, first_pass, choose_bag_size, initialize_with, initialize,
}
use free_guard.Bibop.Init.Loop.{objects}
use free_guard.Bibop.Init.Places.{place_end}
use free_guard.Bibop.Init.Guards.{init_threads-InGuard}
use free_guard.Bibop.Init.Sizes.{
  IsBagSize, IsMapped, choose_bag_size-IsBagSize, ceil_lem, total_lem,
}
use free_guard.Bibop.Init.Table.{bag_of, initialize_with-table}

row_le : (n k c : ℕ) → n < k + 1 → n * c ≤ k * c
row_le n k c lt = grind arith

-- The guard of bag `b` ends in the bag, or in the bags that are not usable behind the last usable one.
abbrev pub GuardFits : BibopHeap → ℕ → PerThreadBag → Type 0
GuardFits h b bag =
    (bag.num_objects * bag.class_size + bag.guardsize ≤ h.bibop_bag_size)
    ⊎ ((b ≡ 18) × (bag.num_objects * bag.class_size + bag.guardsize ≤ 14 * h.bibop_bag_size))

module _ (size : ℕ) (s : IsBagSize size) (heap_begin shadow_begin : Ptr)
    (mapped : IsMapped heap_begin shadow_begin) where
  bag_of-Mapped :
      (t b : ℕ)
      → t < 128
      → b < 19
      → let h = (initialize_with size heap_begin shadow_begin).0 in
        Mapped h (bag_of size heap_begin h.shadow_mem_size_per_heap_ceil t b)
  unfolding initialize_with init_bag objects plan_of shadow_addr
  bag_of-Mapped t b thread usable n i near inside = omega (
    arith,
    inside,
    total_lem size s heap_begin shadow_begin mapped,
    ceil_lem size s heap_begin shadow_begin mapped,
    s.covered,
    place_end size t b thread usable,
    row_le n 1021 (initialize_with size heap_begin shadow_begin).0.shadow_mem_size_per_heap_ceil
        near,
  )

  bag_of-GuardFits :
      (t b : ℕ)
      → b < 19
      → let h = (initialize_with size heap_begin shadow_begin).0 in
        GuardFits h b (bag_of size heap_begin h.shadow_mem_size_per_heap_ceil t b)
  unfolding initialize_with init_bag objects plan_of
  bag_of-GuardFits t b usable = s.guards heap_begin b usable

  -- What `initialize` protects are the guards behind the usable bags.
  initialize_with-InEnd :
      (a : Ptr)
      → let r = initialize_with size heap_begin shadow_begin in
        is_guarded r.1.guards a ≡ true
        → (t : ℕ) × (b : ℕ) × (t < 128)
          × (b < 19)
          × InEnd r.0 (bag_of size heap_begin r.0.shadow_mem_size_per_heap_ceil t b) a
  unfolding initialize_with init_bag objects plan_of object_addr first_pass is_guarded
  initialize_with-InEnd a now =
      elim (init_threads-InGuard (plan_of size heap_begin) 128 0 _ a (s.usable heap_begin)
        (omega arith) (omega arith) now) [
          | inl none ↦ absurd (ground (arith, none))
          | inr (t, b, j, thread, few, (above, below)) ↦
              let usable : b < 19 = omega (arith, few, s.usable heap_begin) in
              let (some, room) = s.bags heap_begin b usable in
              (t, b, thread, usable, (j, omega (arith, above, room), omega (arith, below, room)))
        ]

module _ (rand : ℕ) (heap_begin shadow_begin : Ptr)
    (mapped : IsMapped heap_begin shadow_begin) where
  module _ (t b : ℕ) (thread : t < 128) (usable : b < 19) where
    -- The entries of the first 1022 heaps lie in the shadow mapping.
    pub initialize-Mapped :
        let h = (initialize rand heap_begin shadow_begin).0 in Mapped h (h.thread_bag t b)
    unfolding initialize
    initialize-Mapped =
        let s = choose_bag_size-IsBagSize rand in
        subst (Mapped (initialize_with (choose_bag_size rand) heap_begin shadow_begin).0)
          (sym (initialize_with-table _ s heap_begin shadow_begin mapped t b thread usable))
          (bag_of-Mapped _ s heap_begin shadow_begin mapped t b thread usable)

    pub initialize-GuardFits :
        let h = (initialize rand heap_begin shadow_begin).0 in GuardFits h b (h.thread_bag t b)
    unfolding initialize
    initialize-GuardFits =
        let s = choose_bag_size-IsBagSize rand in
        subst (GuardFits (initialize_with (choose_bag_size rand) heap_begin shadow_begin).0 b)
          (sym (initialize_with-table _ s heap_begin shadow_begin mapped t b thread usable))
          (bag_of-GuardFits _ s heap_begin shadow_begin mapped t b usable)

  pub initialize-InEnd :
      (a : Ptr)
      → let r = initialize rand heap_begin shadow_begin in
        is_guarded r.1.guards a ≡ true
        → (t : ℕ) × (b : ℕ) × (t < 128) × (b < 19) × InEnd r.0 (r.0.thread_bag t b) a
  unfolding initialize
  initialize-InEnd a now =
      let s = choose_bag_size-IsBagSize rand in
      let (t, b, thread, usable, end) =
        initialize_with-InEnd _ s heap_begin shadow_begin mapped a now in
      (
        t,
        b,
        thread,
        usable,
        subst
            (λ bag. InEnd (initialize_with (choose_bag_size rand) heap_begin shadow_begin).0 bag a)
            (sym (initialize_with-table _ s heap_begin shadow_begin mapped t b thread usable)) end,
      )
