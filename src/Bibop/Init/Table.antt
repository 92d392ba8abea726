-- ===== src/Bibop/Init/Table.antt =====
-- bibopheap.hh: the table of bags that `initialize` fills.
use free_guard.Base.{
  ℕ, ◌+◌, ◌-◌, ◌*◌, ◌^◌, ◌≤◌, ◌<◌, ◌≡◌, refl, sym, ap, ◌∙◌, arith, lt→ltb, pow_pos, pow_add,
}
use free_guard.Links.{Ptr}
use free_guard.Bibop.{PerThreadBag}
use free_guard.Bibop.Layout.{IsLaidOut}
use free_guard.Bibop.Init.{plan_of, first_pass, init_bag, set_next_shadow, initialize_with}
use free_guard.Bibop.Init.Loop.{
  objects, sum_objects, sum_objects-le, init_bag_congr, init_threads-table,
}
use free_guard.Bibop.Init.Sizes.{IsBagSize, IsMapped, ceil_bits_of, ceil_lem}

-- What the two passes give to bag `b` of thread `t`.
abbrev pub bag_of : ℕ → Ptr → ℕ → ℕ → ℕ → PerThreadBag
bag_of size heap_begin ceil t b =
    let p = plan_of size heap_begin in
    let bag =
      init_bag p t b (16 * 2 ^ b) (4 + b) ((t * 32 + b) * size)
        ((t * sum_objects size 0 19 + sum_objects size 0 b) * 8) in
    record bag { next_shadow_heap_object_offset = ceil * 4 - (bag.num_objects - 1) * 8 }

set_next_shadow_lem :
    (ceil usable : ℕ) (table : ℕ → ℕ → PerThreadBag) (t b : ℕ)
    → t < 128
    → b < usable
    → set_next_shadow ceil usable table t b ≡ record (table t b) {
      next_shadow_heap_object_offset = ceil * 4 - ((table t b).num_objects - 1) * 8;
    }
unfolding set_next_shadow
set_next_shadow_lem ceil usable table t b h k = rw (lt→ltb t 128 h, lt→ltb b usable k)

module _ (size : ℕ) (s : IsBagSize size) (heap_begin shadow_begin : Ptr)
    (mapped : IsMapped heap_begin shadow_begin) (t b : ℕ) (thread : t < 128) (usable : b < 19) where
  in_plan : b < (plan_of size heap_begin).num_usable_bags
  in_plan = omega (arith, s.usable heap_begin)

  first_pass-table :
      (first_pass (plan_of size heap_begin)).table t b
      ≡ init_bag
          (plan_of size heap_begin)
          t
          b
          (16 * 2 ^ b)
          (4 + b)
          ((t * 32 + b) * size)
          ((t * sum_objects size 0 19 + sum_objects size 0 b) * 8)
  unfolding first_pass plan_of
  first_pass-table =
      let p = plan_of size heap_begin in
      let here : 0 + t ≡ t = omega arith in
      let share = ap (λ k. sum_objects size 0 k) (s.usable heap_begin) in
      ap (λ j. (first_pass p).table j b) (sym here)
      ∙ init_threads-table p (omega (arith, s.usable heap_begin)) 128 0 _ t b thread in_plan
      ∙ init_bag_congr p (0 + t) t b b _ _ _ _ _ _ _ _ here refl refl refl (omega arith)
          (omega (arith, ap (λ (k : ℕ). t * k) share))

  -- The closed form of the table that the loops fill.
  pub initialize_with-table :
      let h = (initialize_with size heap_begin shadow_begin).0 in
      h.thread_bag t b ≡ bag_of size heap_begin h.shadow_mem_size_per_heap_ceil t b
  unfolding initialize_with
  initialize_with-table =
      let ceil = 2 ^ ceil_bits_of ((first_pass (plan_of size heap_begin)).num_cum_objects * 8) in
      set_next_shadow_lem ceil (plan_of size heap_begin).num_usable_bags
        (first_pass (plan_of size heap_begin)).table t b thread in_plan
      ∙ ap {A = PerThreadBag} {B = PerThreadBag}
          (λ bag. record bag {
            next_shadow_heap_object_offset = ceil * 4 - (bag.num_objects - 1) * 8;
          })
          first_pass-table

  -- A bag's shadow entries end within the share of one heap.
  entries_fit :
      (t * sum_objects size 0 19 + sum_objects size 0 b) * 8 + objects size b * 8
      ≤ 2 ^ ceil_bits_of ((first_pass (plan_of size heap_begin)).num_cum_objects * 8)
  entries_fit =
      let e : 0 + b ≡ b = omega arith in
      let part : sum_objects size 0 b + objects size b ≤ sum_objects size 0 19 =
        omega (arith, ap (objects size) e, sum_objects-le size 0 b 19 usable) in
      let whole : t * sum_objects size 0 19 + sum_objects size 0 19 ≤ 128 * sum_objects size 0 19 =
        grind (arith, thread) in
      omega (arith, ceil_lem size s heap_begin shadow_begin mapped, s.share_fits)

  pub bag_of-IsLaidOut :
      let h = (initialize_with size heap_begin shadow_begin).0 in
      IsLaidOut h t b (bag_of size heap_begin h.shadow_mem_size_per_heap_ceil t b)
  unfolding initialize_with init_bag objects plan_of
  bag_of-IsLaidOut =
      let (some, room) = s.bags heap_begin b usable in
      let rows : (objects size b - 1) * (16 * 2 ^ b) + 16 * 2 ^ b ≡ objects size b * (16 * 2 ^ b) =
        let e : objects size b - 1 + 1 ≡ objects size b = omega arith in
        omega (arith, ap (λ (k : ℕ). k * (16 * 2 ^ b)) e) in
      record {
        thread = thread;
        usable = omega arith;
        class_pos = omega (arith, pow_pos b);
        class_bits = pow_add 4 b;
        class_mask = refl;
        start = refl;
        count = omega arith;
        room = room;
        shadow_room = entries_fit;
        next_heap = omega (arith, rows, room);
        next_shadow = omega (arith, entries_fit);
      }
