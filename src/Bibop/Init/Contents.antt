-- ===== src/Bibop/Init/Contents.antt =====
-- bibopheap.hh: the shadow entries after `initialize`.
use free_guard.Base.{ℕ, zero, suc, ◌+◌, ◌*◌, ◌≡◌, refl, ◌∙◌}
use free_guard.Links.{Ptr, null, Links}
use free_guard.Xdefines.{log2, bibop_min_block_size, bibop_bag_set_size, max_alive_threads}
use free_guard.Bibop.{PerThreadBag, Memory}
use free_guard.Bibop.Bump.Frame.{set_guard_page-SameContents}
use free_guard.Bibop.Init.{
  Plan, Cursor, init_bag, plan_of, choose_bag_size, zero_bag, zero_memory, init_guards, step_bag,
  init_bags, skip_unusable, init_threads, first_pass, initialize_with, initialize,
}

links_of : Memory → Links
links_of mem = mem.links

init_guards-links :
    (size k : ℕ) (bag : PerThreadBag) (mem : Memory)
    → (init_guards size k bag mem).links ≡ mem.links
unfolding init_guards
init_guards-links size zero bag mem = refl
init_guards-links size (suc k) bag mem =
    (set_guard_page-SameContents size _ bag.guardsize bag.guardoffset
      (init_guards size k bag mem)).0
    ∙ init_guards-links size k bag mem

init_bags-links :
    (p : Plan) (t left b class_size shift_bits : ℕ) (c : Cursor)
    → (init_bags p t left b class_size shift_bits c).mem.links ≡ c.mem.links
unfolding init_bags step_bag
init_bags-links p t zero b class_size shift_bits c = refl
init_bags-links p t (suc left) b class_size shift_bits c =
    init_bags-links p t left (suc b) (class_size * 2) (shift_bits + 1)
      (step_bag p t b class_size shift_bits c)
    ∙ init_guards-links p.bag_size bibop_bag_set_size
        (init_bag p t b class_size shift_bits c.offset_bag c.offset_shadow_mem) c.mem

init_threads-links :
    (p : Plan) (left t : ℕ) (c : Cursor) → (init_threads p left t c).mem.links ≡ c.mem.links
unfolding init_threads skip_unusable
init_threads-links p zero t c = refl
init_threads-links p (suc left) t c =
    let r = init_bags p t p.num_usable_bags 0 bibop_min_block_size (log2 bibop_min_block_size) c in
    init_threads-links p left (suc t) (skip_unusable p r)
    ∙ init_bags-links p t p.num_usable_bags 0 bibop_min_block_size (log2 bibop_min_block_size) c

-- New shadow memory reads as zero, and `initialize` writes none of it.
pub initialize-links :
    (rand : ℕ) (heap_begin shadow_begin : Ptr)
    → (initialize rand heap_begin shadow_begin).1.links ≡ λ _. null
unfolding initialize initialize_with first_pass
initialize-links rand heap_begin shadow_begin =
    init_threads-links (plan_of (choose_bag_size rand) heap_begin) max_alive_threads 0 (record {
      table = λ t b. zero_bag;
      mem = zero_memory;
      num_cum_objects = 0;
      offset_bag = 0;
      offset_shadow_mem = 0;
    })
