-- ===== src/Examples/Entry.antt =====
-- The entry points: a first call, and large objects on an initialized heap.
use free_guard.Base.{◌≤◌, ◌≡◌, refl, true, false, [], ◌∷◌, arith, some, ok, Returns, ◌>>=◌}
use free_guard.Links.{Ptr}
use free_guard.HashMap.Find.{find_lem}
use free_guard.Xdefines.{alignup, log2, bit_length}
use free_guard.Bibop.{BibopHeap}
use free_guard.Bibop.Init.{initialize, initialize_with, choose_bag_size}
use free_guard.Bibop.Address.{is_small_object}
use free_guard.BigHeap.{object_start}
use free_guard.Allocator.{
  Allocator, System, Call, e_heap_init_not, e_heap_init_done, xxmalloc, xxfree,
}
use free_guard.Allocator.Route.{xxfree-xxmalloc}
use free_guard.Examples.Maps.{map4, no_entries, table4, fresh4, big4, big4-IsBigHeap, object4}
use free_guard.Examples.Heaps.{heap, memory, draws}
use free_guard.Examples.Slots.{two_threads}

abbrev pub system : System
system = record {
  rand = 0;
  heap_begin = 0x200000000000;
  shadow_begin = 0x100000000000;
  tid = 4321;
  self = 900;
  thread_buckets = 1000;
  thread_entry = 0x10000;
  object_buckets = 0x20000;
  resolve = λ a. ok a;
}

abbrev pub call : Call
call = record {
  sys = system;
  stack_var = 0x700000802000;
  draws = draws;
  supply = record { status = 3000; mapping = some 0x40000000; entry = 2000 };
}

-- Before and after the initialisation.
abbrev pub fresh_start : Allocator
fresh_start = record {
  heap_init_status = e_heap_init_not;
  num_large_objects = 0;
  heap = heap;
  memory = memory;
  big = big4;
  threads = two_threads;
  global_stack_addr = 0x700000000000;
}

abbrev pub ready : Allocator
ready = record {
  heap_init_status = e_heap_init_done;
  num_large_objects = 0;
  heap = heap;
  memory = memory;
  big = big4;
  threads = two_threads;
  global_stack_addr = 0x700000000000;
}

outside : is_small_object heap object4 ≡ false
unfolding is_small_object initialize initialize_with object_start alignup
outside = refl

place : object4 ≡ 1073743040
unfolding object_start alignup
place = refl

xxfree-xxmalloc_example : Returns (xxmalloc call 5000000 ready >>= λ r. xxfree r.0 r.1) (λ r.
    (r.heap ≡ heap)
    × (r.memory ≡ memory)
    × (r.num_large_objects ≡ 1)
    × (r.big.unmapped ≡ (0x40000000, alignup 5000000 4096) ∷ [])
    × (xxfree object4 r ≡ ok r))
xxfree-xxmalloc_example =
    xxfree-xxmalloc call 5000000 0x40000000 3000 2000 ready no_entries refl (omega arith)
      (omega arith) (unfold alignup in omega arith) refl big4-IsBigHeap (omega arith)
      (fresh4 2000 (omega arith)) (omega arith) (find_lem map4 no_entries table4 object4 8)
      (λ e. omega (arith, e, place)) outside

pub heap_end : heap.heap_end ≡ 0x300000000000
unfolding initialize initialize_with choose_bag_size log2 bit_length
heap_end = refl

pub heap_begin : heap.heap_begin ≡ 0x200000000000
unfolding initialize initialize_with
heap_begin = refl

pub small_bounds :
    (h : BibopHeap) (a : Ptr) → is_small_object h a ≡ true → (h.heap_begin ≤ a) × (a ≤ h.heap_end)
unfolding is_small_object
small_bounds h a e = (ground (arith, e), ground (arith, e))
