-- ===== src/Examples/Programs.antt =====
-- A program that allocates 100 bytes and frees them, on an initialized heap.
use free_guard.Base.{
  ℕ, ◌*◌, ◌%◌, ◌+◌, ◌<◌, ◌≤◌, ◌≡◌, ◌≢◌, refl, ap, arith, fault, double_free, Returns, inr,
}
use free_guard.Xdefines.{get_thread_index}
use free_guard.Bibop.Layout.{object_addr, mapped_heaps}
use free_guard.Bibop.SizeClass.Fit.{Fits, class_size-Fits}
use free_guard.Bibop.Object.Served.{Object, View, object}
use free_guard.Bibop.Object.Served.Apart.{bag_room}
use free_guard.Bibop.Object.Served.Grant.{Granted}
use free_guard.Bibop.Object.Served.Free.{Released}
use free_guard.Bibop.Object.Served.Start.{start_view}
use free_guard.Bibop.Whole.{IsWhole, AllServed}
use free_guard.Bibop.Whole.Start.{
  initialize-IsWhole, initialize-AllServed, initialize-objects_apart,
}
use free_guard.Allocator.{xxmalloc, xxfree, xxmemalign}
use free_guard.Allocator.Resize.{xxmemalign_lem}
use free_guard.Allocator.First.{get_thread_index-lt}
use free_guard.Allocator.Running.{IsRunning, xxmalloc-IsRunning, xxfree-IsRunning, in_heap}
use free_guard.Allocator.Course.{
  Reach, initially, next, malloc_small, xxmalloc-Reach, xxfree-Reach, xxfree-Reach_idle,
}
use free_guard.Examples.Heaps.{mapped, heap, memory}
use free_guard.Examples.Entry.{call, ready, heap_begin, heap_end, small_bounds}

initialize-IsWhole_example : IsWhole heap
initialize-IsWhole_example =
    initialize-IsWhole 0 0x200000000000 0x100000000000 mapped refl (omega arith) (omega arith)

pub whole : IsWhole heap
whole = initialize-IsWhole 0 0x200000000000 0x100000000000 mapped refl (omega arith) (omega arith)

pub running : IsRunning heap (λ t b. start_view) ready
running = record {
  done = refl;
  served =
      initialize-AllServed 0 0x200000000000 0x100000000000 mapped refl (omega arith) (omega arith);
}

abbrev pub request : (k : ℕ) × Fits 101 k
request = class_size-Fits 101 (omega arith)

pub usable : request.0 < 19
usable = omega (arith, request.1.usable)

-- The caller's thread.
abbrev pub t : ℕ
t = get_thread_index ready.global_stack_addr call.stack_var

abbrev pub thread : t < 128
thread = get_thread_index-lt ready.global_stack_addr call.stack_var

xxmalloc-IsRunning_example : Returns (xxmalloc call 100 ready) (λ r.
    (o : Object) × (views' : ℕ → ℕ → View) × (o.0 ≤ 1)
    × Granted heap t request.0
        (whole.placed t request.0 thread usable)
        heap
        memory
        o
        (r.0, r.1.heap, r.1.memory)
    × (100 < (heap.thread_bag t request.0).class_size)
    × IsRunning heap views' r.1)
xxmalloc-IsRunning_example =
    xxmalloc-IsRunning heap whole (λ t b. start_view) ready running call 100 request.0 request.1
      usable (omega arith) (omega arith)

abbrev pub first : Returns (xxmalloc call 100 ready) (λ r.
    (o : Object) × (views' : ℕ → ℕ → View) × (o.0 ≤ 1)
    × Granted heap t request.0
        (whole.placed t request.0 thread usable)
        heap
        memory
        o
        (r.0, r.1.heap, r.1.memory)
    × (100 < (heap.thread_bag t request.0).class_size)
    × IsRunning heap views' r.1)
first =
    xxmalloc-IsRunning heap whole (λ t b. start_view) ready running call 100 request.0 request.1
      usable (omega arith) (omega arith)

-- The bump pointers of every bag stand in the heap at first.
pub start_below :
    (j k : ℕ)
    → j < 128
    → k < 19
    → (heap.thread_bag j k).position 1
      < heap.heap_begin + mapped_heaps * (4096 * heap.bibop_bag_size)
unfolding object_addr
start_below j k lt lt' =
    let z = whole.placed j k lt lt' in
    let s = running.served.bags j k lt lt' in
    omega (
      arith,
      (s.place 1).position,
      z.sized.bag_pos,
      z.laid_out.start,
      bag_room j k heap.bibop_bag_size lt (omega (arith, lt')),
    )

below :
    (heap.thread_bag t request.0).position 1
    < heap.heap_begin + mapped_heaps * (4096 * heap.bibop_bag_size)
below = start_below t request.0 thread usable

once : Reach heap ready first.0.1
once =
    next initially (malloc_small call 100 request.0 first.0.0 request.1 (omega arith) below first.1)

xxmalloc-Reach_example : Returns (xxmalloc call 100 ready) (λ s.
    (o : Object) × Granted heap t request.0
      (whole.placed t request.0 thread usable)
      heap
      memory
      o
      (s.0, s.1.heap, s.1.memory)
    × (100 < (heap.thread_bag t request.0).class_size))
xxmalloc-Reach_example =
    xxmalloc-Reach heap whole (λ t b. start_view) ready running ready initially call 100 request.0
      request.1 usable (omega arith) below

xxfree-IsRunning_example : Returns (xxfree (object heap t request.0 first.2.0) first.0.1) (λ r.
    (views' : ℕ → ℕ → View) × Released heap t request.0
      (whole.placed t request.0 thread usable)
      first.0.1.heap
      first.0.1.memory
      first.2.0
      (r.heap, r.memory)
    × IsRunning heap views' r)
xxfree-IsRunning_example =
    xxfree-IsRunning heap whole first.2.1 first.0.1 first.2.5 t request.0 thread usable first.2.0
      first.2.3.inside first.2.3.live (omega (arith, first.2.2))

xxfree-Reach_example : Returns (xxfree (object heap t request.0 first.2.0) first.0.1) (λ s.
    Released heap t request.0
      (whole.placed t request.0 thread usable)
      first.0.1.heap
      first.0.1.memory
      first.2.0
      (s.heap, s.memory))
xxfree-Reach_example =
    xxfree-Reach heap whole (λ t b. start_view) ready running first.0.1 once t request.0 thread
      usable first.2.0 first.2.3.inside first.2.3.live (omega (arith, first.2.2))

xxfree-Reach_idle_example : xxfree (object heap t request.0 first.2.0) ready ≡ fault double_free
xxfree-Reach_idle_example =
    xxfree-Reach_idle heap whole (λ t b. start_view) ready running ready initially t request.0
      thread usable first.2.0 first.2.3.inside (omega (arith, first.2.2)) first.2.3.idle

initialize-AllServed_example : AllServed heap (λ t b. start_view) heap memory
initialize-AllServed_example =
    initialize-AllServed 0 0x200000000000 0x100000000000 mapped refl (omega arith) (omega arith)

abbrev first_object : Object
first_object = (1, 0)

abbrev second_object : Object
second_object = (5, 0)

some_object : 0 < (heap.thread_bag 0 0).num_objects
some_object = omega (arith, (whole.placed 0 0 (omega arith) (omega arith)).laid_out.count)

wide : 3 < (heap.thread_bag 0 0).class_size
wide = rw (whole.classes 0 0 (omega arith) (omega arith)) (omega arith)

initialize-objects_apart_example :
    object heap 0 0 first_object + 3 ≢ object heap 0 0 second_object + 3
initialize-objects_apart_example =
    initialize-objects_apart 0 0x200000000000 0x100000000000 mapped refl (omega arith) (omega arith)
      0 0 0 0 (omega arith) (omega arith) (omega arith) (omega arith) first_object second_object 3 3
      (omega arith, some_object) (omega arith, some_object) wide wide
      (inr (λ e. omega (arith, ap (λ (o : Object). o.0) e)))

-- Where the object lies.
bounds : (0x200000000000 ≤ first.0.0) × (first.0.0 ≤ 0x300000000000)
bounds =
    let (nonnull, small) =
      in_heap heap whole (λ t b. start_view) ready running t request.0 thread usable first.2.0
        first.2.3.inside in
    let (low, high) = small_bounds heap (object heap t request.0 first.2.0) small in
    (
      omega (arith, low, heap_begin, first.2.3.address),
      omega (arith, high, heap_end, first.2.3.address),
    )

xxmemalign_lem_example : Returns (xxmemalign call 64 36 ready) (λ s.
    (s.0 ≡ first.0.0 + first.0.0 % 64)
    × (s.0 % 64 ≡ (2 * (first.0.0 % 64)) % 64)
    × (s.1 ≡ first.0.1))
xxmemalign_lem_example =
    xxmemalign_lem call 64 36 ready first.0 (omega arith) (omega arith) first.1
      (omega (arith, bounds.1))
