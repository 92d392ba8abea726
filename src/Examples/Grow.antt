-- ===== src/Examples/Grow.antt =====
-- A program that allocates 100 bytes and then grows the object to 500.
use free_guard.Base.{ℕ, ◌+◌, ◌*◌, ◌^◌, ◌<◌, ◌≤◌, ◌≡◌, ◌≢◌, ap, sym, subst, ◌∙◌, arith, Returns, inr}
use free_guard.Xdefines.{get_thread_index, alloc_sentinel, log2, bit_length}
use free_guard.Bibop.{BibopHeap, PerThreadBag}
use free_guard.Bibop.SizeClass.{get_bag_num, class_size_of}
use free_guard.Bibop.SizeClass.Fit.{Fits, class_size-Fits}
use free_guard.Bibop.Object.Served.{Object, View, object, entry, IsInBag, Live}
use free_guard.Bibop.Object.Served.Store.{room}
use free_guard.Bibop.Whole.Calls.{elsewhere}
use free_guard.Allocator.{Allocator, xxrealloc}
use free_guard.Allocator.First.{get_thread_index-lt}
use free_guard.Allocator.Running.{IsRunning}
use free_guard.Allocator.Grow.{xxrealloc-grow}
use free_guard.Examples.Heaps.{heap}
use free_guard.Examples.Entry.{call}
use free_guard.Examples.Programs.{whole, request, usable, t, thread, first, start_below}

abbrev grown : (k : ℕ) × Fits 501 k
grown = class_size-Fits 501 (omega arith)

grown_usable : grown.0 < 19
grown_usable = omega (arith, grown.1.usable)

abbrev state : Allocator
state = first.0.1

-- The thread that calls `realloc`.
abbrev caller : ℕ
caller = get_thread_index state.global_stack_addr call.stack_var

abbrev caller_thread : caller < 128
caller_thread = get_thread_index-lt state.global_stack_addr call.stack_var

bag_small : 3 ≡ request.0
unfolding get_bag_num class_size_of log2 bit_length
bag_small = request.1.bag

bag_large : 5 ≡ grown.0
unfolding get_bag_num class_size_of log2 bit_length
bag_large = grown.1.bag

-- The allocation has not touched the bag that the object grows into.
other_bag : state.heap.thread_bag caller grown.0 ≡ heap.thread_bag caller grown.0
other_bag =
    ap (λ (h : BibopHeap). h.thread_bag caller grown.0) first.2.3.table.1
    ∙ elsewhere heap.thread_bag t request.0 caller grown.0 _
        (inr (λ e. omega (arith, e, bag_small, bag_large)))

space : ((first.2.1 caller grown.0).bump 1).0 < 1022
space =
    room heap caller grown.0 (whole.placed caller grown.0 caller_thread grown_usable)
      (first.2.1 caller grown.0) state.heap state.memory 1
      (first.2.5.served.bags caller grown.0 caller_thread grown_usable)
      (omega (
        arith,
        ap (λ (b : PerThreadBag). b.position 1) other_bag,
        ap (λ (h : BibopHeap). h.heap_begin) first.2.3.table.1,
        ap (λ (h : BibopHeap). h.bibop_bag_size) first.2.3.table.1,
        start_below caller grown.0 caller_thread grown_usable,
      ))

small_class : (heap.thread_bag t request.0).class_size ≤ 500
small_class =
    subst (λ c. c ≤ 500)
      (ap (λ k. 16 * 2 ^ k) bag_small ∙ sym (whole.classes t request.0 thread usable)) (omega arith)

xxrealloc-grow_example :
    Returns (xxrealloc call (object heap t request.0 first.2.0) 500 state) (λ r.
      (p : Object) × (views' : ℕ → ℕ → View) × (r.0 ≡ object heap caller grown.0 p)
      × IsInBag heap caller grown.0 p
      × (500 < (heap.thread_bag caller grown.0).class_size)
      × (state.memory.links (entry heap caller grown.0 p) ≢ alloc_sentinel)
      × Live heap caller grown.0 r.1.memory p
      × (r.1.memory.links (entry heap t request.0 first.2.0) ≢ alloc_sentinel)
      × ((i : ℕ)
          → i + 1 < (heap.thread_bag t request.0).class_size
          → r.1.memory.bytes (r.0 + i) ≡ state.memory.bytes (object heap t request.0 first.2.0 + i))
      × IsRunning heap views' r.1)
xxrealloc-grow_example =
    xxrealloc-grow heap whole first.2.1 state first.2.5 call 500 grown.0 grown.1 grown_usable
      (omega arith) space t request.0 thread usable first.2.0 first.2.3.inside first.2.3.live
      (omega (arith, first.2.2)) small_class
