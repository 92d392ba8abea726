-- ===== src/Bibop/Layout/Keep.antt =====
-- bibopheap.hh: the layout after an operation on one bag.
use free_guard.Base.{ℕ, ◌≡◌}
use free_guard.Bibop.{BibopHeap, PerThreadBag}
use free_guard.Bibop.Layout.{IsSized, IsLaidOut, object_addr, shadow_addr}

pub IsSized-heap :
    (h : BibopHeap) (f : ℕ → ℕ → PerThreadBag) → IsSized h → IsSized (record h { thread_bag = f })
IsSized-heap h f z = record {
  bag_pos = z.bag_pos;
  bag_bits = z.bag_bits;
  bag_mask = z.bag_mask;
  heap_bits = z.heap_bits;
  heap_mask = z.heap_mask;
  thread_bits = z.thread_bits;
  per_heap_bits = z.per_heap_bits;
  sub_heap_mask = z.sub_heap_mask;
  info_size = z.info_size;
  info_bits = z.info_bits;
  ceil_bits = z.ceil_bits;
  ceil_pos = z.ceil_pos;
  shadow_mask = z.shadow_mask;
  heap_end = z.heap_end;
  heap_fits = z.heap_fits;
  shadow_fits = z.shadow_fits;
}

pub IsLaidOut-heap :
    (h : BibopHeap) (t b : ℕ) (bag : PerThreadBag) (f : ℕ → ℕ → PerThreadBag)
    → IsLaidOut h t b bag
    → IsLaidOut (record h { thread_bag = f }) t b bag
IsLaidOut-heap h t b bag f l = record {
  thread = l.thread;
  usable = l.usable;
  class_pos = l.class_pos;
  class_bits = l.class_bits;
  class_mask = l.class_mask;
  start = l.start;
  count = l.count;
  room = l.room;
  shadow_room = l.shadow_room;
  next_heap = l.next_heap;
  next_shadow = l.next_shadow;
}

-- After an operation on bag `b` of thread `t` the heap is still laid out, and the objects of the
-- bag, their entries and the guard behind them are where they were.
pub record KeepsLayout (h : BibopHeap) (t b : ℕ) (r : BibopHeap) : Type 0 where
  pub sized : IsSized r
  pub laid_out : IsLaidOut r t b (r.thread_bag t b)
  pub address :
      (n i : ℕ) → object_addr r (r.thread_bag t b) n i ≡ object_addr h (h.thread_bag t b) n i
  pub entry :
      (n i : ℕ) → shadow_addr r (r.thread_bag t b) n i ≡ shadow_addr h (h.thread_bag t b) n i
  pub shadow_begin : r.shadow_mem_begin ≡ h.shadow_mem_begin
  pub shadow_end : r.shadow_mem_end ≡ h.shadow_mem_end
  pub count : (r.thread_bag t b).num_objects ≡ (h.thread_bag t b).num_objects
  pub guardsize : (r.thread_bag t b).guardsize ≡ (h.thread_bag t b).guardsize
