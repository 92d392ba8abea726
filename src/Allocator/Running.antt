-- ===== src/Allocator/Running.antt =====
-- libfreeguard.cpp: `malloc` and `free` of small objects on an initialized heap.
use free_guard.Base.{
  ℕ, ◌+◌, ◌*◌, ◌%◌, ◌^◌, ◌<◌, ◌≤◌, ◌≡◌, ◌≢◌, refl, sym, ap, ◌∙◌, arith, true, word, bit_and,
  Returns, fault, double_free, ne→==_false, le→leb, block-lt,
}
use free_guard.Links.{null}
use free_guard.Xdefines.{get_thread_index, alloc_sentinel}
use free_guard.Bibop.{BibopHeap}
use free_guard.Bibop.SizeClass.{with_canary, class_size_of, get_bag_num}
use free_guard.Bibop.SizeClass.Fit.{Fits}
use free_guard.Bibop.Layout.{object_addr, mapped_heaps}
use free_guard.Bibop.Address.{is_small_object}
use free_guard.Bibop.Object.{free_small_object}
use free_guard.Bibop.Object.Served.{Object, View, entry, object, IsInBag, Live}
use free_guard.Bibop.Object.Free.Outcome.{free_small_object-double_free}
use free_guard.Bibop.Object.Served.Apart.{bag_room}
use free_guard.Bibop.Object.Served.Change.{kept-Mapped}
use free_guard.Bibop.Object.Served.Grant.{Granted}
use free_guard.Bibop.Object.Served.Free.{Released}
use free_guard.Bibop.Whole.{IsWhole, AllServed}
use free_guard.Bibop.Whole.Calls.{allocate_in_bag-AllServed, free_small_object-AllServed}
use free_guard.Allocator.{Allocator, Call, e_heap_init_done, is_done, xxmalloc, xxfree}
use free_guard.Allocator.First.{allocate-small, get_thread_index-lt}
use free_guard.Allocator.Resize.{ensure_initialized-done}

-- The heap is initialized, and every bag serves the program.
pub record IsRunning (h₀ : BibopHeap) (views : ℕ → ℕ → View) (a : Allocator) : Type 0 where
  pub done : a.heap_init_status ≡ e_heap_init_done
  pub served : AllServed h₀ views a.heap a.memory

request_bag :
    (power size k : ℕ)
    → power ≡ 4
    → size + 1 ≤ 2 ^ 22
    → Fits (size + 1) k
    → get_bag_num power (class_size_of (with_canary size)) ≡ k
unfolding with_canary
request_bag power size k e le fits =
    let small : (size + 1) % word ≡ size + 1 = omega arith in rw (e, small) fits.bag

module _ (h₀ : BibopHeap) (w : IsWhole h₀) (views : ℕ → ℕ → View) (a : Allocator)
    (running : IsRunning h₀ views a) where
  -- On an initialized heap that serves a program, `malloc` of a size that fits with its canary
  -- into the largest class, where the caller's bag of the size's class has a bump pointer for
  -- the drawn bag set item in one of the first 1022 heaps: it returns an object of that bag, in
  -- this heap or an earlier one, which was not in use and now is, every byte of which can be
  -- accessed, and which has room for the size in front of its canary, no other object of the
  -- bag comes into use or goes out of it, no shadow entry outside of the bag and no byte but
  -- the object's canary has changed, what is newly protected is the guard behind the bag or
  -- belongs to objects of the bag, and the heap goes on to serve the program.
  pub xxmalloc-IsRunning :
      (call : Call) (size k : ℕ) (fits : Fits (size + 1) k) (usable : k < 19)
      → size + 1 ≤ 2 ^ 22
      → ((views (get_thread_index a.global_stack_addr call.stack_var) k).bump
          (bit_and call.draws.bag_set 3)).0
        < mapped_heaps
      → Returns (xxmalloc call size a) (λ r.
        let t = get_thread_index a.global_stack_addr call.stack_var in
        let z = w.placed t k (get_thread_index-lt a.global_stack_addr call.stack_var) usable in
        (o : Object) × (views' : ℕ → ℕ → View) × (o.0
          ≤ ((views t k).bump (bit_and call.draws.bag_set 3)).0)
        × Granted h₀ t k z a.heap a.memory o (r.0, r.1.heap, r.1.memory)
        × (size < (h₀.thread_bag t k).class_size)
        × IsRunning h₀ views' r.1)
  unfolding xxmalloc
  xxmalloc-IsRunning call size k fits usable le room =
      let t = get_thread_index a.global_stack_addr call.stack_var in
      let thread = get_thread_index-lt a.global_stack_addr call.stack_var in
      let power : a.heap.first_bag_power ≡ 4 =
        ap (λ (h : BibopHeap). h.first_bag_power) running.served.header.1 ∙ w.power in
      let (s, run, (o, views', near, got, all)) =
        allocate_in_bag-AllServed h₀ w views a.heap a.memory running.served t k thread usable
          call.draws room in
      (
        (s.0, record a { heap = s.1; memory = s.2 }),
        rw (ensure_initialized-done call.sys a running.done) (
            allocate-small call size a a.heap a.memory t k s le refl refl refl
              (request_bag a.heap.first_bag_power size k power le fits) run),
        (
          o,
          views',
          near,
          got,
          omega (arith, fits.holds, fits.size, w.classes t k thread usable),
          record { done = running.done; served = all },
        ),
      )

  -- The objects of a bag lie in the heap.
  pub in_heap :
      (t k : ℕ) (thread : t < 128) (usable : k < 19) (o : Object)
      → IsInBag h₀ t k o
      → (object h₀ t k o ≢ null) × (is_small_object a.heap (object h₀ t k o) ≡ true)
  unfolding object_addr is_small_object
  in_heap t k thread usable o ino =
      let z = w.placed t k thread usable in
      let l = z.laid_out in
      let bag = h₀.thread_bag t k in
      let size = h₀.bibop_bag_size in
      let column : o.1 * bag.class_size + 0 < bag.num_objects * bag.class_size =
        block-lt o.1 bag.num_objects bag.class_size 0 ino.1 l.class_pos in
      let row : bag.start_offset + o.1 * bag.class_size < 4096 * size =
        omega (arith, column, l.room, l.start, bag_room t k size thread (omega arith)) in
      let whole =
        block-lt o.0 1024 (4096 * size) (bag.start_offset + o.1 * bag.class_size) ino.0 row in
      let begin : a.heap.heap_begin ≡ h₀.heap_begin =
        ap (λ (h : BibopHeap). h.heap_begin) running.served.header.1 in
      let end : a.heap.heap_end ≡ h₀.heap_end =
        ap (λ (h : BibopHeap). h.heap_end) running.served.header.1 in
      (
        λ e. absurd (omega (arith, e, w.nonnull)),
        rw
            (
              le→leb a.heap.heap_begin (object h₀ t k o) (omega (arith, begin)),
              le→leb (object h₀ t k o) a.heap.heap_end
                  (omega (arith, end, z.sized.heap_end, whole)),
            )
            refl,
      )

  -- On an initialized heap that serves a program, `free` of a small object in use, with eight
  -- more of the first 1022 heaps behind its own, returns; the object is no longer in use, no
  -- other object of its bag comes into use or goes out of it, no shadow entry outside of the
  -- bag and no byte has changed, nothing is newly protected, and the heap goes on to serve the
  -- program.
  pub xxfree-IsRunning :
      (t k : ℕ) (thread : t < 128) (usable : k < 19) (o : Object) (ino : IsInBag h₀ t k o)
      → Live h₀ t k a.memory o
      → o.0 + 8 < mapped_heaps
      → Returns (xxfree (object h₀ t k o) a) (λ r.
        (views' : ℕ → ℕ → View) × Released h₀ t k
          (w.placed t k thread usable)
          a.heap
          a.memory
          o
          (r.heap, r.memory)
        × IsRunning h₀ views' r)
  unfolding xxfree
  xxfree-IsRunning t k thread usable o ino live far =
      let (nonnull, small) = in_heap t k thread usable o ino in
      let yes : is_done a.heap_init_status ≡ true = ap is_done running.done in
      let (s, run, (views', gone, all)) =
        free_small_object-AllServed h₀ w views a.heap a.memory running.served t k thread usable o
          ino live far in
      (
        record a { heap = s.0; memory = s.1 },
        rw (ne→==_false (object h₀ t k o) null nonnull, yes, small, run) refl,
        (views', gone, record { done = running.done; served = all }),
      )

  -- On such a heap `free` of a small object of the first 1022 heaps that is not in use ends in the report of a double free.
  pub xxfree-IsRunning_idle :
      (t k : ℕ) (thread : t < 128) (usable : k < 19) (o : Object) (ino : IsInBag h₀ t k o)
      → o.0 < mapped_heaps
      → a.memory.links (entry h₀ t k o) ≢ alloc_sentinel
      → xxfree (object h₀ t k o) a ≡ fault double_free
  unfolding xxfree
  xxfree-IsRunning_idle t k thread usable o ino near idle =
      let (nonnull, small) = in_heap t k thread usable o ino in
      let yes : is_done a.heap_init_status ≡ true = ap is_done running.done in
      let s = running.served.bags t k thread usable in
      let run : free_small_object a.heap (object h₀ t k o) a.memory ≡ fault double_free =
        ap (λ p. free_small_object a.heap p a.memory) (sym (s.layout.address o.0 o.1))
        ∙ free_small_object-double_free a.heap s.layout.sized t k s.layout.laid_out o.0 o.1 ino.0
            (omega (arith, ino.1, s.layout.count)) a.memory
            (kept-Mapped h₀ t k (w.placed t k thread usable) a.heap s.layout o.0 o.1 near
              (omega (arith, ino.1, s.layout.count)))
            (rw (s.layout.entry o.0 o.1) idle) in
      rw (ne→==_false (object h₀ t k o) null nonnull, yes, small, run) refl
