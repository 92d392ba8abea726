-- ===== src/Allocator/Course.antt =====
-- libfreeguard.cpp: the course of a program that allocates, frees and writes objects.
use free_guard.Base.{
  ℕ, ◌+◌, ◌*◌, ◌^◌, ◌<◌, ◌≤◌, ◌≡◌, ◌≢◌, sym, ◌∙◌, subst, arith, true, false, bit_and, Returns,
  Returns-at, ok, fault, double_free,
}
use free_guard.Links.{Ptr}
use free_guard.Xdefines.{get_thread_index, alloc_sentinel, if_canary_condition}
use free_guard.Bibop.{BibopHeap}
use free_guard.Bibop.Layout.{mapped_heaps}
use free_guard.Bibop.SizeClass.Fit.{Fits}
use free_guard.Bibop.Address.{is_small_object}
use free_guard.Bibop.Object.Served.{Object, View, entry, object, IsInBag, Live}
use free_guard.Bibop.Object.Served.Store.{write, room}
use free_guard.Bibop.Object.Served.Grant.{Granted}
use free_guard.Bibop.Object.Served.Free.{Released}
use free_guard.Bibop.Whole.{IsWhole, AllServed}
use free_guard.Bibop.Whole.Calls.{store-AllServed}
use free_guard.Allocator.{Allocator, Call, xxmalloc, xxfree}
use free_guard.Allocator.First.{get_thread_index-lt}
use free_guard.Allocator.Large.{SameSmall, xxmalloc-large, xxfree-other}
use free_guard.Allocator.Running.{
  IsRunning, xxmalloc-IsRunning, xxfree-IsRunning, xxfree-IsRunning_idle,
}

-- The steps of a program on the heap `h₀`. It allocates: a small object, while the bump pointer of
-- the caller's bag and the drawn bag set item stands in one of the first 1022 heaps, or a large one. It frees: a small
-- object in use with eight more of those heaps behind its own, or an address outside of the small heap. Or it writes a byte of a small object in
-- use before the last one, where the canary is.
pub data Step (h₀ : BibopHeap) : Allocator → Allocator → Type 0 where
  malloc_small :
      {a r : Allocator} (call : Call) (size k : ℕ) (ptr : Ptr)
      → Fits (size + 1) k
      → size + 1 ≤ 2 ^ 22
      → (a.heap.thread_bag (get_thread_index a.global_stack_addr call.stack_var) k).position
          (bit_and call.draws.bag_set 3)
        < a.heap.heap_begin + mapped_heaps * (4096 * a.heap.bibop_bag_size)
      → xxmalloc call size a ≡ ok (ptr, r)
      → Step h₀ a r
  malloc_large :
      {a r : Allocator} (call : Call) (size : ℕ) (ptr : Ptr)
      → if_canary_condition size ≡ true
      → xxmalloc call size a ≡ ok (ptr, r)
      → Step h₀ a r
  free_small :
      {a r : Allocator} (t k : ℕ) (o : Object)
      → t < 128
      → k < 19
      → IsInBag h₀ t k o
      → Live h₀ t k a.memory o
      → o.0 + 8 < mapped_heaps
      → xxfree (object h₀ t k o) a ≡ ok r
      → Step h₀ a r
  free_other :
      {a r : Allocator} (ptr : Ptr)
      → is_small_object a.heap ptr ≡ false
      → xxfree ptr a ≡ ok r
      → Step h₀ a r
  store :
      {a : Allocator} (t k : ℕ) (o : Object) (i value : ℕ)
      → t < 128
      → k < 19
      → IsInBag h₀ t k o
      → Live h₀ t k a.memory o
      → i + 1 < (h₀.thread_bag t k).class_size
      → Step h₀ a (record a { memory = write (object h₀ t k o + i) value a.memory })

pub data Reach (h₀ : BibopHeap) (start : Allocator) : Allocator → Type 0 where
  initially : Reach h₀ start start
  next : {a r : Allocator} → Reach h₀ start a → Step h₀ a r → Reach h₀ start r

module _ (h₀ : BibopHeap) (w : IsWhole h₀) where
  kept :
      (views : ℕ → ℕ → View) (a r : Allocator)
      → SameSmall a r
      → IsRunning h₀ views a
      → IsRunning h₀ views r
  kept views a r (heap, memory, status) running = record {
    done = status ∙ running.done;
    served =
        subst (λ h. AllServed h₀ views h r.memory) (sym heap)
          (subst (AllServed h₀ views a.heap) (sym memory) running.served);
  }

  step-IsRunning :
      (a r : Allocator)
      → Step h₀ a r
      → ((views : ℕ → ℕ → View) × IsRunning h₀ views a)
      → ((views : ℕ → ℕ → View) × IsRunning h₀ views r)
  step-IsRunning a r (malloc_small call size k ptr fits le below run) (views, running) =
      let thread = get_thread_index-lt a.global_stack_addr call.stack_var in
      let t = get_thread_index a.global_stack_addr call.stack_var in
      let usable : k < 19 = omega (arith, fits.usable) in
      let (o, views', near, got, fit, after) =
        Returns-at _ _ _
          (xxmalloc-IsRunning h₀ w views a running call size k fits usable le (
            room h₀ t k (w.placed t k thread usable) (views t k) a.heap a.memory _
              (running.served.bags t k thread usable) below))
          run in
      (views', after)
  step-IsRunning a r (malloc_large call size ptr large run) (views, running) =
      (views, kept views a r (xxmalloc-large call size ptr a r running.done large run) running)
  step-IsRunning a r (free_small t k o thread usable ino live far run) (views, running) =
      let (views', gone, after) =
        Returns-at _ _ _ (xxfree-IsRunning h₀ w views a running t k thread usable o ino live far)
          run in
      (views', after)
  step-IsRunning a r (free_other ptr small run) (views, running) =
      (views, kept views a r (xxfree-other a r ptr running.done small run) running)
  step-IsRunning a r (store t k o i value thread usable ino live small) (views, running) = (
    views,
    record {
      done = running.done;
      served =
          store-AllServed h₀ w views a.heap a.memory running.served t k thread usable o ino i value
            small;
    },
  )

  pub reach-IsRunning :
      (a r : Allocator)
      → Reach h₀ a r
      → ((views : ℕ → ℕ → View) × IsRunning h₀ views a)
      → ((views : ℕ → ℕ → View) × IsRunning h₀ views r)
  reach-IsRunning a r initially running = running
  reach-IsRunning a r (next {a = m} reach step) running =
      step-IsRunning m r step (reach-IsRunning a m reach running)

  module _ (views : ℕ → ℕ → View) (a : Allocator) (running : IsRunning h₀ views a) (r : Allocator)
      (reach : Reach h₀ a r) where
    -- Start from an initialized heap that serves a program, and let the program take any steps
    -- of these kinds: allocate a small object while the bump pointer of the caller's bag and
    -- the drawn bag set item stands in one of the first 1022 heaps, allocate a large one, free
    -- a small object in use with eight more of those heaps behind its own, free an address
    -- outside of the small heap, and write to a small object in use in front of its canary.
    -- After that `malloc` of a size that fits with its canary into the largest class, while
    -- that bump pointer stands in one of the first 1022 heaps, returns an object of the
    -- caller's bag that is not in use and has room for the size in front of its canary. The
    -- object then is in use and every byte of it can be accessed, no other object of the bag
    -- comes into use or goes out of it, no shadow entry outside of the bag changes, of the
    -- bytes only the object's canary does, and what is newly protected is the guard behind the
    -- bag or belongs to objects of the bag.
    pub xxmalloc-Reach :
        (call : Call) (size k : ℕ) (fits : Fits (size + 1) k) (usable : k < 19)
        → size + 1 ≤ 2 ^ 22
        → (r.heap.thread_bag (get_thread_index r.global_stack_addr call.stack_var) k).position
            (bit_and call.draws.bag_set 3)
          < r.heap.heap_begin + mapped_heaps * (4096 * r.heap.bibop_bag_size)
        → Returns (xxmalloc call size r) (λ s.
          let t = get_thread_index r.global_stack_addr call.stack_var in
          let z = w.placed t k (get_thread_index-lt r.global_stack_addr call.stack_var) usable in
          (o : Object) × Granted h₀ t k z r.heap r.memory o (s.0, s.1.heap, s.1.memory)
          × (size < (h₀.thread_bag t k).class_size))
    xxmalloc-Reach call size k fits usable le below =
        let (views', now) = reach-IsRunning a r reach (views, running) in
        let thread = get_thread_index-lt r.global_stack_addr call.stack_var in
        let t = get_thread_index r.global_stack_addr call.stack_var in
        let (s, run, (o, views'', near, got, fit, after)) =
          xxmalloc-IsRunning h₀ w views' r now call size k fits usable le (
            room h₀ t k (w.placed t k thread usable) (views' t k) r.heap r.memory _
              (now.served.bags t k thread usable) below) in
        (s, run, (o, got, fit))

    -- Start from an initialized heap that serves a program, and let the program take any steps
    -- of these kinds: allocate a small object while the bump pointer of the caller's bag and
    -- the drawn bag set item stands in one of the first 1022 heaps, allocate a large one, free
    -- a small object in use with eight more of those heaps behind its own, free an address
    -- outside of the small heap, and write to a small object in use in front of its canary.
    -- After that `free` of a small object in use, with eight more of the first 1022 heaps
    -- behind its own, returns without a report. The object then is not in use, no other object
    -- of the bag comes into use or goes out of it, no shadow entry outside of the bag changes,
    -- no byte does, and nothing is newly protected.
    pub xxfree-Reach :
        (t k : ℕ) (thread : t < 128) (usable : k < 19) (o : Object) (ino : IsInBag h₀ t k o)
        → Live h₀ t k r.memory o
        → o.0 + 8 < mapped_heaps
        → Returns
            (xxfree (object h₀ t k o) r)
            (λ s. Released h₀ t k (w.placed t k thread usable) r.heap r.memory o (s.heap, s.memory))
    xxfree-Reach t k thread usable o ino live far =
        let (views', now) = reach-IsRunning a r reach (views, running) in
        let (s, run, (views'', gone, after)) =
          xxfree-IsRunning h₀ w views' r now t k thread usable o ino live far in
        (s, run, gone)

    -- Start from an initialized heap that serves a program, and let the program take any steps
    -- of these kinds: allocate a small object while the bump pointer of the caller's bag and
    -- the drawn bag set item stands in one of the first 1022 heaps, allocate a large one, free
    -- a small object in use with eight more of those heaps behind its own, free an address
    -- outside of the small heap, and write to a small object in use in front of its canary.
    -- After that `free` of a small object of the first 1022 heaps that is not in use ends in
    -- the report of a double free.
    pub xxfree-Reach_idle :
        (t k : ℕ) (thread : t < 128) (usable : k < 19) (o : Object) (ino : IsInBag h₀ t k o)
        → o.0 < mapped_heaps
        → r.memory.links (entry h₀ t k o) ≢ alloc_sentinel
        → xxfree (object h₀ t k o) r ≡ fault double_free
    xxfree-Reach_idle t k thread usable o ino near idle =
        let (views', now) = reach-IsRunning a r reach (views, running) in
        xxfree-IsRunning_idle h₀ w views' r now t k thread usable o ino near idle
