-- ===== src/Allocator/Grow.antt =====
-- libfreeguard.cpp: `realloc` of a small object to a larger size.
use free_guard.Base.{
  ℕ, ◌+◌, ◌-◌, ◌^◌, ◌<◌, ◌≤◌, ◌≡◌, ◌≢◌, refl, sym, ap, ◌∙◌, subst, arith, bit_and, Returns,
  ne→==_false, lt→leb_false,
}
use free_guard.Links.{Ptr, null}
use free_guard.Xdefines.{get_thread_index, alloc_sentinel}
use free_guard.Bibop.{BibopHeap}
use free_guard.Bibop.Layout.{mapped_heaps}
use free_guard.Bibop.SizeClass.Fit.{Fits}
use free_guard.Bibop.Object.Served.{Object, View, entry, object, IsInBag, Live}
use free_guard.Bibop.Object.Served.Change.{canary_of}
use free_guard.Bibop.Whole.{IsWhole}
use free_guard.Allocator.{Allocator, Call, copied, with_bytes, xxrealloc}
use free_guard.Allocator.First.{get_thread_index-lt}
use free_guard.Allocator.Resize.{ensure_initialized-done}
use free_guard.Allocator.Running.{IsRunning, xxmalloc-IsRunning, xxfree-IsRunning, in_heap}
use free_guard.Allocator.Moved.{
  copied-inside, with_bytes-IsRunning, old_size_of-small, entries_differ, copied-canaries, byte-ne,
  Live-Released,
}

module _ (h₀ : BibopHeap) (w : IsWhole h₀) where
  module _ (views : ℕ → ℕ → View) (a : Allocator) (running : IsRunning h₀ views a) where
    -- On an initialized heap that serves a program, `realloc` of a small object in use, with
    -- eight more of the first 1022 heaps behind its own, to a size not below its class, which
    -- fits with its canary into the largest class and for which the caller's bag has a bump
    -- pointer in one of the first 1022 heaps: it returns an object of that bag, which was not
    -- in use and now is and has room for the size in front of its canary. All bytes of the old
    -- object in front of its canary are found in the new one, the old object is no longer in
    -- use, and the heap goes on to serve the program.
    pub xxrealloc-grow :
        (call : Call) (size k' : ℕ) (fits : Fits (size + 1) k') (usable' : k' < 19)
        → size + 1 ≤ 2 ^ 22
        → ((views (get_thread_index a.global_stack_addr call.stack_var) k').bump
            (bit_and call.draws.bag_set 3)).0
          < mapped_heaps
        → (t k : ℕ) (thread : t < 128) (usable : k < 19) (o : Object) (ino : IsInBag h₀ t k o)
        → Live h₀ t k a.memory o
        → o.0 + 8 < mapped_heaps
        → (h₀.thread_bag t k).class_size ≤ size
        → Returns (xxrealloc call (object h₀ t k o) size a) (λ r.
          let t' = get_thread_index a.global_stack_addr call.stack_var in
          (p : Object) × (views' : ℕ → ℕ → View) × (r.0 ≡ object h₀ t' k' p)
          × IsInBag h₀ t' k' p
          × (size < (h₀.thread_bag t' k').class_size)
          × (a.memory.links (entry h₀ t' k' p) ≢ alloc_sentinel)
          × Live h₀ t' k' r.1.memory p
          × (r.1.memory.links (entry h₀ t k o) ≢ alloc_sentinel)
          × ((i : ℕ)
              → i + 1 < (h₀.thread_bag t k).class_size
              → r.1.memory.bytes (r.0 + i) ≡ a.memory.bytes (object h₀ t k o + i))
          × IsRunning h₀ views' r.1)
    unfolding xxrealloc
    xxrealloc-grow call size k' fits usable' le room t k thread usable o ino live far grow =
        let t' = get_thread_index a.global_stack_addr call.stack_var in
        let thread' = get_thread_index-lt a.global_stack_addr call.stack_var in
        let old = (h₀.thread_bag t k).class_size - 1 in
        let ptr = object h₀ t k o in
        let (nonnull, small) = in_heap h₀ w views a running t k thread usable o ino in
        let pos = (w.placed t k thread usable).laid_out.class_pos in
        let (s, run, (p, views', near, got, fit, after)) =
          xxmalloc-IsRunning h₀ w views a running call size k' fits usable' le room in
        let bytes = copied s.0 ptr old s.1.memory.bytes in
        let moved = with_bytes bytes s.1 in
        let kept : IsRunning h₀ views' moved =
          with_bytes-IsRunning h₀ w views' s.1 bytes after (λ t₂ k₂ thread₂ usable₂ q inq.
            subst
              (λ dest.
                let c = canary_of h₀ t₂ k₂ (w.placed t₂ k₂ thread₂ usable₂) q in
                copied dest ptr old s.1.memory.bytes c ≡ s.1.memory.bytes c)
              (sym got.address)
              (copied-canaries h₀ w t' k' thread' usable' p ptr old s.1.memory.bytes got.inside
                (omega (arith, grow, fit)) t₂ k₂ thread₂ usable₂ q inq)) in
        let still : Live h₀ t k moved.memory o =
          got.frame _ (entries_differ h₀ w a.memory _ _ live got.idle) ∙ live in
        let (end, free, (views'', gone, final)) =
          xxfree-IsRunning h₀ w views' moved kept t k thread usable o ino still far in
        (
          (s.0, end),
          rw
              (
                ensure_initialized-done call.sys a running.done,
                ne→==_false ptr null nonnull,
                ne→==_false size 0 (omega (arith, pos, grow)),
                old_size_of-small h₀ w views a running t k thread usable o ino
                    (omega (arith, grow, le)),
                ne→==_false old (2 ^ 64 - 1) (omega (arith, grow, le)),
                lt→leb_false size old (omega (arith, grow, pos)),
                run,
                free,
              )
              refl,
          (
            p,
            views'',
            got.address,
            got.inside,
            fit,
            got.idle,
            Live-Released h₀ w t k t' k' thread usable thread' usable' moved.heap moved.memory o p _
                gone got.inside (entries_differ h₀ w a.memory _ _ live got.idle) got.live,
            gone.idle,
            λ i lt.
                ap (λ (f : Ptr → ℕ). f (s.0 + i)) gone.bytes
                ∙ copied-inside s.0 ptr old s.1.memory.bytes i (omega (arith, lt))
                ∙ got.bytes (ptr + i) (
                    byte-ne h₀ w a.memory t k t' k' thread usable thread' usable' o p i ino
                      got.inside (omega (arith, lt)) live got.idle),
            final,
          ),
        )
