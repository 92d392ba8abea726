-- ===== src/Bibop/Object/Free/Outcome.antt =====
-- bibopheap.hh: the outcome of `freeSmallObject` on an object of a bag.
use free_guard.Base.{
  ◌≤◌, ◌-◌, ℕ, ◌+◌, ◌%◌, ◌<◌, ◌≡◌, ◌≢◌, refl, arith, true, false, update, List, [], ◌∷◌, ◌++◌,
  contains, ==_refl, ne→==_false, Returns, ok, fault, double_free,
}
use free_guard.Links.{Ptr, null}
use free_guard.Links.Seg.{Seg-last}
use free_guard.Dlist.Queue.{IsQueue, insert_dll_tail-IsQueue, SameOutside}
use free_guard.Xdefines.{bibop_num_heaps, alloc_sentinel}
use free_guard.Bibop.{BibopHeap, PerThreadBag, Memory, update_bag, touch_entry-ok, touch_byte-ok}
use free_guard.Bibop.Layout.{IsSized, IsLaidOut, object_addr, shadow_addr, mapped_heaps}
use free_guard.Bibop.Address.{Found, find_object}
use free_guard.Bibop.Address.RoundTrip.{find_object_lem}
use free_guard.Bibop.Layout.Keep.{KeepsLayout}
use free_guard.Bibop.Bump.Frame.{SameBag-freelist, IsLaidOut-SameBag, update_bag-KeepsLayout}
use free_guard.Bibop.Neighbor.{Direction, left, right}
use free_guard.Bibop.Object.{is_object_free, touch_tail, free_small_object}
use free_guard.Bibop.Object.Free.{Intact, Mapped, Shown, entry-above, check_neighbors-ok}

module _ (h : BibopHeap) (z : IsSized h) (t b : ℕ) (l : IsLaidOut h t b (h.thread_bag t b))
    (n i : ℕ) (heap : n < bibop_num_heaps) (object : i < (h.thread_bag t b).num_objects)
    (mem : Memory) where
  -- What the object's address leads to.
  found : Found
  found = record {
    shadowinfo = shadow_addr h (h.thread_bag t b) n i;
    thread = t;
    bag = b;
    bag_set_item = n % 4;
  }

  found_at : find_object h (object_addr h (h.thread_bag t b) n i) ≡ ok found
  unfolding found
  found_at = find_object_lem h z t b (h.thread_bag t b) l n i heap object refl

  -- Freeing an object that is not in use ends the process with the report of a double free.
  pub free_small_object-double_free :
      shadow_addr h (h.thread_bag t b) n i + 8 ≤ h.shadow_mem_end
      → mem.links (shadow_addr h (h.thread_bag t b) n i) ≢ alloc_sentinel
      → free_small_object h (object_addr h (h.thread_bag t b) n i) mem ≡ fault double_free
  unfolding free_small_object is_object_free found
  free_small_object-double_free mapped unused =
      let entry =
        touch_entry-ok h (shadow_addr h (h.thread_bag t b) n i)
          (entry-above h (h.thread_bag t b) n i) mapped in
      rw (found_at, entry, ne→==_false _ _ unused)

  -- The outcome of a free: the entry is the newest of the free list of its bag set item, it is free,
  -- and no entry outside of that list has changed.
  pub record Freed (xs : List Ptr) (r : BibopHeap × Memory) : Type 0 where
    pub queue :
        IsQueue r.1.links
          ((r.0.thread_bag t b).freelist (n % 4))
          (xs ++ shadow_addr h (h.thread_bag t b) n i ∷ [])
    pub free : is_object_free (shadow_addr h (h.thread_bag t b) n i) r.1 ≡ true
    pub frame : SameOutside (shadow_addr h (h.thread_bag t b) n i ∷ xs) mem.links r.1.links
    pub bytes : r.1.bytes ≡ mem.bytes
    pub guards : r.1.guards ≡ mem.guards
    pub layout : KeepsLayout h t b r.0
    pub lists :
        (j : ℕ) → j ≢ n % 4 → (r.0.thread_bag t b).freelist j ≡ (h.thread_bag t b).freelist j
    pub table :
        (bag : PerThreadBag) × (r.0 ≡ record h { thread_bag = update_bag h.thread_bag t b bag })
    pub position : (r.0.thread_bag t b).position ≡ (h.thread_bag t b).position
    pub limit : (r.0.thread_bag t b).last_of_cur_bag ≡ (h.thread_bag t b).last_of_cur_bag
    pub class_size : (r.0.thread_bag t b).class_size ≡ (h.thread_bag t b).class_size

  -- `freeSmallObject` of an object in use, in a bag whose canaries are all intact, whose entry
  -- is not in the free list of its bag set item and which has eight more heaps after its own:
  -- the call returns, the entry is the newest of that free list and free, no entry outside of
  -- the list and no byte of the heap has changed, and the heap is still laid out.
  pub free_small_object-Freed :
      (xs : List Ptr)
      → IsQueue mem.links ((h.thread_bag t b).freelist (n % 4)) xs
      → shadow_addr h (h.thread_bag t b) n i ≢ null
      → contains (shadow_addr h (h.thread_bag t b) n i) xs ≡ false
      → n + 8 < mapped_heaps
      → Mapped h (h.thread_bag t b)
      → Shown h (h.thread_bag t b) mem
      → touch_tail h ((h.thread_bag t b).freelist (n % 4)) ≡ ok tt
      → Intact h (h.thread_bag t b) mem
      → mem.links (shadow_addr h (h.thread_bag t b) n i) ≡ alloc_sentinel
      → Returns (free_small_object h (object_addr h (h.thread_bag t b) n i) mem) (Freed xs)
  unfolding free_small_object is_object_free found
  free_small_object-Freed xs q ne out far mapped shown tail intact used =
      let bag = h.thread_bag t b in
      let x = shadow_addr h bag n i in
      let (r, run, (queue, same)) =
        insert_dll_tail-IsQueue mem.links (bag.freelist (n % 4)) xs x q ne out in
      let here = Seg-last r.1 r.0.next null x xs queue.chain in
      let both = λ (d : Direction).
        check_neighbors-ok h z t b bag l mem mapped shown d 2 n i intact (omega arith) object in
      (
        (
          record h {
            thread_bag =
                update_bag h.thread_bag t b
                  (record bag { freelist = update bag.freelist (n % 4) r.0 });
          },
          record mem { links = r.1 },
        ),
        rw
            (
              found_at,
              touch_entry-ok h x (entry-above h bag n i) (mapped n i (omega arith) object),
              used,
              touch_byte-ok (object_addr h bag n i + bag.class_size - 1) mem
                  (shown n i heap object used),
              intact n i heap object used,
              both left,
              both right,
              tail,
              run,
            )
            refl,
        record {
          queue = rw (==_refl t, ==_refl b, ==_refl (n % 4)) queue;
          free = rw here;
          frame = same;
          bytes = refl;
          guards = refl;
          layout =
              let kept = SameBag-freelist bag (n % 4) (update bag.freelist (n % 4) r.0) in
              update_bag-KeepsLayout h z t b (n % 4) _ kept
                (IsLaidOut-SameBag h t b (n % 4) bag _ kept l);
          lists = λ j other. rw (==_refl t, ==_refl b, ne→==_false j (n % 4) other) refl;
          table = (_, refl);
          position = rw (==_refl t, ==_refl b) refl;
          limit = rw (==_refl t, ==_refl b) refl;
          class_size = rw (==_refl t, ==_refl b) refl;
        },
      )
