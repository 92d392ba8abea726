-- ===== src/Bibop/Object/Allocate.antt =====
-- bibopheap.hh: the branches of `allocateSmallObject` in a bag.
use free_guard.Base.{
  ◌≤◌, ok, is_guarded, ℕ, ◌+◌, ◌-◌, ◌<◌, ◌≡◌, ◌≢◌, ◌⊎◌, inl, inr, refl, sym, ap, ◌∙◌, arith, subst,
  ◌==◌, true, false, not, ◌&&◌, Bool-cases, update, bit_and, List, [], ◌∷◌, contains, ==_refl,
  ne→==_false, Returns,
}
use free_guard.Links.{Ptr}
use free_guard.Dlist.{Dlist, is_dll_empty}
use free_guard.Dlist.Queue.{
  IsQueue, IsQueue-update, is_dll_empty_lem, is_dll_empty-cons, remove_dll_head-IsQueue,
}
use free_guard.Xdefines.{page_size, bibop_num_heaps, alloc_sentinel}
use free_guard.Bibop.{
  BibopHeap, PerThreadBag, Memory, update_bag, touch_entry, touch_byte, touch_entry-ok,
  touch_byte-ok,
}
use free_guard.Bibop.Layout.{IsSized, IsLaidOut, object_addr, shadow_addr}
use free_guard.Bibop.Layout.Keep.{KeepsLayout}
use free_guard.Bibop.Address.{get_shadow_object_info, get_addr_from_shadow_info}
use free_guard.Bibop.Address.RoundTrip.{get_shadow_object_info_lem, get_addr_from_shadow_info_lem}
use free_guard.Bibop.Bump.{increment_bump_pointer}
use free_guard.Bibop.Bump.Order.{AtObject, SameBag}
use free_guard.Bibop.Bump.Frame.{
  SameContents, SameBag-trans, SameBag-freelist, IsLaidOut-SameBag, update_bag_same,
  object_addr-SameBag, update_bag-KeepsLayout, increment_bump_pointer-SameBag,
  try_random_guard_page-SameBag,
}
use free_guard.Bibop.Object.{
  Draws, canary_intact, take_free, take_fresh, marked, mark_allocated, allocate_in_bag,
}

-- The outcome of an allocation from a bag: the object, the mark, the canary, and the free list.
pub record Allocated (h : BibopHeap) (t b item n i : ℕ) (mem : Memory) (xs : List Ptr)
    (r : Ptr × BibopHeap × Memory) : Type 0 where
  pub object : r.0 ≡ object_addr h (h.thread_bag t b) n i
  pub marked : r.2.links (shadow_addr h (h.thread_bag t b) n i) ≡ alloc_sentinel
  pub canary : canary_intact r.0 (h.thread_bag t b) r.2 ≡ true
  pub queue : IsQueue r.2.links ((r.1.thread_bag t b).freelist item) xs
  pub layout : KeepsLayout h t b r.1
  pub frame : (a : Ptr) → a ≢ shadow_addr h (h.thread_bag t b) n i → r.2.links a ≡ mem.links a
  pub bytes : (a : Ptr) → a ≢ r.0 + (h.thread_bag t b).class_size - 1 → r.2.bytes a ≡ mem.bytes a
  pub same : SameBag item (h.thread_bag t b) (r.1.thread_bag t b)
  pub lists : (j : ℕ) → j ≢ item → (r.1.thread_bag t b).freelist j ≡ (h.thread_bag t b).freelist j
  pub table :
      (bag : PerThreadBag) × (r.1 ≡ record h { thread_bag = update_bag h.thread_bag t b bag })

-- The bump pointer's branch leaves the layout, the free lists and the contents alone.
take_fresh-SameBag :
    (h : BibopHeap) (bag : PerThreadBag) (item rand : ℕ) (mem : Memory)
    → let r = take_fresh h bag item rand mem in
      SameBag item bag r.1 × (r.1.freelist ≡ bag.freelist) × SameContents mem r.2
unfolding take_fresh
take_fresh-SameBag h bag item rand mem =
    let r = increment_bump_pointer h.bibop_bag_size bag item mem in
    let (same, lists, contents) = increment_bump_pointer-SameBag h.bibop_bag_size bag item mem in
    elim (Bool-cases (bit_and (r.0.position item) (page_size - 1) == 0)) [
      | inr e ↦ rw e (same, lists, contents)
      | inl e ↦
          let (same', lists', contents') =
            try_random_guard_page-SameBag h.bibop_bag_size r.0 item rand r.1 in
          rw e (
            SameBag-trans item bag r.0 _ same same',
            lists' ∙ lists,
            (contents'.0 ∙ contents.0, contents'.1 ∙ contents.1),
          )
    ]

not_reused :
    (draws : Draws) (bag : PerThreadBag) (item : ℕ) (mem : Memory) (xs : List Ptr)
    → IsQueue mem.links (bag.freelist item) xs
    → (xs ≡ []) ⊎ (bit_and draws.bag_set 31 ≡ 0)
    → (not (is_dll_empty (bag.freelist item)) && not (bit_and draws.bag_set 31 == 0)) ≡ false
not_reused draws bag item mem xs q (inl none_free) =
    rw ((is_dll_empty_lem mem.links (bag.freelist item) xs q).1 none_free)
not_reused draws bag item mem xs q (inr drawn) = rw drawn (ground arith)

module _ (h : BibopHeap) (z : IsSized h) (t b : ℕ) (l : IsLaidOut h t b (h.thread_bag t b))
    (item n i : ℕ) (heap : n < bibop_num_heaps) (object : i < (h.thread_bag t b).num_objects) where
  -- Marking an object of the bag, after the bag's mutable fields have changed to those of `new`.
  mark-Allocated :
      (new : PerThreadBag) (start mem : Memory) (xs : List Ptr)
      → SameContents start mem
      → ((j : ℕ) → j ≢ item → new.freelist j ≡ (h.thread_bag t b).freelist j)
      → SameBag item (h.thread_bag t b) new
      → IsLaidOut h t b new
      → IsQueue mem.links (new.freelist item) xs
      → contains (shadow_addr h (h.thread_bag t b) n i) xs ≡ false
      → Allocated h t b item n i start xs (
        object_addr h (h.thread_bag t b) n i,
        record h { thread_bag = update_bag h.thread_bag t b new },
        marked h new (object_addr h (h.thread_bag t b) n i) mem,
      )
  unfolding canary_intact
  mark-Allocated new start mem xs contents lists same lo q out =
      let old = h.thread_bag t b in
      let (at_object, at_shadow) = object_addr-SameBag h item n i old new same in
      let inside : i < new.num_objects = rw same.num_objects object in
      let entry : get_shadow_object_info h (object_addr h old n i) new ≡ shadow_addr h old n i =
        ap (λ a. get_shadow_object_info h a new) (sym at_object)
        ∙ get_shadow_object_info_lem h z t b new lo n i heap inside
        ∙ at_shadow in
      let here = update_bag_same h.thread_bag t b new in
      record {
        object = refl;
        marked = rw (entry, ==_refl (shadow_addr h old n i));
        canary = rw (same.class_size, ==_refl);
        queue =
            subst
              (λ v. IsQueue (marked h new (object_addr h old n i) mem).links (v.freelist item) xs)
              (sym here)
              (subst (λ a. IsQueue (update mem.links a alloc_sentinel) (new.freelist item) xs)
                (sym entry) (IsQueue-update mem.links _ xs _ alloc_sentinel out q));
        layout = update_bag-KeepsLayout h z t b item new same lo;
        frame = λ a ne. rw (entry, ne→==_false a (shadow_addr h old n i) ne, contents.0) refl;
        bytes = λ a ne.
            rw
              (
                same.class_size,
                ne→==_false a (object_addr h old n i + old.class_size - 1) ne,
                contents.1,
              )
              refl;
        same = subst (SameBag item old) (sym here) same;
        lists = λ j ne. ap (λ (v : PerThreadBag). v.freelist j) here ∙ lists j ne;
        table = (new, refl);
      }

  -- The writes of the canary and of the mark, where both can be accessed.
  mark_allocated-ok :
      (new : PerThreadBag) (mem : Memory)
      → SameBag item (h.thread_bag t b) new
      → IsLaidOut h t b new
      → shadow_addr h (h.thread_bag t b) n i + 8 ≤ h.shadow_mem_end
      → is_guarded mem.guards
          (object_addr h (h.thread_bag t b) n i + (h.thread_bag t b).class_size - 1)
        ≡ false
      → mark_allocated h new (object_addr h (h.thread_bag t b) n i) mem
        ≡ ok (marked h new (object_addr h (h.thread_bag t b) n i) mem)
  unfolding mark_allocated shadow_addr
  mark_allocated-ok new mem same lo mapped allowed =
      let old = h.thread_bag t b in
      let (at_object, at_shadow) = object_addr-SameBag h item n i old new same in
      let inside : i < new.num_objects = rw same.num_objects object in
      let entry : get_shadow_object_info h (object_addr h old n i) new ≡ shadow_addr h old n i =
        ap (λ a. get_shadow_object_info h a new) (sym at_object)
        ∙ get_shadow_object_info_lem h z t b new lo n i heap inside
        ∙ at_shadow in
      let byte : touch_byte (object_addr h old n i + new.class_size - 1) mem ≡ ok tt =
        touch_byte-ok _ mem (rw same.class_size allowed) in
      let shadow : touch_entry h (get_shadow_object_info h (object_addr h old n i) new) ≡ ok tt =
        ap (touch_entry h) entry ∙ touch_entry-ok h _ (omega arith) mapped in
      rw (byte, shadow) refl

  -- An allocation from a bag whose free list is not empty, where the draw does not ask for the
  -- bump pointer: it returns the object of the oldest entry of the list, the entry is marked,
  -- its canary is in place, the list has lost that entry only, and the heap is still laid out.
  pub allocate_in_bag-reuse :
      (draws : Draws) (mem : Memory) (xs : List Ptr)
      → IsQueue mem.links
          ((h.thread_bag t b).freelist item)
          (shadow_addr h (h.thread_bag t b) n i ∷ xs)
      → bit_and draws.bag_set 3 ≡ item
      → bit_and draws.bag_set 31 ≢ 0
      → shadow_addr h (h.thread_bag t b) n i + 8 ≤ h.shadow_mem_end
      → is_guarded mem.guards
          (object_addr h (h.thread_bag t b) n i + (h.thread_bag t b).class_size - 1)
        ≡ false
      → Returns (allocate_in_bag h t b draws mem) (λ r.
        Allocated h t b item n i mem xs r
        × ((r.1.thread_bag t b).position ≡ (h.thread_bag t b).position)
        × ((r.1.thread_bag t b).last_of_cur_bag ≡ (h.thread_bag t b).last_of_cur_bag)
        × (r.2.guards ≡ mem.guards))
  unfolding allocate_in_bag take_free shadow_addr
  allocate_in_bag-reuse draws mem xs q e how mapped allowed =
      let old = h.thread_bag t b in
      let x = shadow_addr h old n i in
      let (r, run, (first, rest, unchanged)) =
        remove_dll_head-IsQueue mem.links (old.freelist item) x xs q in
      let new = record old { freelist = update old.freelist item r.0.1 } in
      let addr : get_addr_from_shadow_info h r.0.0 old ≡ object_addr h old n i =
        ap (λ a. get_addr_from_shadow_info h a old) first
        ∙ get_addr_from_shadow_info_lem h z t b old l n i heap object in
      let queue : IsQueue r.1 (new.freelist item) xs = rw ==_refl rest in
      let same = SameBag-freelist old item new.freelist in
      let head : touch_entry h (old.freelist item).next ≡ ok tt =
        ap (touch_entry h) q.chain.0 ∙ touch_entry-ok h _ (omega arith) mapped in
      let mark =
        mark_allocated-ok new (record mem { links = r.1 }) same
          (IsLaidOut-SameBag h t b item old new same l) mapped allowed in
      (
        (_, _, _),
        rw
            (
              e,
              is_dll_empty-cons mem.links (old.freelist item) x xs q,
              ne→==_false _ 0 how,
              head,
              run,
              addr,
              mark,
            )
            refl,
        (
          mark-Allocated new mem (record mem { links = r.1 }) xs (unchanged, refl)
              (λ j ne. rw (ne→==_false j item ne)) (SameBag-freelist old item _)
              (IsLaidOut-SameBag h t b item old new (SameBag-freelist old item _) l) queue
              q.distinct.0,
          ap (λ (v : PerThreadBag). v.position) (update_bag_same h.thread_bag t b new),
          ap (λ (v : PerThreadBag). v.last_of_cur_bag) (update_bag_same h.thread_bag t b new),
          refl,
        ),
      )

  -- An allocation from a bag of which the bump pointer stands at object `i` in heap `n`, where
  -- the free list is empty or the draw asks for the bump pointer, and the object's entry is not
  -- in that list: it returns that object, its entry is marked, its canary is in place, the free
  -- list is as before, and the heap is still laid out.
  pub allocate_in_bag-fresh :
      (draws : Draws) (mem : Memory) (xs : List Ptr)
      → IsQueue mem.links ((h.thread_bag t b).freelist item) xs
      → AtObject h (h.thread_bag t b) item n i
      → contains (shadow_addr h (h.thread_bag t b) n i) xs ≡ false
      → bit_and draws.bag_set 3 ≡ item
      → (xs ≡ []) ⊎ (bit_and draws.bag_set 31 ≡ 0)
      → shadow_addr h (h.thread_bag t b) n i + 8 ≤ h.shadow_mem_end
      → is_guarded
          (take_fresh h (h.thread_bag t b) item draws.guard mem).2.guards
          (object_addr h (h.thread_bag t b) n i + (h.thread_bag t b).class_size - 1)
        ≡ false
      → Returns (allocate_in_bag h t b draws mem) (λ r.
        Allocated h t b item n i mem xs r
        × (r.2.guards ≡ (take_fresh h (h.thread_bag t b) item draws.guard mem).2.guards)
        × (r.1.thread_bag t b ≡ (take_fresh h (h.thread_bag t b) item draws.guard mem).1))
  unfolding allocate_in_bag take_fresh
  allocate_in_bag-fresh draws mem xs q at out e how mapped allowed =
      let old = h.thread_bag t b in
      let (same, lists, contents) = take_fresh-SameBag h old item draws.guard mem in
      let (ptr, new, mem') = take_fresh h old item draws.guard mem in
      let queue : IsQueue mem'.links (new.freelist item) xs = rw (lists, contents.0) q in
      let mark =
        mark_allocated-ok new mem' same (IsLaidOut-SameBag h t b item old new same l) mapped
          allowed in
      (
        (_, _, _),
        rw (e, not_reused draws old item mem xs q how) (rw (at.position, mark) refl),
        (
          mark-Allocated new mem mem' xs contents (λ j ne. ap (λ (f : ℕ → Dlist). f j) lists) same
              (IsLaidOut-SameBag h t b item old new same l) queue out,
          refl,
          update_bag_same h.thread_bag t b new,
        ),
      )
