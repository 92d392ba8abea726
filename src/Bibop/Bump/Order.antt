-- ===== src/Bibop/Bump/Order.antt =====
-- bibopheap.hh: the order in which `incrementBumpPointer` goes through the objects of a bag.
use free_guard.Base.{
  ℕ, ◌+◌, ◌-◌, ◌*◌, ◌≤◌, ◌<◌, ◌≡◌, ◌≢◌, refl, ap, ◌∙◌, arith, if◌then◌else◌, ◌==◌, lt→ltb,
  le→ltb_false, ==_refl, ne→==_false, ◌∷◌,
}
use free_guard.Links.{Ptr}
use free_guard.Bibop.{BibopHeap, PerThreadBag, Memory}
use free_guard.Bibop.Layout.{IsLaidOut, object_addr}
use free_guard.Bibop.Bump.{increment_bump_pointer, set_guard_page}

-- The bump pointer of a bag set item stands at object `i` of the bag in heap `n`, and the limit at
-- the last object there.
pub record AtObject (h : BibopHeap) (bag : PerThreadBag) (item n i : ℕ) : Type 0 where
  pub position : bag.position item ≡ object_addr h bag n i
  pub limit : bag.last_of_cur_bag item ≡ object_addr h bag n bag.last_object_index
  pub inside : i ≤ bag.last_object_index

-- The fields that `initialize` sets once and the other three bag set items are as before.
pub record SameBag (item : ℕ) (old new : PerThreadBag) : Type 0 where
  pub class_size : new.class_size ≡ old.class_size
  pub class_mask : new.class_mask ≡ old.class_mask
  pub shift_bits : new.shift_bits ≡ old.shift_bits
  pub start_offset : new.start_offset ≡ old.start_offset
  pub start_shadow : new.start_shadow_mem_offset ≡ old.start_shadow_mem_offset
  pub num_objects : new.num_objects ≡ old.num_objects
  pub last_index : new.last_object_index ≡ old.last_object_index
  pub guardsize : new.guardsize ≡ old.guardsize
  pub guardoffset : new.guardoffset ≡ old.guardoffset
  pub next_heap : new.next_heap_object_offset ≡ old.next_heap_object_offset
  pub next_shadow : new.next_shadow_heap_object_offset ≡ old.next_shadow_heap_object_offset
  pub others :
      (j : ℕ)
      → j ≢ item
      → (new.position j ≡ old.position j) × (new.last_of_cur_bag j ≡ old.last_of_cur_bag j)

pub SameBag-moved :
    (bag : PerThreadBag) (item : ℕ) (f g : ℕ → Ptr)
    → ((j : ℕ) → j ≢ item → (f j ≡ bag.position j) × (g j ≡ bag.last_of_cur_bag j))
    → SameBag item bag (record bag { position = f; last_of_cur_bag = g })
SameBag-moved bag item f g same = record {
  class_size = refl;
  class_mask = refl;
  shift_bits = refl;
  start_offset = refl;
  start_shadow = refl;
  num_objects = refl;
  last_index = refl;
  guardsize = refl;
  guardoffset = refl;
  next_heap = refl;
  next_shadow = refl;
  others = same;
}

pub guards-set_guard_page :
    (size start guardsize guardoffset : ℕ) (mem : Memory)
    → (set_guard_page size start guardsize guardoffset mem).guards ≡ (
        if guardsize == 0 then mem.guards else (start + size - guardoffset, guardsize) ∷ mem.guards)
unfolding set_guard_page
guards-set_guard_page size start guardsize guardoffset mem = ground arith

module _ (h : BibopHeap) (t b : ℕ) (bag : PerThreadBag) (l : IsLaidOut h t b bag) (item n i : ℕ)
    (mem : Memory) (at : AtObject h bag item n i) where
  -- Within a bag the bump pointer moves to the next object, and nothing is protected.
  pub increment_bump_pointer_within :
      i < bag.last_object_index
      → let r = increment_bump_pointer h.bibop_bag_size bag item mem in
        AtObject h r.0 item n (i + 1) × SameBag item bag r.0 × (r.1 ≡ mem)
  unfolding increment_bump_pointer object_addr
  increment_bump_pointer_within lt =
      let before : bag.position item < bag.last_of_cur_bag item =
        grind (arith, at.position, at.limit, l.class_pos) in
      rw (lt→ltb _ _ before) (
        record {
          position = rw ==_refl (omega (arith, at.position));
          limit = at.limit;
          inside = omega arith;
        },
        SameBag-moved bag item _ _ (λ j ne. (rw (ne→==_false j item ne), refl)),
        refl,
      )

  -- After the last object it moves to the first one of the same bag four heaps on, the limit moves
  -- with it, and the guard of the new bag begins where the last object ends.
  pub increment_bump_pointer_last :
      i ≡ bag.last_object_index
      → let r = increment_bump_pointer h.bibop_bag_size bag item mem in
        AtObject h r.0 item (n + 4) 0
        × SameBag item bag r.0
        × (r.1.guards ≡ (
            if bag.guardsize == 0
            then mem.guards
            else (object_addr h bag (n + 4) bag.num_objects, bag.guardsize) ∷ mem.guards))
  unfolding increment_bump_pointer object_addr
  increment_bump_pointer_last e =
      let level : bag.last_of_cur_bag item ≤ bag.position item =
        omega (arith, at.position, at.limit, ap (λ (k : ℕ). k * bag.class_size) e) in
      let rows : bag.last_object_index * bag.class_size + bag.class_size + bag.guardoffset
          ≡ h.bibop_bag_size =
        omega (arith, l.room, ap (λ (k : ℕ). k * bag.class_size) l.count) in
      let next : bag.position item + bag.next_heap_object_offset
          ≡ h.heap_begin
            + (n + 4) * (4096 * h.bibop_bag_size)
            + bag.start_offset
            + 0 * bag.class_size =
        omega (arith, at.position, l.next_heap, ap (λ (k : ℕ). k * bag.class_size) e) in
      rw (le→ltb_false _ _ level) (
        record {
          position = rw ==_refl next;
          limit = rw ==_refl (omega (arith, next, rows));
          inside = omega arith;
        },
        SameBag-moved bag item _ _
            (λ j ne. (rw (ne→==_false j item ne), rw (ne→==_false j item ne))),
        guards-set_guard_page h.bibop_bag_size _ bag.guardsize bag.guardoffset mem
            ∙ ap (λ a. if bag.guardsize == 0 then mem.guards else (a, bag.guardsize) ∷ mem.guards)
                (omega (arith, next, l.room)),
      )
