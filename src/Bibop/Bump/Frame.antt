-- ===== src/Bibop/Bump/Frame.antt =====
-- bibopheap.hh: the parts of a bag and of the memory that a move of the bump pointer does not write.
use free_guard.Base.{
  ℕ, ◌+◌, ◌-◌, ◌*◌, ◌/◌, ◌≡◌, refl, sym, subst, ap, ==_refl, ◌∙◌, ltb, Bool-cases, inl, inr, update,
  ◌==◌, ne→==_false,
}
use free_guard.Dlist.{Dlist}
use free_guard.Xdefines.{page_size}
use free_guard.Bibop.{BibopHeap, PerThreadBag, Memory, update_bag}
use free_guard.Bibop.Layout.{IsSized, IsLaidOut, object_addr, shadow_addr}
use free_guard.Bibop.Layout.Keep.{IsSized-heap, IsLaidOut-heap, KeepsLayout}
use free_guard.Bibop.Bump.{increment_bump_pointer, try_random_guard_page, set_guard_page, protect}
use free_guard.Bibop.Bump.Order.{SameBag, SameBag-moved}

-- The shadow entries and the bytes are as before.
abbrev pub SameContents : Memory → Memory → Type 0
SameContents old new = (new.links ≡ old.links) × (new.bytes ≡ old.bytes)

pub SameBag-trans :
    (item : ℕ) (a b c : PerThreadBag) → SameBag item a b → SameBag item b c → SameBag item a c
SameBag-trans item a b c p q = record {
  class_size = q.class_size ∙ p.class_size;
  class_mask = q.class_mask ∙ p.class_mask;
  shift_bits = q.shift_bits ∙ p.shift_bits;
  start_offset = q.start_offset ∙ p.start_offset;
  start_shadow = q.start_shadow ∙ p.start_shadow;
  num_objects = q.num_objects ∙ p.num_objects;
  last_index = q.last_index ∙ p.last_index;
  guardsize = q.guardsize ∙ p.guardsize;
  guardoffset = q.guardoffset ∙ p.guardoffset;
  next_heap = q.next_heap ∙ p.next_heap;
  next_shadow = q.next_shadow ∙ p.next_shadow;
  others = λ j ne. let (a, b) = p.others j ne in let (c, d) = q.others j ne in (c ∙ a, d ∙ b);
}

pub SameBag-freelist :
    (bag : PerThreadBag) (item : ℕ) (f : ℕ → Dlist) → SameBag item bag (record bag { freelist = f })
SameBag-freelist bag item f = record {
  class_size = refl;
  class_mask = refl;
  shift_bits = refl;
  start_offset = refl;
  start_shadow = refl;
  num_objects = refl;
  last_index = refl;
  guardsize = refl;
  guardoffset = refl;
  next_heap = refl;
  next_shadow = refl;
  others = λ j ne. (refl, refl);
}

pub IsLaidOut-SameBag :
    (h : BibopHeap) (t b item : ℕ) (old new : PerThreadBag)
    → SameBag item old new
    → IsLaidOut h t b old
    → IsLaidOut h t b new
IsLaidOut-SameBag h t b item old new s l = record {
  thread = l.thread;
  usable = l.usable;
  class_pos = rw s.class_size l.class_pos;
  class_bits = rw (s.class_size, s.shift_bits) l.class_bits;
  class_mask = rw (s.class_size, s.class_mask) l.class_mask;
  start = rw s.start_offset l.start;
  count = rw (s.num_objects, s.last_index) l.count;
  room = rw (s.num_objects, s.class_size, s.guardoffset) l.room;
  shadow_room = rw (s.start_shadow, s.num_objects) l.shadow_room;
  next_heap = rw (s.next_heap, s.last_index, s.class_size) l.next_heap;
  next_shadow = rw (s.next_shadow, s.last_index) l.next_shadow;
}

pub update_bag_same :
    (f : ℕ → ℕ → PerThreadBag) (t b : ℕ) (v : PerThreadBag) → update_bag f t b v t b ≡ v
update_bag_same f t b v = rw (==_refl t, ==_refl b)

pub object_addr-SameBag :
    (h : BibopHeap) (item n i : ℕ) (old new : PerThreadBag)
    → SameBag item old new
    → (object_addr h new n i ≡ object_addr h old n i)
      × (shadow_addr h new n i ≡ shadow_addr h old n i)
unfolding object_addr shadow_addr
object_addr-SameBag h item n i old new s = (rw (s.start_offset, s.class_size), rw s.start_shadow)

-- Replacing a bag by one with the same layout keeps the layout.
pub update_bag-KeepsLayout :
    (h : BibopHeap) (z : IsSized h) (t b item : ℕ) (new : PerThreadBag)
    → SameBag item (h.thread_bag t b) new
    → IsLaidOut h t b new
    → KeepsLayout h t b (record h { thread_bag = update_bag h.thread_bag t b new })
unfolding object_addr shadow_addr
update_bag-KeepsLayout h z t b item new same lo =
    let here = update_bag_same h.thread_bag t b new in
    let keep = λ (n i : ℕ). object_addr-SameBag h item n i (h.thread_bag t b) new same in
    let h' = record h { thread_bag = update_bag h.thread_bag t b new } in
    record {
      sized = IsSized-heap h _ z;
      laid_out = subst (IsLaidOut h' t b) (sym here) (IsLaidOut-heap h t b new _ lo);
      address = λ n i. ap (λ v. object_addr h v n i) here ∙ (keep n i).0;
      entry = λ n i. ap (λ v. shadow_addr h v n i) here ∙ (keep n i).1;
      shadow_begin = refl;
      shadow_end = refl;
      count = ap (λ (v : PerThreadBag). v.num_objects) here ∙ same.num_objects;
      guardsize = ap (λ (v : PerThreadBag). v.guardsize) here ∙ same.guardsize;
    }

pub set_guard_page-SameContents :
    (size start guardsize guardoffset : ℕ) (mem : Memory)
    → SameContents mem (set_guard_page size start guardsize guardoffset mem)
unfolding set_guard_page
set_guard_page-SameContents size start guardsize guardoffset mem =
    elim (Bool-cases (guardsize == 0)) [ inl e ↦ rw e (refl, refl) | inr e ↦ rw e (refl, refl) ]

pub increment_bump_pointer-SameBag :
    (size : ℕ) (bag : PerThreadBag) (item : ℕ) (mem : Memory)
    → let r = increment_bump_pointer size bag item mem in
      SameBag item bag r.0 × (r.0.freelist ≡ bag.freelist) × SameContents mem r.1
unfolding increment_bump_pointer
increment_bump_pointer-SameBag size bag item mem =
    elim (Bool-cases (ltb (bag.position item) (bag.last_of_cur_bag item))) [
      | inl e ↦ rw e (
        SameBag-moved bag item _ _ (λ j ne. (rw (ne→==_false j item ne), refl)),
        refl,
        (refl, refl),
      )
      | inr e ↦ rw e (
        SameBag-moved bag item _ _
            (λ j ne. (rw (ne→==_false j item ne), rw (ne→==_false j item ne))),
        refl,
        set_guard_page-SameContents size _ bag.guardsize bag.guardoffset mem,
      )
    ]

pub try_random_guard_page-SameBag :
    (size : ℕ) (bag : PerThreadBag) (item rand : ℕ) (mem : Memory)
    → let r = try_random_guard_page size bag item rand mem in
      SameBag item bag r.0 × (r.0.freelist ≡ bag.freelist) × SameContents mem r.1
unfolding try_random_guard_page protect
try_random_guard_page-SameBag size bag item rand mem = elim (Bool-cases (ltb (rand * 10) 0x8000)) [
  | inr e ↦ rw e (SameBag-moved bag item _ _ (λ j ne. (refl, refl)), refl, (refl, refl))
  | inl e ↦ elim (Bool-cases (ltb bag.class_size page_size)) [
    | inr f ↦
        rw (e, f)
          (let r =
              increment_bump_pointer-SameBag size bag item
                (protect (bag.position item) bag.class_size mem) in
            (r.0, r.1, (r.2.0, r.2.1)))
    | inl f ↦
        let skip = (page_size / bag.class_size - 1) * bag.class_size in
        let moved = update bag.position item (bag.position item + skip) in
        let r =
          increment_bump_pointer-SameBag size (record bag { position = moved }) item
            (protect (bag.position item) page_size mem) in
        rw (e, f)
          (
            SameBag-trans item bag (record bag { position = moved }) _
                (SameBag-moved bag item moved bag.last_of_cur_bag
                  (λ j ne. (rw (ne→==_false j item ne), refl)))
                r.0,
            r.1,
            (r.2.0, r.2.1),
          )
  ]
]
