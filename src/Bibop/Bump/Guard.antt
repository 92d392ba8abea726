-- ===== src/Bibop/Bump/Guard.antt =====
-- bibopheap.hh: where the bump pointer stands after `incrementBumpPointer` and `tryRandomGuardPage`.
use free_guard.Base.{
  ℕ, ◌+◌, ◌-◌, ◌*◌, ◌/◌, ◌%◌, ◌≡◌, ◌⊎◌, inl, inr, refl, ap, ◌∙◌, arith, ltb, ltb→lt, Bool-cases,
  update, List, ◌∷◌, is_guarded, true, false, Bool, sym, ◌==◌, if◌then◌else◌, ne→==_false,
}
use free_guard.Xdefines.{page_size}
use free_guard.Bibop.{BibopHeap, PerThreadBag, Memory}
use free_guard.Bibop.Bump.Covered.{
  Before, NotBefore, InEnd, InSkipped, Covers, Covers-later, Covers-SameBag, guarded-cons,
}
use free_guard.Links.{Ptr}
use free_guard.Bibop.Layout.{IsLaidOut, object_addr}
use free_guard.Bibop.Bump.{increment_bump_pointer, try_random_guard_page, protect}
use free_guard.Bibop.Bump.Order.{
  AtObject, SameBag, SameBag-moved, increment_bump_pointer_within, increment_bump_pointer_last,
}
use free_guard.Bibop.Bump.Page.{page_size-fits, page-inside, skip-AtObject, skipped}
use free_guard.Bibop.Bump.Frame.{IsLaidOut-SameBag}

-- The bump pointer stands at a later object than object `i` in heap `n`, one of the heaps of the
-- same bag set item, and what is protected on the way are guards behind the bag and objects that the
-- pointer has passed from object `j` on. The ranges `old` were protected before.
pub record Moved (h : BibopHeap) (bag : PerThreadBag) (old : List (Ptr × ℕ))
    (r : PerThreadBag × Memory) (item n i j : ℕ) : Type 0 where
  pub heap : ℕ
  pub object : ℕ
  pub place : AtObject h r.0 item heap object
  pub covered : Covers h bag old r.1.guards n j heap object
  pub later : Before n i heap object
  pub turn : heap % 4 ≡ n % 4

-- A move from a later object is one from an earlier one, where the ranges before it are known.
pub Moved-earlier :
    (h : BibopHeap) (bag : PerThreadBag) (old mid : List (Ptr × ℕ)) (r : PerThreadBag × Memory)
    (item n i j n' i' : ℕ)
    → NotBefore n i n' i'
    → NotBefore n j n' i'
    → n' % 4 ≡ n % 4
    → ((m : Moved h bag mid r item n' i' i')
        → (a : Ptr) → is_guarded mid a ≡ true
        → (is_guarded old a ≡ true) ⊎ (InEnd h bag a ⊎ InSkipped h bag n j m.heap m.object a))
    → Moved h bag mid r item n' i' i'
    → Moved h bag old r item n i j
Moved-earlier h bag old mid r item n i j n' i' before from turn first m = record {
  heap = m.heap;
  object = m.object;
  place = m.place;
  covered =
      Covers-later h bag old mid r.1.guards n j n' i' m.heap m.object (first m) from turn m.covered;
  later = let q = m.later in ground (arith, before, q);
  turn = m.turn ∙ turn;
}

pub Moved-SameBag :
    (h : BibopHeap) (bag new : PerThreadBag) (old : List (Ptr × ℕ)) (r : PerThreadBag × Memory)
    (item n i j : ℕ)
    → SameBag item bag new
    → Moved h new old r item n i j
    → Moved h bag old r item n i j
Moved-SameBag h bag new old r item n i j same m = record {
  heap = m.heap;
  object = m.object;
  place = m.place;
  covered = Covers-SameBag h item bag new old r.1.guards n j m.heap m.object same m.covered;
  later = m.later;
  turn = m.turn;
}

-- What `setGuardPage` protects is a guard behind the bag.
end_guard :
    {T : Type 0} (h : BibopHeap) (bag : PerThreadBag) (old : List (Ptr × ℕ)) (m : ℕ) (a : Ptr)
    (none : Bool)
    → is_guarded
        (if none then old else (object_addr h bag m bag.num_objects, bag.guardsize) ∷ old)
        a
      ≡ true
    → (is_guarded old a ≡ true) ⊎ (InEnd h bag a ⊎ T)
end_guard h bag old m a true among = inl among
end_guard h bag old m a false among =
    elim (guarded-cons (object_addr h bag m bag.num_objects) bag.guardsize old a among) [
      | inl (above, below) ↦ inr (inl (m, above, below))
      | inr was ↦ inl was
    ]

-- `incrementBumpPointer` moves on to a later object.
pub increment_bump_pointer-Moved :
    (h : BibopHeap) (t b : ℕ) (bag : PerThreadBag) (l : IsLaidOut h t b bag) (item n i : ℕ)
    (mem : Memory) (at : AtObject h bag item n i) (j : ℕ)
    → Moved h bag mem.guards (increment_bump_pointer h.bibop_bag_size bag item mem) item n i j
increment_bump_pointer-Moved h t b bag l item n i mem at j =
    elim (Bool-cases (ltb i bag.last_object_index)) [
      | inl e ↦
          let (place, same, kept) =
            increment_bump_pointer_within h t b bag l item n i mem at (ltb→lt _ _ e) in
          record {
            heap = n;
            object = i + 1;
            place = place;
            covered = λ a now. inl (ap (λ (m : Memory). is_guarded m.guards a) (sym kept) ∙ now);
            later = inr (refl, omega arith);
            turn = refl;
          }
      | inr e ↦
          let (place, same, guards) =
            increment_bump_pointer_last h t b bag l item n i mem at
              (let stop = at.inside in ground (arith, e, stop)) in
          record {
            heap = n + 4;
            object = 0;
            place = place;
            covered = λ a now.
                let among = ap (λ (xs : List (Ptr × ℕ)). is_guarded xs a) (sym guards) ∙ now in
                end_guard h bag mem.guards (n + 4) a (bag.guardsize == 0) among;
            later = inl (omega arith);
            turn = omega arith;
          }
    ]

-- `tryRandomGuardPage` leaves the bump pointer where it is and protects nothing, or moves it on to a
-- later object.
pub try_random_guard_page-Moved :
    (h : BibopHeap) (t b : ℕ) (bag : PerThreadBag) (l : IsLaidOut h t b bag) (item n i : ℕ)
    (mem : Memory) (at : AtObject h bag item n i) (rand : ℕ)
    → bag.position item % 4096 ≡ 0
    → object_addr h bag n bag.num_objects % 4096 ≡ 0
    → let r = try_random_guard_page h.bibop_bag_size bag item rand mem in
      (AtObject h r.0 item n i × (r.1 ≡ mem)) ⊎ Moved h bag mem.guards r item n i i
unfolding try_random_guard_page protect
try_random_guard_page-Moved h t b bag l item n i mem at rand start stop =
    elim (Bool-cases (ltb (rand * 10) 0x8000)) [
      | inr e ↦ rw e (inl (at, refl))
      | inl e ↦ elim (Bool-cases (ltb bag.class_size page_size)) [
        | inr f ↦
            let next =
              increment_bump_pointer-Moved h t b bag l item n i
                (protect (bag.position item) bag.class_size mem) at i in
            rw (e, f)
              (inr (
                Moved-earlier h bag mem.guards _ _ item n i i n i (inr (refl, omega arith))
                  (inr (refl, omega arith)) refl
                  (λ m.
                    skipped h t b bag l item n i at 0 bag.class_size (omega arith)
                      (omega (arith, at.inside)) mem m.heap m.object
                      (let q = m.later in ground (arith, q)))
                  next))
        | inl f ↦
            let k = 4096 / bag.class_size - 1 in
            let inside = page-inside h t b bag l item n i at start stop in
            let moved = record bag {
              position = update bag.position item (bag.position item + k * bag.class_size);
            } in
            let same =
              SameBag-moved bag item moved.position bag.last_of_cur_bag
                (λ j ne. (rw (ne→==_false j item ne), refl)) in
            let next =
              increment_bump_pointer-Moved h t b moved
                (IsLaidOut-SameBag h t b item bag moved same l) item n (i + k)
                (protect (bag.position item) page_size mem)
                (skip-AtObject h t b bag l item n i at k inside) (i + k) in
            rw (e, f)
              (inr (
                Moved-earlier h bag mem.guards _ _ item n i i n (i + k) (inr (refl, omega arith))
                  (inr (refl, omega arith)) refl
                  (λ m.
                    skipped h t b bag l item n i at k page_size
                      (page_size-fits h t b bag l (ltb→lt _ _ f)) inside mem m.heap m.object
                      m.later)
                  (Moved-SameBag h bag moved _ _ item n (i + k) (i + k) same next)))
      ]
    ]
