-- ===== src/Bibop/Object/Served/Fresh.antt =====
-- bibopheap.hh: the bump pointer after `allocateSmallObject` took the object that it stood at.
use free_guard.Base.{
  ℕ, ◌+◌, ◌-◌, ◌%◌, ◌≡◌, inl, inr, ap, ◌∙◌, arith, ◌==◌, Bool-cases, bit_and, bit_and-mask,
  is_guarded, sym,
}
use free_guard.Xdefines.{page_size}
use free_guard.Bibop.{BibopHeap, PerThreadBag, Memory}
use free_guard.Bibop.Layout.{IsLaidOut, object_addr}
use free_guard.Bibop.Bump.{increment_bump_pointer}
use free_guard.Bibop.Bump.Covered.{Covers-further}
use free_guard.Bibop.Bump.Order.{AtObject}
use free_guard.Bibop.Bump.Frame.{
  IsLaidOut-SameBag, object_addr-SameBag, increment_bump_pointer-SameBag,
}
use free_guard.Bibop.Bump.Guard.{
  Moved, Moved-earlier, Moved-SameBag, increment_bump_pointer-Moved, try_random_guard_page-Moved,
}
use free_guard.Bibop.Object.{take_fresh}

pub take_fresh-Moved :
    (h : BibopHeap) (t b : ℕ) (bag : PerThreadBag) (l : IsLaidOut h t b bag) (item n i rand : ℕ)
    (mem : Memory) (at : AtObject h bag item n i)
    → ((m : ℕ) → object_addr h bag m bag.num_objects % 4096 ≡ 0)
    → let r = take_fresh h bag item rand mem in Moved h bag mem.guards (r.1, r.2) item n i (i + 1)
unfolding take_fresh
take_fresh-Moved h t b bag l item n i rand mem at paged =
    let r = increment_bump_pointer h.bibop_bag_size bag item mem in
    let m = increment_bump_pointer-Moved h t b bag l item n i mem at (i + 1) in
    let (same, lists, contents) = increment_bump_pointer-SameBag h.bibop_bag_size bag item mem in
    elim (Bool-cases (bit_and (r.0.position item) (page_size - 1) == 0)) [
      | inr e ↦ rw e m
      | inl e ↦
          let start : r.0.position item % 4096 ≡ 0 =
            ground (arith, e, bit_and-mask 12 (r.0.position item)) in
          let stop : object_addr h r.0 m.heap r.0.num_objects % 4096 ≡ 0 = rw same.num_objects (
            ap (λ (a : ℕ). a % 4096)
              (object_addr-SameBag h item m.heap bag.num_objects bag r.0 same).0
            ∙ paged m.heap) in
          let next =
            try_random_guard_page-Moved h t b r.0 (IsLaidOut-SameBag h t b item bag r.0 same l) item
              m.heap m.object r.1 m.place rand start stop in
          rw e (elim next [
            | inl (stays, kept) ↦ record {
              heap = m.heap;
              object = m.object;
              place = stays;
              covered = λ a now.
                  m.covered a (ap (λ (x : Memory). is_guarded x.guards a) (sym kept) ∙ now);
              later = m.later;
              turn = m.turn;
            }
            | inr moves ↦
                Moved-earlier h bag mem.guards r.1.guards _ item n i (i + 1) m.heap m.object
                  (let later = m.later in ground (arith, later))
                  (let later = m.later in ground (arith, later)) m.turn
                  (λ further.
                    let later = further.later in
                    Covers-further h bag mem.guards r.1.guards n (i + 1) m.heap m.object
                      further.heap further.object (ground (arith, later)) m.covered)
                  (Moved-SameBag h bag r.0 r.1.guards _ item m.heap m.object m.object same moves)
          ])
    ]
