-- ===== src/Bibop/Object/Served/Malloc.antt =====
-- bibopheap.hh: `allocateSmallObject` on a bag that serves a program.
use free_guard.Base.{
  ◌+◌, ◌-◌, is_guarded, contains, true, false, ℕ, ◌%◌, ◌<◌, ◌≤◌, ◌≡◌, ◌≢◌, ◌⊎◌, inl, inr, refl, sym,
  ap, ◌∙◌, subst, arith, List, [], ◌∷◌, map, ◌==◌, Bool-cases, update, bit_and, bit_and-mask,
  Returns,
}
use free_guard.Links.{Ptr}
use free_guard.Dlist.Queue.{IsQueue}
use free_guard.Bibop.{BibopHeap, PerThreadBag, Memory}
use free_guard.Bibop.Bump.Order.{AtObject}
use free_guard.Bibop.Object.{Draws, take_fresh, allocate_in_bag}
use free_guard.Bibop.Object.Allocate.{allocate_in_bag-fresh, allocate_in_bag-reuse}
use free_guard.Bibop.Object.Served.{
  Object, View, entry, IsInBag, IsPlaced, Served, ArePassed, Ahead, Kept, object,
}
use free_guard.Bibop.Object.Served.Apart.{passed-out, queue-idle}
use free_guard.Bibop.Object.Served.Change.{
  paged-kept, kept-Mapped, KeepsLayout-class_size, AtObject-header, ArePassed-later, AtObject-kept,
}
use free_guard.Bibop.Object.Served.Fresh.{take_fresh-Moved}
use free_guard.Bibop.Object.Served.Bumped.{
  listed-Kept, same_lists, bumped_shown, skipped_apart, fenced,
}
use free_guard.Bibop.Object.Served.Grant.{Granted, granted, granted-Served, changed, Kept-before}
use free_guard.Bibop.Object.Served.Guarded.{Covers-kept}
use free_guard.Bibop.Layout.{object_addr, mapped_heaps}

module _ (h₀ : BibopHeap) (t b : ℕ) (z : IsPlaced h₀ t b) where
  module _ (v : View) (h : BibopHeap) (mem : Memory) (s : Served h₀ t b v h mem) where
    abbrev pub Grants : Draws → Ptr × BibopHeap × Memory → Type 0
    Grants draws r =
        (o : Object) × (v' : View) × (o.0 ≤ (v.bump (bit_and draws.bag_set 3)).0)
        × Granted h₀ t b z h mem o r
        × Served h₀ t b v' r.1 r.2

    -- The branch that takes the oldest object of the free list.
    pub allocate_in_bag-oldest :
        (draws : Draws) (o : Object) (os : List Object)
        → v.free (bit_and draws.bag_set 3) ≡ o ∷ os
        → bit_and draws.bag_set 31 ≢ 0
        → Returns (allocate_in_bag h t b draws mem) (λ r.
          Granted h₀ t b z h mem o r
          × Served h₀ t b
              (changed h₀ t b z v h mem s
                (bit_and draws.bag_set 3)
                os
                (v.bump (bit_and draws.bag_set 3)))
              r.1
              r.2)
    allocate_in_bag-oldest draws o os e how =
        let item = bit_and draws.bag_set 3 in
        let passed : ArePassed h₀ t b item (v.bump item) (o ∷ os) =
          subst (ArePassed h₀ t b item (v.bump item)) e (s.passed item) in
        let queue : IsQueue mem.links ((h.thread_bag t b).freelist item)
            (map (entry h₀ t b) (o ∷ os)) =
          subst (λ xs. IsQueue mem.links ((h.thread_bag t b).freelist item) (map (entry h₀ t b) xs))
            e (s.queue item) in
        let idle = queue-idle h₀ t b z mem.links _ (o ∷ os) (entry h₀ t b o) queue (ground arith) in
        let kept : Kept h₀ t b v mem o = listed-Kept h₀ t b z v h mem s item o os e passed.1 in
        let accessible = s.shown o passed.0 kept in
        let class = KeepsLayout-class_size h₀ h t b s.layout in
        let pos = z.laid_out.class_pos in
        let last = (h₀.thread_bag t b).class_size - 1 in
        let canary : object_addr h (h.thread_bag t b) o.0 o.1 + (h.thread_bag t b).class_size - 1
            ≡ object h₀ t b o + last =
          omega (arith, s.layout.address o.0 o.1, class, pos) in
        let (r, run, (a, position, limit, guards)) =
          allocate_in_bag-reuse h s.layout.sized t b s.layout.laid_out item o.0 o.1 passed.0.0
            (omega (arith, passed.0.1, s.layout.count)) draws mem (map (entry h₀ t b) os)
            (subst
              (λ x.
                IsQueue mem.links ((h.thread_bag t b).freelist item) (x ∷ map (entry h₀ t b) os))
              (sym (s.layout.entry o.0 o.1)) queue)
            refl how
            (kept-Mapped h₀ t b z h s.layout o.0 o.1 passed.3
              (omega (arith, passed.0.1, s.layout.count)))
            (ap (is_guarded mem.guards) canary ∙ accessible last (omega (arith, pos))) in
        let shown : (x : ℕ)
            → x < (h₀.thread_bag t b).class_size
            → is_guarded r.2.guards (object h₀ t b o + x) ≡ false =
          λ x lt. ap (λ g. is_guarded g (object h₀ t b o + x)) guards ∙ accessible x lt in
        (
          r,
          run,
          (
            granted h₀ t b z v h mem s item o _ r passed.0 idle a shown
                (λ c now. inl (ap (λ g. is_guarded g c) (sym guards) ∙ now)),
            granted-Served h₀ t b z v h mem s item o os (v.bump item) r passed.0 passed.1 a passed.4
                (AtObject-kept h r.1 t b item _ _ s.layout.laid_out a.layout
                  (ap (λ (f : ℕ → Ptr). f item) position) (ap (λ (f : ℕ → Ptr). f item) limit)
                  (s.place item))
                (s.turn item)
                (λ q inq ahead. (
                  ahead,
                  λ same.
                      let behind = passed.2 in
                      let heaps : q.0 ≡ o.0 = ap (λ (x : Object). x.0) same in
                      let places : q.1 ≡ o.1 = ap (λ (x : Object). x.1) same in
                      ground (arith, ahead, behind, heaps, places),
                ))
                (λ q inq now x lt.
                  ap (λ g. is_guarded g (object h₀ t b q + x)) guards
                  ∙ s.shown q inq
                      (Kept-before h₀ t b z v h mem s item o os (v.bump item) r passed.0 a kept
                        (λ c among.
                          subst (λ xs. contains (entry h₀ t b c) (map (entry h₀ t b) xs) ≡ true)
                            (sym e) (ground (arith, among)))
                        (λ c ahead. ahead) q inq now)
                      x lt),
          ),
        )

    -- The branch that takes the object at the bump pointer.
    pub allocate_in_bag-newest :
        (draws : Draws)
        → (v.bump (bit_and draws.bag_set 3)).0 < mapped_heaps
        → (v.free (bit_and draws.bag_set 3) ≡ []) ⊎ (bit_and draws.bag_set 31 ≡ 0)
        → Returns (allocate_in_bag h t b draws mem) (λ r.
          Granted h₀ t b z h mem (v.bump (bit_and draws.bag_set 3)) r
          × ((v' : View) × (v'.free ≡ v.free) × Served h₀ t b v' r.1 r.2))
    allocate_in_bag-newest draws room how =
        let item = bit_and draws.bag_set 3 in
        let os = v.free item in
        let o = v.bump item in
        let at = s.place item in
        let l = s.layout.laid_out in
        let bag = h.thread_bag t b in
        let ino : IsInBag h₀ t b o =
          (omega (arith, room), omega (arith, at.inside, l.count, s.layout.count)) in
        let mine : o.0 % 4 ≡ item = omega (arith, bit_and-mask 2 draws.bag_set, s.turn item) in
        let idle =
          s.untouched o ino
            (subst (λ k. Ahead (v.bump k) o) (sym mine) (inr (refl, omega arith))) in
        let out =
          passed-out h₀ t b z item o o os (s.passed item) ino (inr (inr (refl, omega arith))) in
        let kept : Kept h₀ t b v mem o =
          inr (inr (subst (λ k. Ahead (v.bump k) o) (sym mine) (inr (refl, omega arith)))) in
        let m =
          take_fresh-Moved h t b bag l item o.0 o.1 draws.guard mem at
            (paged-kept h₀ h t b z s.layout) in
        let p : Object = (m.heap, m.object) in
        let covers =
          Covers-kept h₀ h t b s.layout mem.guards _ o.0 (o.1 + 1) m.heap m.object m.covered in
        let shown : (x : ℕ)
            → x < (h₀.thread_bag t b).class_size
            → is_guarded (take_fresh h bag item draws.guard mem).2.guards (object h₀ t b o + x)
              ≡ false =
          bumped_shown h₀ t b z v h mem s item o p _ covers ino kept (λ k turn from to same.
            let heaps : o.0 ≡ k.0 = ap (λ (x : Object). x.0) same in
            let places : o.1 ≡ k.1 = ap (λ (x : Object). x.1) same in
            ground (arith, heaps, places, from)) in
        let class = KeepsLayout-class_size h₀ h t b s.layout in
        let pos = z.laid_out.class_pos in
        let last = (h₀.thread_bag t b).class_size - 1 in
        let canary : object_addr h bag o.0 o.1 + bag.class_size - 1 ≡ object h₀ t b o + last =
          omega (arith, s.layout.address o.0 o.1, class, pos) in
        let (r, run, (a, guards, bag')) =
          allocate_in_bag-fresh h s.layout.sized t b l item o.0 o.1 (omega arith)
            (omega (arith, at.inside, l.count)) draws mem (map (entry h₀ t b) os) (s.queue item) at
            (rw (s.layout.entry o.0 o.1) out) refl
            (elim how [
              | inl none_free ↦ inl (ap (map (entry h₀ t b)) none_free)
              | inr drawn ↦ inr drawn
            ])
            (kept-Mapped h₀ t b z h s.layout o.0 o.1 room (omega (arith, at.inside, l.count)))
            (ap (is_guarded (take_fresh h bag item draws.guard mem).2.guards) canary
              ∙ shown last (omega (arith, pos))) in
        (
          r,
          run,
          (
            granted h₀ t b z v h mem s item o _ r ino idle a
                (λ x lt. ap (λ g. is_guarded g (object h₀ t b o + x)) guards ∙ shown x lt)
                (λ c now.
                  fenced h₀ t b z v h mem s item p _ covers c
                    (ap (λ g. is_guarded g c) (sym guards) ∙ now)),
            (
              record { free = v.free; bump = update v.bump item p },
              refl,
              same_lists h₀ t b z v h mem s item p r.1 r.2 (
                  granted-Served h₀ t b z v h mem s item o os p r ino mine a
                    (ArePassed-later h₀ t b item o p os m.later (s.passed item))
                    (AtObject-header h r.1 t b item m.heap m.object a.same a.layout (
                      subst (λ (new : PerThreadBag). AtObject h new item m.heap m.object) (sym bag')
                        m.place))
                    (m.turn ∙ s.turn item)
                    (λ q inq ahead.
                      let later = m.later in
                      (
                        ground (arith, ahead, later),
                        λ same.
                            let heaps : q.0 ≡ o.0 = ap (λ (x : Object). x.0) same in
                            let places : q.1 ≡ o.1 = ap (λ (x : Object). x.1) same in
                            ground (arith, ahead, later, heaps, places),
                      ))
                    (λ q inq now x lt.
                      ap (λ g. is_guarded g (object h₀ t b q + x)) guards
                      ∙ bumped_shown h₀ t b z v h mem s item q p _ covers inq
                          (Kept-before h₀ t b z v h mem s item o os p r ino a kept
                            (λ c among. among)
                            (λ c ahead. let later = m.later in ground (arith, ahead, later)) q inq
                            now)
                          (λ k. skipped_apart h₀ t b z v h mem s item p q k r ino mine a inq now) x
                          lt)),
            ),
          ),
        )

    from_bump :
        (draws : Draws)
        → Returns (allocate_in_bag h t b draws mem) (λ r.
          Granted h₀ t b z h mem (v.bump (bit_and draws.bag_set 3)) r
          × ((v' : View) × (v'.free ≡ v.free) × Served h₀ t b v' r.1 r.2))
        → Returns (allocate_in_bag h t b draws mem) (Grants draws)
    from_bump draws (r, run, (got, (v', same, served))) =
        (r, run, (_, v', omega arith, got, served))

    cases :
        (draws : Draws) (os : List Object)
        → v.free (bit_and draws.bag_set 3) ≡ os
        → (v.bump (bit_and draws.bag_set 3)).0 < mapped_heaps
        → Returns (allocate_in_bag h t b draws mem) (Grants draws)
    cases draws [] e room = from_bump draws (allocate_in_bag-newest draws room (inl e))
    cases draws (o ∷ os) e room = elim (Bool-cases (bit_and draws.bag_set 31 == 0)) [
      | inl drawn ↦
          from_bump draws (allocate_in_bag-newest draws room (inr (ground (arith, drawn))))
      | inr not_drawn ↦
          let (r, run, (got, served)) =
            allocate_in_bag-oldest draws o os e (ground (arith, not_drawn)) in
          let passed =
            subst (ArePassed h₀ t b (bit_and draws.bag_set 3) (v.bump (bit_and draws.bag_set 3))) e
              (s.passed (bit_and draws.bag_set 3)) in
          let behind = passed.2 in (r, run, (o, _, ground (arith, behind), got, served))
    ]

    -- `allocateSmallObject` in a bag that serves a program, where the bump pointer of the drawn
    -- bag set item stands in one of the first 1022 heaps: whatever is drawn, the call returns an object of
    -- the bag that was not in use and now is, no other object comes into use or goes out of it, and
    -- the bag goes on to serve the program.
    pub allocate_in_bag-Served :
        (draws : Draws)
        → (v.bump (bit_and draws.bag_set 3)).0 < mapped_heaps
        → Returns (allocate_in_bag h t b draws mem) (Grants draws)
    allocate_in_bag-Served draws room = cases draws _ refl room
