-- ===== src/Bibop/Object/Served/Grant.antt =====
-- bibopheap.hh: what an allocation leaves of a bag that serves a program.
use free_guard.Base.{
  ◌+◌, ◌<◌, is_guarded, false, true, contains, Bool, if◌then◌else◌, ℕ, ◌%◌, ◌≡◌, ◌≢◌, inl, inr,
  refl, sym, ap, ◌∙◌, subst, arith, List, map, ◌==◌, Bool-cases, update, update-cases,
}
use free_guard.Links.{Ptr}
use free_guard.Links.Seg.{ne_of_mem}
use free_guard.Dlist.Queue.{IsQueue}
use free_guard.Xdefines.{alloc_sentinel}
use free_guard.Bibop.{BibopHeap, PerThreadBag, Memory, update_bag}
use free_guard.Bibop.Layout.{object_addr, shadow_addr}
use free_guard.Bibop.Bump.Order.{AtObject}
use free_guard.Bibop.Object.Allocate.{Allocated}
use free_guard.Bibop.Object.Served.{
  Object, View, entry, object, IsInBag, Live, IsPlaced, Served, ArePassed, Ahead, Kept,
}
use free_guard.Bibop.Object.Served.Guarded.{Fences}
use free_guard.Bibop.Object.Served.Apart.{entry-ne, passed-out}
use free_guard.Bibop.Object.Served.Change.{
  KeepsLayout-trans, KeepsLayout-class_size, canary_intact-kept, AtObject-kept, Object-cases,
  canary_of, canary-ne, queue-kept,
}

module _ (h₀ : BibopHeap) (t b : ℕ) (z : IsPlaced h₀ t b) where
  -- The program gets object `o`, which was not in use and now is; no other object comes into use or
  -- goes out of it, no byte but the object's canary has changed, every byte of the object can be
  -- accessed, and what is protected on the way is the guard behind the bag or belongs to its objects.
  pub record Granted (h : BibopHeap) (mem : Memory) (o : Object) (r : Ptr × BibopHeap × Memory)
      : Type 0 where
    pub address : r.0 ≡ object h₀ t b o
    pub inside : IsInBag h₀ t b o
    pub idle : mem.links (entry h₀ t b o) ≢ alloc_sentinel
    pub live : Live h₀ t b r.2 o
    pub others :
        (p : Object)
        → IsInBag h₀ t b p
        → p ≢ o
        → r.2.links (entry h₀ t b p) ≡ mem.links (entry h₀ t b p)
    pub frame : (a : Ptr) → a ≢ entry h₀ t b o → r.2.links a ≡ mem.links a
    pub bytes : (a : Ptr) → a ≢ canary_of h₀ t b z o → r.2.bytes a ≡ mem.bytes a
    pub shown :
        (x : ℕ)
        → x < (h₀.thread_bag t b).class_size
        → is_guarded r.2.guards (object h₀ t b o + x) ≡ false
    pub fences : Fences h₀ t b mem.guards r.2.guards
    pub table :
        (bag : PerThreadBag) × (r.1 ≡ record h { thread_bag = update_bag h.thread_bag t b bag })

  module _ (v : View) (h : BibopHeap) (mem : Memory) (s : Served h₀ t b v h mem) where
    -- What an allocation of object `o` leaves, in the terms of `h₀`.
    pub granted :
        (item : ℕ) (o : Object) (xs : List Ptr) (r : Ptr × BibopHeap × Memory)
        → IsInBag h₀ t b o
        → mem.links (entry h₀ t b o) ≢ alloc_sentinel
        → Allocated h t b item o.0 o.1 mem xs r
        → ((x : ℕ)
            → x < (h₀.thread_bag t b).class_size
            → is_guarded r.2.guards (object h₀ t b o + x) ≡ false)
        → Fences h₀ t b mem.guards r.2.guards
        → Granted h mem o r
    granted item o xs r ino idle a shown fences = record {
      address = a.object ∙ s.layout.address o.0 o.1;
      inside = ino;
      idle = idle;
      live = subst (λ p. r.2.links p ≡ alloc_sentinel) (s.layout.entry o.0 o.1) a.marked;
      others = λ p inp ne.
          a.frame (entry h₀ t b p)
            (λ e. entry-ne h₀ t b z p o inp ino ne (e ∙ s.layout.entry o.0 o.1));
      frame = λ c ne. a.frame c (λ e. ne (e ∙ s.layout.entry o.0 o.1));
      bytes = λ c ne. a.bytes c (λ e. ne (
          omega (
            arith,
            e,
            KeepsLayout-class_size h₀ h t b s.layout,
            a.object,
            s.layout.address o.0 o.1,
          )));
      shown = shown;
      fences = fences;
      table = a.table;
    }

    -- The state after an allocation: list `item` holds `os`, and its bump pointer stands at `p`.
    abbrev pub changed : ℕ → List Object → Object → View
    changed item os p = record { free = update v.free item os; bump = update v.bump item p }

    -- What is kept after the allocation of object `o` was kept before: all that is in use or freed, and
    -- what the bump pointer, which stands at `p` now, has not come to yet.
    pub Kept-before :
        (item : ℕ) (o : Object) (os : List Object) (p : Object) (r : Ptr × BibopHeap × Memory)
        → IsInBag h₀ t b o
        → Allocated h t b item o.0 o.1 mem (map (entry h₀ t b) os) r
        → Kept h₀ t b v mem o
        → ((q : Object)
            → contains (entry h₀ t b q) (map (entry h₀ t b) os) ≡ true
            → contains (entry h₀ t b q) (map (entry h₀ t b) (v.free item)) ≡ true)
        → ((q : Object) → Ahead p q → Ahead (v.bump item) q)
        → (q : Object) → IsInBag h₀ t b q
        → Kept h₀ t b (changed item os p) r.2 q
        → Kept h₀ t b v mem q
    Kept-before item o os p r ino a kept lists later q inq now = elim now [
      | inl live ↦ elim (Object-cases q o) [
        | inl same ↦ subst (Kept h₀ t b v mem) (sym same) kept
        | inr ne ↦
            let at = s.layout.entry o.0 o.1 in
            inl (
              sym (a.frame (entry h₀ t b q) (λ e. entry-ne h₀ t b z q o inq ino ne (e ∙ at)))
              ∙ live)
      ]
      | inr (inl listed) ↦ elim (Bool-cases (q.0 % 4 == item)) [
        | inr e ↦ inr (
            inl (
              subst
                (λ (c : Bool).
                  contains (entry h₀ t b q)
                    (map (entry h₀ t b) (if c then os else v.free (q.0 % 4)))
                  ≡ true)
                e listed))
        | inl e ↦
            let same : q.0 % 4 ≡ item = ground (arith, e) in
            let here =
              subst
                (λ (c : Bool).
                  contains (entry h₀ t b q)
                    (map (entry h₀ t b) (if c then os else v.free (q.0 % 4)))
                  ≡ true)
                e listed in
            inr (
              inl (
                subst (λ j. contains (entry h₀ t b q) (map (entry h₀ t b) (v.free j)) ≡ true)
                  (sym same) (lists q here)))
      ]
      | inr (inr ahead) ↦ elim (Bool-cases (q.0 % 4 == item)) [
        | inr e ↦
            inr (inr (subst (λ (c : Bool). Ahead (if c then p else v.bump (q.0 % 4)) q) e ahead))
        | inl e ↦
            let same : q.0 % 4 ≡ item = ground (arith, e) in
            let here = subst (λ (c : Bool). Ahead (if c then p else v.bump (q.0 % 4)) q) e ahead in
            inr (inr (subst (λ j. Ahead (v.bump j) q) (sym same) (later q here)))
      ]
    ]

    pub granted-Served :
        (item : ℕ) (o : Object) (os : List Object) (p : Object) (r : Ptr × BibopHeap × Memory)
        → IsInBag h₀ t b o
        → o.0 % 4 ≡ item
        → Allocated h t b item o.0 o.1 mem (map (entry h₀ t b) os) r
        → ArePassed h₀ t b item p os
        → AtObject r.1 (r.1.thread_bag t b) item p.0 p.1
        → p.0 % 4 ≡ item % 4
        → ((q : Object) → IsInBag h₀ t b q → Ahead p q → Ahead (v.bump item) q × (q ≢ o))
        → ((q : Object)
            → IsInBag h₀ t b q
            → Kept h₀ t b (changed item os p) r.2 q
            → (x : ℕ) → x < (h₀.thread_bag t b).class_size
            → is_guarded r.2.guards (object h₀ t b q + x) ≡ false)
        → Served h₀ t b (changed item os p) r.1 r.2
    granted-Served item o os p r ino mine a passed place turn beyond shown =
        let layout = KeepsLayout-trans h₀ h r.1 t b s.layout a.layout in
        let at = s.layout.entry o.0 o.1 in
        let frame : (c : Ptr) → c ≢ entry h₀ t b o → r.2.links c ≡ mem.links c =
          λ c ne. a.frame c (λ e. ne (e ∙ at)) in
        record {
          layout = layout;
          queue =
              update-cases
                (λ j xs.
                  IsQueue r.2.links ((r.1.thread_bag t b).freelist j) (map (entry h₀ t b) xs))
                v.free item os a.queue
                (λ j ne.
                  queue-kept h₀ t b z mem r.2 _ _ (v.free j) (a.lists j ne)
                    (λ c in_list. frame c (λ e.
                      let out =
                        passed-out h₀ t b z j (v.bump j) o (v.free j) (s.passed j) ino
                          (inl (λ same. ne (sym same ∙ mine))) in
                      ne_of_mem (entry h₀ t b o) c _ out in_list (sym e)))
                    (s.queue j));
          passed = λ j. elim (Bool-cases (j == item)) [
            | inl e ↦
                let same : j ≡ item = ground (arith, e) in
                rw e (subst (λ k. ArePassed h₀ t b k p os) (sym same) passed)
            | inr e ↦ rw e (s.passed j)
          ];
          place =
              update-cases (λ j q. AtObject r.1 (r.1.thread_bag t b) j q.0 q.1) v.bump item p place
                (λ j ne.
                  AtObject-kept h r.1 t b j _ _ s.layout.laid_out a.layout (a.same.others j ne).0
                    (a.same.others j ne).1 (s.place j));
          turn = update-cases (λ j q. q.0 % 4 ≡ j % 4) v.bump item p turn (λ j ne. s.turn j);
          untouched = λ q inq ahead. elim (Bool-cases (q.0 % 4 == item)) [
            | inl e ↦
                let same : q.0 % 4 ≡ item = ground (arith, e) in
                let here : Ahead p q =
                  subst (λ (c : Bool). Ahead (if c then p else v.bump (q.0 % 4)) q) e ahead in
                let (before, ne) = beyond q inq here in
                subst (λ x. x ≢ alloc_sentinel)
                  (sym (frame (entry h₀ t b q) (entry-ne h₀ t b z q o inq ino ne)))
                  (s.untouched q inq (subst (λ k. Ahead (v.bump k) q) (sym same) before))
            | inr e ↦
                let before : Ahead (v.bump (q.0 % 4)) q =
                  subst (λ (c : Bool). Ahead (if c then p else v.bump (q.0 % 4)) q) e ahead in
                let ne : q ≢ o = λ same. ground (arith, e, mine, ap (λ (x : Object). x.0) same) in
                subst (λ x. x ≢ alloc_sentinel)
                  (sym (frame (entry h₀ t b q) (entry-ne h₀ t b z q o inq ino ne)))
                  (s.untouched q inq before)
          ];
          intact = λ n i lt lt' marked.
              let inq : IsInBag h₀ t b (n, i) = (lt, omega (arith, lt', layout.count)) in
              let here = layout.address n i in
              let bag = r.1.thread_bag t b in
              elim (Object-cases (n, i) o) [
                | inl same ↦
                    canary_intact-kept _ r.0 bag (h.thread_bag t b) r.2 r.2
                      (here ∙ ap (object h₀ t b) same ∙ sym (a.object ∙ s.layout.address o.0 o.1))
                      a.same.class_size refl a.canary
                | inr ne ↦
                    let class = KeepsLayout-class_size h₀ h t b s.layout in
                    let was : mem.links (shadow_addr h (h.thread_bag t b) n i) ≡ alloc_sentinel =
                      ap mem.links (s.layout.entry n i)
                      ∙ sym (frame (entry h₀ t b (n, i)) (entry-ne h₀ t b z (n, i) o inq ino ne))
                      ∙ ap r.2.links (sym (layout.entry n i))
                      ∙ marked in
                    let apart = canary-ne h₀ t b z (n, i) o inq ino ne in
                    canary_intact-kept _ (object_addr h (h.thread_bag t b) n i) bag
                      (h.thread_bag t b) r.2 mem (a.layout.address n i) a.same.class_size
                      (a.bytes _ (λ e. apart (
                        omega (
                          arith,
                          e,
                          class,
                          s.layout.address n i,
                          a.object,
                          s.layout.address o.0 o.1,
                        ))))
                      (s.intact n i lt (omega (arith, lt', a.layout.count)) was)
              ];
          shown = shown;
        }
