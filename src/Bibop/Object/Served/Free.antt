-- ===== src/Bibop/Object/Served/Free.antt =====
-- bibopheap.hh: `freeSmallObject` on a bag that serves a program.
use free_guard.Base.{
  Bool, Bool-cases, ◌==◌, if◌then◌else◌, true, is_guarded, ℕ, ◌+◌, ◌-◌, ◌%◌, ◌<◌, ◌≡◌, ◌≢◌, ◌⊎◌,
  inl, inr, refl, sym, ap, ◌∙◌, subst, arith, List, [], ◌∷◌, ◌++◌, map, contains, contains-append,
  false, ne→==_false, ==_refl, update, update-cases, Returns,
}
use free_guard.Links.{Ptr}
use free_guard.Links.Seg.{ne_of_mem}
use free_guard.Dlist.Queue.{IsQueue}
use free_guard.Xdefines.{alloc_sentinel}
use free_guard.Bibop.{BibopHeap, PerThreadBag, Memory, update_bag}
use free_guard.Bibop.Layout.{object_addr, shadow_addr, mapped_heaps}
use free_guard.Bibop.Layout.Keep.{KeepsLayout}
use free_guard.Bibop.Object.{free_small_object}
use free_guard.Bibop.Object.Free.Outcome.{Freed, free_small_object-Freed}
use free_guard.Bibop.Object.Served.{
  Object, View, entry, object, IsInBag, Live, IsPlaced, Served, ArePassed, Ahead, Passed, Kept,
}
use free_guard.Bibop.Object.Served.Apart.{
  apart-out, entry-ne, entry-gt_one, queue-idle, live-out, lists_apart,
}
use free_guard.Bibop.Object.Served.Change.{
  kept-Mapped, kept-Shown, tail_touched, KeepsLayout-trans, canary_intact-kept, AtObject-kept,
  queue-kept,
}

map-last :
    (f : Object → Ptr) (os : List Object) (o : Object) → map f (os ++ o ∷ []) ≡ map f os ++ f o ∷ []
map-last f [] o = refl
map-last f (p ∷ os) o = ap (λ xs. f p ∷ xs) (map-last f os o)

ArePassed-last :
    (h₀ : BibopHeap) (t b j : ℕ) (bump o : Object) (os : List Object)
    → ArePassed h₀ t b j bump os
    → IsInBag h₀ t b o
    → o.0 % 4 ≡ j
    → Passed bump o
    → o.0 < mapped_heaps
    → ArePassed h₀ t b j bump (os ++ o ∷ [])
ArePassed-last h₀ t b j bump o [] ps ino turn behind near = (ino, turn, behind, near, tt)
ArePassed-last h₀ t b j bump o (p ∷ os) ps ino turn behind near =
    (ps.0, ps.1, ps.2, ps.3, ArePassed-last h₀ t b j bump o os ps.4 ino turn behind near)

-- The state after the free: the object is the newest of its free list.
abbrev pub freed_view : View → Object → View
freed_view v o = record {
  free = update v.free (o.0 % 4) (v.free (o.0 % 4) ++ o ∷ []);
  bump = v.bump;
}

-- A node behind others stands in a list as in front of them.
front : (a x : Ptr) (xs : List Ptr) → contains a (xs ++ x ∷ []) ≡ contains a (x ∷ xs)
front a x xs = ground (arith, contains-append a xs (x ∷ []))

order : (bump o : Object) → Passed bump o ⊎ Ahead bump o
order bump o = ground arith

module _ (h₀ : BibopHeap) (t b : ℕ) (z : IsPlaced h₀ t b) where
  -- Object `o` is no longer in use, no other object of the bag comes into use or goes out of it, and
  -- no byte of the heap has changed.
  pub record Released (h : BibopHeap) (mem : Memory) (o : Object) (r : BibopHeap × Memory)
      : Type 0 where
    pub idle : r.1.links (entry h₀ t b o) ≢ alloc_sentinel
    pub others :
        (p : Object)
        → IsInBag h₀ t b p
        → p ≢ o
        → (Live h₀ t b r.1 p → Live h₀ t b mem p) × (Live h₀ t b mem p → Live h₀ t b r.1 p)
    pub bytes : r.1.bytes ≡ mem.bytes
    pub guards : r.1.guards ≡ mem.guards
    pub frame :
        (a : Ptr)
        → ((p : Object) → IsInBag h₀ t b p → a ≢ entry h₀ t b p)
        → r.1.links a ≡ mem.links a
    pub table :
        (bag : PerThreadBag) × (r.0 ≡ record h { thread_bag = update_bag h.thread_bag t b bag })

  module _ (v : View) (h : BibopHeap) (mem : Memory) (s : Served h₀ t b v h mem) (o : Object)
      (ino : IsInBag h₀ t b o) (live : Live h₀ t b mem o) (far : o.0 + 8 < mapped_heaps) where
    abbrev list : ℕ → List Ptr
    list j = map (entry h₀ t b) (v.free j)

    -- The bump pointer has passed an object in use.
    behind : Passed (v.bump (o.0 % 4)) o
    behind = elim (order (v.bump (o.0 % 4)) o) [
      | inl passed ↦ passed
      | inr ahead ↦ absurd (s.untouched o ino ahead live)
    ]

    module _ (r : BibopHeap × Memory)
        (freed : Freed h s.layout.sized t b s.layout.laid_out o.0 o.1 ino.0
          (omega (arith, ino.1, s.layout.count))
          mem
          (list (o.0 % 4))
          r) where
      layout : KeepsLayout h₀ t b r.0
      layout = KeepsLayout-trans h₀ h r.0 t b s.layout freed.layout

      newest :
          IsQueue r.1.links
            ((r.0.thread_bag t b).freelist (o.0 % 4))
            (map (entry h₀ t b) (v.free (o.0 % 4) ++ o ∷ []))
      newest =
          subst (IsQueue r.1.links ((r.0.thread_bag t b).freelist (o.0 % 4)))
            (ap (λ x. list (o.0 % 4) ++ x ∷ []) (s.layout.entry o.0 o.1)
              ∙ sym (map-last (entry h₀ t b) (v.free (o.0 % 4)) o))
            freed.queue

      -- The entries that are not in the list, after the free, are as before.
      outside :
          (a : Ptr)
          → contains a (map (entry h₀ t b) (v.free (o.0 % 4) ++ o ∷ [])) ≡ false
          → r.1.links a ≡ mem.links a
      outside a out =
          let x = entry h₀ t b o in
          freed.frame a (
            ap (λ y. contains a (y ∷ list (o.0 % 4))) (s.layout.entry o.0 o.1)
            ∙ sym (front a x (list (o.0 % 4)))
            ∙ ap (contains a) (sym (map-last (entry h₀ t b) (v.free (o.0 % 4)) o))
            ∙ out)

      -- An object that is in use after the free was in use before, and its entry is outside.
      live-outside :
          (p : Object)
          → r.1.links (entry h₀ t b p) ≡ alloc_sentinel
          → contains (entry h₀ t b p) (map (entry h₀ t b) (v.free (o.0 % 4) ++ o ∷ [])) ≡ false
      live-outside p now =
          live-out h₀ t b z r.1.links _ (v.free (o.0 % 4) ++ o ∷ []) (entry h₀ t b p) newest now

      apart_last :
          (a : Ptr)
          → a ≢ entry h₀ t b o
          → contains a (list (o.0 % 4)) ≡ false
          → contains a (map (entry h₀ t b) (v.free (o.0 % 4) ++ o ∷ [])) ≡ false
      apart_last a ne out =
          ap (contains a) (map-last (entry h₀ t b) (v.free (o.0 % 4)) o)
          ∙ front a (entry h₀ t b o) (list (o.0 % 4))
          ∙ rw (ne→==_false a (entry h₀ t b o) ne) out

      released : Released h mem o r
      released = record {
        idle =
            queue-idle h₀ t b z r.1.links _ (v.free (o.0 % 4) ++ o ∷ []) (entry h₀ t b o) newest (
              ap (contains (entry h₀ t b o)) (map-last (entry h₀ t b) (v.free (o.0 % 4)) o)
              ∙ front (entry h₀ t b o) (entry h₀ t b o) (list (o.0 % 4))
              ∙ rw (==_refl (entry h₀ t b o)));
        others = λ p inp ne. (
          λ now. sym (outside _ (live-outside p now)) ∙ now,
          λ was.
              outside _ (
                apart_last _ (entry-ne h₀ t b z p o inp ino ne)
                  (live-out h₀ t b z mem.links _ (v.free (o.0 % 4)) _ (s.queue (o.0 % 4)) was))
              ∙ was,
        );
        bytes = freed.bytes;
        guards = freed.guards;
        frame = λ a apart. outside a (
            apart_last a (apart o ino)
              (apart-out h₀ t b (o.0 % 4) _ a (v.free (o.0 % 4)) (s.passed (o.0 % 4)) apart));
        table = freed.table;
      }

      was_listed :
          (q : Object)
          → IsInBag h₀ t b q
          → contains (entry h₀ t b q) (map (entry h₀ t b) ((freed_view v o).free (q.0 % 4))) ≡ true
          → Kept h₀ t b v mem q
      was_listed q inq listed = elim (Bool-cases (q.0 % 4 == o.0 % 4)) [
        | inr e ↦ inr (
            inl (
              subst
                (λ (c : Bool).
                  contains (entry h₀ t b q) (
                    map (entry h₀ t b) (if c then v.free (o.0 % 4) ++ o ∷ [] else v.free (q.0 % 4)))
                  ≡ true)
                e listed))
        | inl e ↦
            let same : q.0 % 4 ≡ o.0 % 4 = ground (arith, e) in
            let here : contains (entry h₀ t b q) (entry h₀ t b o ∷ list (o.0 % 4)) ≡ true =
              sym (front (entry h₀ t b q) (entry h₀ t b o) (list (o.0 % 4)))
              ∙ ap (contains (entry h₀ t b q)) (sym (map-last (entry h₀ t b) (v.free (o.0 % 4)) o))
              ∙ subst
                  (λ (c : Bool).
                    contains (entry h₀ t b q) (
                      map (entry h₀ t b)
                        (if c then v.free (o.0 % 4) ++ o ∷ [] else v.free (q.0 % 4)))
                    ≡ true)
                  e listed in
            elim (Bool-cases (entry h₀ t b q == entry h₀ t b o)) [
              | inl this ↦
                  let at : entry h₀ t b q ≡ entry h₀ t b o = ground (arith, this) in
                  inl (ap mem.links at ∙ live)
              | inr another ↦ inr (
                  inl (
                    subst (λ j. contains (entry h₀ t b q) (list j) ≡ true) (sym same)
                      (ground (arith, here, another))))
            ]
      ]

      -- What the program has or may get after the free it had or could get before.
      was-Kept :
          (q : Object) → IsInBag h₀ t b q → Kept h₀ t b (freed_view v o) r.1 q → Kept h₀ t b v mem q
      was-Kept q inq (inl now) = inl (sym (outside _ (live-outside q now)) ∙ now)
      was-Kept q inq (inr (inl listed)) = was_listed q inq listed
      was-Kept q inq (inr (inr ahead)) = inr (inr ahead)

      freed-Served : Served h₀ t b (freed_view v o) r.0 r.1
      freed-Served = record {
        layout = layout;
        queue =
            update-cases
              (λ j xs. IsQueue r.1.links ((r.0.thread_bag t b).freelist j) (map (entry h₀ t b) xs))
              v.free (o.0 % 4) (v.free (o.0 % 4) ++ o ∷ []) newest
              (λ j ne.
                queue-kept h₀ t b z mem r.1 _ _ (v.free j) (freed.lists j ne)
                  (λ c in_list. outside c (
                    apart_last c
                      (λ e.
                        ne_of_mem (entry h₀ t b o) c (list j)
                          (live-out h₀ t b z mem.links _ (v.free j) _ (s.queue j) live) in_list
                          (sym e))
                      (lists_apart h₀ t b z j (o.0 % 4) _ _ (v.free j) (v.free (o.0 % 4)) c ne
                        (s.passed j) (s.passed (o.0 % 4)) in_list)))
                  (s.queue j));
        passed =
            update-cases (λ j xs. ArePassed h₀ t b j (v.bump j) xs) v.free (o.0 % 4)
              (v.free (o.0 % 4) ++ o ∷ [])
              (ArePassed-last h₀ t b (o.0 % 4) _ o _ (s.passed (o.0 % 4)) ino refl behind
                (omega arith))
              (λ j ne. s.passed j);
        place = λ j.
            AtObject-kept h r.0 t b j _ _ s.layout.laid_out freed.layout
              (ap (λ (f : ℕ → Ptr). f j) freed.position) (ap (λ (f : ℕ → Ptr). f j) freed.limit)
              (s.place j);
        turn = s.turn;
        untouched = λ q inq ahead now.
            let same = outside _ (live-outside q now) in s.untouched q inq ahead (sym same ∙ now);
        intact = λ n i lt lt' marked.
            let at = layout.entry n i in
            let now : r.1.links (entry h₀ t b (n, i)) ≡ alloc_sentinel =
              ap r.1.links (sym at) ∙ marked in
            let was : mem.links (shadow_addr h (h.thread_bag t b) n i) ≡ alloc_sentinel =
              ap mem.links (s.layout.entry n i) ∙ sym (outside _ (live-outside (n, i) now)) ∙ now in
            canary_intact-kept _ (object_addr h (h.thread_bag t b) n i) _ (h.thread_bag t b) r.1 mem
              (freed.layout.address n i) freed.class_size
              (ap
                (λ (f : Ptr → ℕ).
                  f (object_addr h (h.thread_bag t b) n i + (h.thread_bag t b).class_size - 1))
                freed.bytes)
              (s.intact n i lt (omega (arith, lt', freed.layout.count)) was);
        shown = λ q inq kept x lt.
            ap (λ g. is_guarded g (object h₀ t b q + x)) freed.guards
            ∙ s.shown q inq (was-Kept q inq kept) x lt;
      }

    -- `freeSmallObject` of an object in use of a bag that serves a program, with eight more
    -- heaps in the mapping behind its own: the call returns, the object is no longer in use, no other object comes into
    -- use or goes out of it, no byte of the heap has changed, the object is the newest of the free
    -- list of its bag set item, and the bag goes on to serve the program.
    pub free_small_object-Served :
        Returns
          (free_small_object h (object h₀ t b o) mem)
          (λ r. Released h mem o r × Served h₀ t b (freed_view v o) r.0 r.1)
    free_small_object-Served =
        let at = s.layout.entry o.0 o.1 in
        let (r, run, freed) =
          free_small_object-Freed h s.layout.sized t b s.layout.laid_out o.0 o.1 ino.0
            (omega (arith, ino.1, s.layout.count)) mem (list (o.0 % 4)) (s.queue (o.0 % 4))
            (λ e. ground (arith, e, at, entry-gt_one h₀ t b z o))
            (rw at (live-out h₀ t b z mem.links _ (v.free (o.0 % 4)) _ (s.queue (o.0 % 4)) live))
            far (kept-Mapped h₀ t b z h s.layout) (kept-Shown h₀ t b z v h mem s)
            (tail_touched h₀ t b z h s.layout mem _ (o.0 % 4) (v.bump (o.0 % 4)) (v.free (o.0 % 4))
              (s.passed (o.0 % 4)) (s.queue (o.0 % 4)))
            s.intact (ap mem.links at ∙ live) in
        (
          r,
          ap (λ a. free_small_object h a mem) (sym (s.layout.address o.0 o.1)) ∙ run,
          (released r freed, freed-Served r freed),
        )
