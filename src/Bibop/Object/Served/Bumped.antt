-- ===== src/Bibop/Object/Served/Bumped.antt =====
-- bibopheap.hh: what can be accessed after the bump pointer of a bag that serves a program has moved on.
use free_guard.Base.{
  ◌+◌, is_guarded, contains, true, false, ==_refl, fun_ext, ℕ, ◌%◌, ◌<◌, ◌≡◌, ◌≢◌, inl, inr, refl,
  sym, ap, ◌∙◌, subst, arith, List, ◌∷◌, map, ◌==◌, Bool-cases, update,
}
use free_guard.Links.{Ptr}
use free_guard.Bibop.{BibopHeap, Memory}
use free_guard.Bibop.Object.Allocate.{Allocated}
use free_guard.Bibop.Object.Served.{
  Object, View, entry, IsInBag, IsPlaced, Served, Ahead, Kept, object,
}
use free_guard.Bibop.Object.Served.Apart.{passed-out, entry-ne, byte-same}
use free_guard.Bibop.Object.Served.Grant.{changed}
use free_guard.Bibop.Object.Served.Guarded.{Fences, end-apart}
use free_guard.Bibop.Bump.Covered.{Before, NotBefore, Covers}

module _ (h₀ : BibopHeap) (t b : ℕ) (z : IsPlaced h₀ t b) where
  module _ (v : View) (h : BibopHeap) (mem : Memory) (s : Served h₀ t b v h mem) where
    pub listed-Kept :
        (item : ℕ) (o : Object) (os : List Object)
        → v.free item ≡ o ∷ os
        → o.0 % 4 ≡ item
        → Kept h₀ t b v mem o
    listed-Kept item o os e turn = inr (
        inl (
          subst (λ j. contains (entry h₀ t b o) (map (entry h₀ t b) (v.free j)) ≡ true) (sym turn)
            (subst (λ xs. contains (entry h₀ t b o) (map (entry h₀ t b) xs) ≡ true) (sym e)
              (ground arith))))

    update_same : (item j : ℕ) → update v.free item (v.free item) j ≡ v.free j
    update_same item j = elim (Bool-cases (j == item)) [
      | inl e ↦ let same : j ≡ item = ground (arith, e) in rw e (ap v.free (sym same))
      | inr e ↦ rw e refl
    ]

    -- Putting a list where it is changes nothing.
    pub same_lists :
        (item : ℕ) (p : Object) (h' : BibopHeap) (mem' : Memory)
        → Served h₀ t b (changed h₀ t b z v h mem s item (v.free item) p) h' mem'
        → Served h₀ t b (record { free = v.free; bump = update v.bump item p }) h' mem'
    same_lists item p h' mem' served =
        let f : update v.free item (v.free item) ≡ v.free = fun_ext (update_same item) in
        subst (λ free. Served h₀ t b (record { free = free; bump = update v.bump item p }) h' mem')
          f served

    pub fenced :
        (item : ℕ) (p : Object) (guards : List (Ptr × ℕ))
        → Covers h₀
            (h₀.thread_bag t b)
            mem.guards
            guards
            (v.bump item).0
            ((v.bump item).1 + 1)
            p.0
            p.1
        → Fences h₀ t b mem.guards guards
    fenced item p guards covers a now = elim (covers a now) [
      | inl was ↦ inl was
      | inr (inl end) ↦ inr (inl end)
      | inr (inr (m, k, y, turn, from, to, inside, small, at)) ↦
          inr (inr ((m, k), y, inside, small, at))
    ]

    -- After the bump pointer has moved on, every byte of what is kept can be accessed.
    pub bumped_shown :
        (item : ℕ) (q : Object) (p : Object) (guards : List (Ptr × ℕ))
        → Covers h₀
            (h₀.thread_bag t b)
            mem.guards
            guards
            (v.bump item).0
            ((v.bump item).1 + 1)
            p.0
            p.1
        → IsInBag h₀ t b q
        → Kept h₀ t b v mem q
        → ((k : Object)
            → k.0 % 4 ≡ (v.bump item).0 % 4
            → NotBefore (v.bump item).0 ((v.bump item).1 + 1) k.0 k.1
            → Before k.0 k.1 p.0 p.1
            → q ≢ k)
        → (x : ℕ) → x < (h₀.thread_bag t b).class_size
        → is_guarded guards (object h₀ t b q + x) ≡ false
    bumped_shown item q p guards covers inq kept apart x small =
        elim (Bool-cases (is_guarded guards (object h₀ t b q + x))) [
          | inr e ↦ e
          | inl e ↦ elim (covers (object h₀ t b q + x) e) [
            | inl was ↦
                absurd (let not_was = s.shown q inq kept x small in ground (arith, was, not_was))
            | inr (inl end) ↦ absurd (end-apart h₀ t b t b z z q x inq.1 small end)
            | inr (inr (m, k, y, turn, from, to, inside, small', at)) ↦ absurd (
                apart (m, k) turn from to
                  (byte-same h₀ t b z q (m, k) x y inq.1 inside small small' at))
          ]
        ]

    -- An object that is kept after the bump pointer has moved on is not one that it skipped.
    pub skipped_apart :
        (item : ℕ) (p q k : Object) (r : Ptr × BibopHeap × Memory)
        → IsInBag h₀ t b (v.bump item)
        → (v.bump item).0 % 4 ≡ item
        → Allocated h t b item
            (v.bump item).0
            (v.bump item).1
            mem
            (map (entry h₀ t b) (v.free item))
            r
        → IsInBag h₀ t b q
        → Kept h₀ t b (changed h₀ t b z v h mem s item (v.free item) p) r.2 q
        → k.0 % 4 ≡ (v.bump item).0 % 4
        → NotBefore (v.bump item).0 ((v.bump item).1 + 1) k.0 k.1
        → Before k.0 k.1 p.0 p.1
        → q ≢ k
    skipped_apart item p q k r ino mine a inq kept turn from to same =
        let heaps : q.0 ≡ k.0 = ap (λ (x : Object). x.0) same in
        let places : q.1 ≡ k.1 = ap (λ (x : Object). x.1) same in
        let home : q.0 % 4 ≡ item = ap (λ (n : ℕ). n % 4) heaps ∙ turn ∙ mine in
        let ahead : Ahead (v.bump item) q = ground (arith, heaps, places, from) in
        elim kept [
          | inl live ↦
              let ne : q ≢ v.bump item = λ e.
                let heaps' : q.0 ≡ (v.bump item).0 = ap (λ (x : Object). x.0) e in
                let places' : q.1 ≡ (v.bump item).1 = ap (λ (x : Object). x.1) e in
                ground (arith, heaps, places, heaps', places', from) in
              s.untouched q inq (subst (λ j. Ahead (v.bump j) q) (sym home) ahead) (
                sym (
                  a.frame (entry h₀ t b q) (λ e.
                    entry-ne h₀ t b z q (v.bump item) inq ino ne
                      (e ∙ s.layout.entry (v.bump item).0 (v.bump item).1)))
                ∙ live)
          | inr (inl listed) ↦
              let among : contains (entry h₀ t b q) (map (entry h₀ t b) (v.free item)) ≡ true =
                subst (λ os. contains (entry h₀ t b q) (map (entry h₀ t b) os) ≡ true)
                  (update_same item (q.0 % 4) ∙ ap v.free home) listed in
              let out =
                passed-out h₀ t b z item (v.bump item) q (v.free item) (s.passed item) inq
                  (inr ahead) in
              ground (arith, among, out)
          | inr (inr beyond) ↦
              let here : update v.bump item p (q.0 % 4) ≡ p =
                ap (update v.bump item p) home ∙ rw (==_refl item) refl in
              let later : Ahead p q = subst (λ x. Ahead x q) here beyond in
              ground (arith, later, to, heaps, places)
        ]
