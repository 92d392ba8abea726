-- ===== src/Bibop/Object/Served/Apart.antt =====
-- bibopheap.hh: the objects of a bag have shadow entries of their own, and those in the free lists are
-- not marked.
use free_guard.Base.{
  ℕ, ◌+◌, ◌*◌, ◌%◌, ◌<◌, ◌≤◌, ◌≡◌, ◌≢◌, ◌⊎◌, inl, inr, refl, sym, ap, ◌∙◌, arith, List, [], ◌∷◌,
  map, contains, true, false, ◌==◌, Bool-cases, leb, leb→le, block-lt, ne→==_false,
}
use free_guard.Links.{Ptr, Links, null}
use free_guard.Links.Seg.{Seg, Seg-frame, Agree, last}
use free_guard.Dlist.{Dlist}
use free_guard.Dlist.Queue.{IsQueue}
use free_guard.Xdefines.{alloc_sentinel}
use free_guard.Bibop.{BibopHeap}
use free_guard.Bibop.Layout.{shadow_addr, object_addr}
use free_guard.Bibop.Object.Free.{entry-above}
use free_guard.Bibop.Object.Served.{Object, entry, object, IsInBag, IsPlaced, ArePassed, Ahead}

-- Rows of places of size `w` that do not overlap.
rows :
    (k s c w n i m j x y : ℕ)
    → s + c * w ≤ k
    → i < c
    → j < c
    → x < w
    → y < w
    → n * k + s + i * w + x ≡ m * k + s + j * w + y
    → n ≤ m
rows k s c w n i m j x y room lt lt' small small' e =
    let short = block-lt i c w x lt small in
    let short' = block-lt j c w y lt' small' in
    elim (Bool-cases (leb n m)) [
      | inl le ↦ leb→le n m le
      | inr gt ↦
          absurd (omega (arith, block-lt m n k (s + j * w + y) (ground (arith, gt)) (omega arith)))
    ]

columns : (w i j x y : ℕ) → x < w → y < w → i * w + x ≡ j * w + y → i ≤ j
columns w i j x y small small' e = elim (Bool-cases (leb i j)) [
  | inl le ↦ leb→le i j le
  | inr gt ↦ absurd (omega (arith, block-lt j i w y (ground (arith, gt)) small'))
]

same_pair : (p q : Object) → p.0 ≡ q.0 → p.1 ≡ q.1 → p ≡ q
same_pair (n, i) (m, j) e f = rw (e, f) refl

-- A node of a segment leads to another one or to the end.
next_of :
    (m : Links) (p stop a : Ptr) (xs : List Ptr)
    → Seg m p stop xs
    → contains a xs ≡ true
    → (m a ≡ stop) ⊎ (contains (m a) xs ≡ true)
next_of m p stop a [] s h = absurd (ground (arith, h))
next_of m p stop a (x ∷ []) s h = let e : a ≡ x = ground (arith, h) in inl (ap m e ∙ s.2)
next_of m p stop a (x ∷ y ∷ r) s h = elim (Bool-cases (a == x)) [
  | inl e ↦
      let same : a ≡ x = ground (arith, e) in
      let to : m a ≡ y = ap m same ∙ s.2.0 in inr (rw to (ground arith))
  | inr e ↦ elim (next_of m (m x) stop a (y ∷ r) s.2 (ground (arith, e, h))) [
    | inl done ↦ inl done
    | inr more ↦ inr (ground (arith, more))
  ]
]

-- Two places of rows of `c` places of size `w` are different, and so is all that lies in them.
grid :
    (k s c w : ℕ) (p q : Object) (x y : ℕ)
    → s + c * w ≤ k
    → p.1 < c
    → q.1 < c
    → x < w
    → y < w
    → p.0 * k + s + p.1 * w + x ≡ q.0 * k + s + q.1 * w + y
    → p ≡ q
grid k s c w p q x y room inp inq small small' e =
    let le = rows k s c w p.0 p.1 q.0 q.1 x y room inp inq small small' e in
    let ge = rows k s c w q.0 q.1 p.0 p.1 y x room inq inp small' small (sym e) in
    let heaps : p.0 ≡ q.0 = omega arith in
    let level : p.1 * w + x ≡ q.1 * w + y = omega (arith, ap (λ (n : ℕ). n * k) heaps) in
    let le' = columns w p.1 q.1 x y small small' level in
    let ge' = columns w q.1 p.1 y x small' small (sym level) in same_pair p q heaps (omega arith)

pub IsQueue-frame :
    (m n : Links) (d : Dlist) (xs : List Ptr) → Agree xs m n → IsQueue m d xs → IsQueue n d xs
IsQueue-frame m n d xs same q = record {
  chain = Seg-frame m n d.next null xs same q.chain;
  tail = q.tail;
  distinct = q.distinct;
}

pub bag_room : (t b size : ℕ) → t < 128 → b < 32 → (t * 32 + b) * size + size ≤ 4096 * size
bag_room t b size thread usable = grind arith

-- An address that no object's entry has is in no list.
pub apart-out :
    (h₀ : BibopHeap) (t b j : ℕ) (bump : Object) (a : Ptr) (os : List Object)
    → ArePassed h₀ t b j bump os
    → ((p : Object) → IsInBag h₀ t b p → a ≢ entry h₀ t b p)
    → contains a (map (entry h₀ t b) os) ≡ false
apart-out h₀ t b j bump a [] ps apart = refl
apart-out h₀ t b j bump a (o ∷ os) ps apart =
    rw (ne→==_false a (entry h₀ t b o) (apart o ps.0)) (apart-out h₀ t b j bump a os ps.4 apart)

module _ (h₀ : BibopHeap) (t b : ℕ) (z : IsPlaced h₀ t b) where
  pub entry-injective :
      (p q : Object) → IsInBag h₀ t b p → IsInBag h₀ t b q → entry h₀ t b p ≡ entry h₀ t b q → p ≡ q
  unfolding shadow_addr
  entry-injective p q inp inq e =
      let bag = h₀.thread_bag t b in
      grid h₀.shadow_mem_size_per_heap_ceil bag.start_shadow_mem_offset bag.num_objects 8 p q 0 0
        z.laid_out.shadow_room inp.1 inq.1 (omega arith) (omega arith) (omega (arith, e))

  -- No byte belongs to two objects of the bag, in whatever heaps.
  pub byte-same :
      (p q : Object) (x y : ℕ)
      → p.1 < (h₀.thread_bag t b).num_objects
      → q.1 < (h₀.thread_bag t b).num_objects
      → x < (h₀.thread_bag t b).class_size
      → y < (h₀.thread_bag t b).class_size
      → object h₀ t b p + x ≡ object h₀ t b q + y
      → p ≡ q
  unfolding object_addr
  byte-same p q x y inp inq small small' e =
      let bag = h₀.thread_bag t b in
      let l = z.laid_out in
      let room : bag.start_offset + bag.num_objects * bag.class_size ≤ 4096 * h₀.bibop_bag_size =
        let bags : (t * 32 + b) * h₀.bibop_bag_size + h₀.bibop_bag_size ≤ 4096 * h₀.bibop_bag_size =
          bag_room t b h₀.bibop_bag_size l.thread (omega (arith, l.usable)) in
        omega (arith, l.start, l.room) in
      grid (4096 * h₀.bibop_bag_size) bag.start_offset bag.num_objects bag.class_size p q x y room
        inp inq small small' (omega (arith, e))

  pub byte-injective :
      (p q : Object) (x y : ℕ)
      → IsInBag h₀ t b p
      → IsInBag h₀ t b q
      → x < (h₀.thread_bag t b).class_size
      → y < (h₀.thread_bag t b).class_size
      → object h₀ t b p + x ≡ object h₀ t b q + y
      → p ≡ q
  byte-injective p q x y inp inq small small' e = byte-same p q x y inp.1 inq.1 small small' e

  pub entry-ne :
      (p q : Object) → IsInBag h₀ t b p → IsInBag h₀ t b q → p ≢ q → entry h₀ t b p ≢ entry h₀ t b q
  entry-ne p q inp inq ne e = ne (entry-injective p q inp inq e)

  pub entry-gt_one : (o : Object) → 1 < entry h₀ t b o
  unfolding shadow_addr
  entry-gt_one o = omega (arith, z.marks)

  -- The entry of the newest object of a free list is in the mapping.
  pub last-mapped :
      (j : ℕ) (bump o : Object) (os : List Object)
      → ArePassed h₀ t b j bump (o ∷ os)
      → (h₀.shadow_mem_begin ≤ last (map (entry h₀ t b) (o ∷ os)))
        × (last (map (entry h₀ t b) (o ∷ os)) + 8 ≤ h₀.shadow_mem_end)
  last-mapped j bump o [] ps =
      (entry-above h₀ (h₀.thread_bag t b) o.0 o.1, z.mapped o.0 o.1 ps.3 ps.0.1)
  last-mapped j bump o (p ∷ os) ps = last-mapped j bump p os ps.4

  -- An object of another bag set item, or one that the bump pointer has not passed, is in no list.
  pub passed-out :
      (j : ℕ) (bump o : Object) (os : List Object)
      → ArePassed h₀ t b j bump os
      → IsInBag h₀ t b o
      → (o.0 % 4 ≢ j) ⊎ Ahead bump o
      → contains (entry h₀ t b o) (map (entry h₀ t b) os) ≡ false
  passed-out j bump o [] ps ino how = refl
  passed-out j bump o (p ∷ os) ps ino how =
      let apart : o ≢ p = λ e.
        let turn = ps.1 in
        let behind = ps.2 in
        let heaps : o.0 ≡ p.0 = ap (λ (x : Object). x.0) e in
        let places : o.1 ≡ p.1 = ap (λ (x : Object). x.1) e in
        ground (arith, how, turn, behind, heaps, places) in
      rw (ne→==_false _ _ (entry-ne o p ino ps.0 apart)) (passed-out j bump o os ps.4 ino how)

  above : (a : Ptr) (os : List Object) → contains a (map (entry h₀ t b) os) ≡ true → 1 < a
  above a [] h = absurd (ground (arith, h))
  above a (o ∷ os) h = elim (Bool-cases (a == entry h₀ t b o)) [
    | inl e ↦ let same : a ≡ entry h₀ t b o = ground (arith, e) in omega (arith, entry-gt_one o)
    | inr e ↦ above a os (ground (arith, e, h))
  ]

  -- The entries in a free list are not marked as in use.
  pub queue-idle :
      (m : Links) (d : Dlist) (os : List Object) (a : Ptr)
      → IsQueue m d (map (entry h₀ t b) os)
      → contains a (map (entry h₀ t b) os) ≡ true
      → m a ≢ alloc_sentinel
  queue-idle m d os a q mem e = elim (next_of m d.next null a (map (entry h₀ t b) os) q.chain mem) [
    | inl done ↦ absurd (omega (arith, done, e))
    | inr more ↦ absurd (omega (arith, above (m a) os more, e))
  ]

  pub live-out :
      (m : Links) (d : Dlist) (os : List Object) (a : Ptr)
      → IsQueue m d (map (entry h₀ t b) os)
      → m a ≡ alloc_sentinel
      → contains a (map (entry h₀ t b) os) ≡ false
  live-out m d os a q live = elim (Bool-cases (contains a (map (entry h₀ t b) os))) [
    | inl e ↦ absurd (queue-idle m d os a q e live)
    | inr e ↦ e
  ]

  -- The free lists of two bag set items have no entry in common.
  pub lists_apart :
      (j k : ℕ) (bump bump' : Object) (os ps : List Object) (a : Ptr)
      → j ≢ k
      → ArePassed h₀ t b j bump os
      → ArePassed h₀ t b k bump' ps
      → contains a (map (entry h₀ t b) os) ≡ true
      → contains a (map (entry h₀ t b) ps) ≡ false
  lists_apart j k bump bump' [] ps a ne p q h = absurd (ground (arith, h))
  lists_apart j k bump bump' (o ∷ os) ps a ne p q h = elim (Bool-cases (a == entry h₀ t b o)) [
    | inl e ↦
        let same : a ≡ entry h₀ t b o = ground (arith, e) in
        rw same (passed-out k bump' o ps q p.0 (inl (λ turn. ne (sym p.1 ∙ turn))))
    | inr e ↦ lists_apart j k bump bump' os ps a ne p.4 q (ground (arith, e, h))
  ]
