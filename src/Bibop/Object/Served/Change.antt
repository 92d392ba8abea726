-- ===== src/Bibop/Object/Served/Change.antt =====
-- bibopheap.hh: what one operation on a bag leaves of its other objects, lists and bump pointers.
use free_guard.Base.{
  ok, is_guarded, ℕ, ◌+◌, ◌-◌, ◌%◌, ◌≡◌, ◌≢◌, inl, inr, refl, sym, ap, ◌∙◌, arith, ◌==◌, ◌&&◌,
  Bool-cases, true, contains, map, List, ◌∷◌, [], ◌⊎◌,
}
use free_guard.Links.{Ptr}
use free_guard.Dlist.{Dlist}
use free_guard.Dlist.Queue.{IsQueue, is_dll_empty_lem, is_dll_empty-cons}
use free_guard.Bibop.{BibopHeap, PerThreadBag, Memory, touch_entry-ok}
use free_guard.Bibop.Layout.{IsLaidOut, object_addr}
use free_guard.Bibop.Layout.Keep.{KeepsLayout}
use free_guard.Bibop.Bump.Order.{AtObject, SameBag}
use free_guard.Bibop.Bump.Frame.{object_addr-SameBag}
use free_guard.Bibop.Bump.Covered.{Before}
use free_guard.Bibop.Object.{canary_intact, touch_tail}
use free_guard.Bibop.Object.Free.{Mapped, Shown}
use free_guard.Bibop.Object.Served.{
  Object, View, Served, entry, object, IsInBag, IsPlaced, ArePassed,
}
use free_guard.Bibop.Object.Served.Apart.{IsQueue-frame, byte-injective, last-mapped}

pub KeepsLayout-trans :
    (h₀ h r : BibopHeap) (t b : ℕ)
    → KeepsLayout h₀ t b h
    → KeepsLayout h t b r
    → KeepsLayout h₀ t b r
KeepsLayout-trans h₀ h r t b p q = record {
  sized = q.sized;
  laid_out = q.laid_out;
  address = λ n i. q.address n i ∙ p.address n i;
  entry = λ n i. q.entry n i ∙ p.entry n i;
  shadow_begin = q.shadow_begin ∙ p.shadow_begin;
  shadow_end = q.shadow_end ∙ p.shadow_end;
  count = q.count ∙ p.count;
  guardsize = q.guardsize ∙ p.guardsize;
}

pub KeepsLayout-refl : (h₀ : BibopHeap) (t b : ℕ) → IsPlaced h₀ t b → KeepsLayout h₀ t b h₀
KeepsLayout-refl h₀ t b z = record {
  sized = z.sized;
  laid_out = z.laid_out;
  address = λ n i. refl;
  entry = λ n i. refl;
  shadow_begin = refl;
  shadow_end = refl;
  count = refl;
  guardsize = refl;
}

-- A bump pointer that an operation did not move stands where it stood.
pub AtObject-kept :
    (h r : BibopHeap) (t b j n i : ℕ)
    → IsLaidOut h t b (h.thread_bag t b)
    → KeepsLayout h t b r
    → (r.thread_bag t b).position j ≡ (h.thread_bag t b).position j
    → (r.thread_bag t b).last_of_cur_bag j ≡ (h.thread_bag t b).last_of_cur_bag j
    → AtObject h (h.thread_bag t b) j n i
    → AtObject r (r.thread_bag t b) j n i
AtObject-kept h r t b j n i l k position limit at =
    let last : (r.thread_bag t b).last_object_index ≡ (h.thread_bag t b).last_object_index =
      omega (arith, k.laid_out.count, k.count, l.count) in
    record {
      position = position ∙ at.position ∙ sym (k.address n i);
      limit =
          limit
          ∙ at.limit
          ∙ ap (object_addr h (h.thread_bag t b) n) (sym last)
          ∙ sym (k.address n (r.thread_bag t b).last_object_index);
      inside = rw last at.inside;
    }

pub KeepsLayout-class_size :
    (h r : BibopHeap) (t b : ℕ)
    → KeepsLayout h t b r
    → (r.thread_bag t b).class_size ≡ (h.thread_bag t b).class_size
unfolding object_addr
KeepsLayout-class_size h r t b k = omega (arith, k.address 0 0, k.address 0 1)

pub paged-kept :
    (h₀ h : BibopHeap) (t b : ℕ)
    → IsPlaced h₀ t b
    → KeepsLayout h₀ t b h
    → (n : ℕ) → object_addr h (h.thread_bag t b) n (h.thread_bag t b).num_objects % 4096 ≡ 0
paged-kept h₀ h t b z k n =
    ap (λ (a : ℕ). a % 4096)
      (k.address n (h.thread_bag t b).num_objects
        ∙ ap (object_addr h₀ (h₀.thread_bag t b) n) k.count)
    ∙ z.paged n

-- The place of a bump pointer, in the heap after the operation.
pub AtObject-header :
    (h r : BibopHeap) (t b item n i : ℕ)
    → SameBag item (h.thread_bag t b) (r.thread_bag t b)
    → KeepsLayout h t b r
    → AtObject h (r.thread_bag t b) item n i
    → AtObject r (r.thread_bag t b) item n i
AtObject-header h r t b item n i same k at =
    let to = λ (j : ℕ).
      (object_addr-SameBag h item n j (h.thread_bag t b) (r.thread_bag t b) same).0
      ∙ sym (k.address n j) in
    record {
      position = at.position ∙ to i;
      limit = at.limit ∙ to (r.thread_bag t b).last_object_index;
      inside = at.inside;
    }

-- What one bump pointer has passed, a later one has too.
pub ArePassed-later :
    (h₀ : BibopHeap) (t b j : ℕ) (p q : Object) (os : List Object)
    → Before p.0 p.1 q.0 q.1
    → ArePassed h₀ t b j p os
    → ArePassed h₀ t b j q os
ArePassed-later h₀ t b j p q [] later ps = tt
ArePassed-later h₀ t b j p q (o ∷ os) later ps = (
  ps.0,
  ps.1,
  (let behind = ps.2 in ground (arith, later, behind)),
  ps.3,
  ArePassed-later h₀ t b j p q os later ps.4,
)

pub canary_intact-kept :
    (addr addr' : Ptr) (bag bag' : PerThreadBag) (mem mem' : Memory)
    → addr ≡ addr'
    → bag.class_size ≡ bag'.class_size
    → mem.bytes (addr' + bag'.class_size - 1) ≡ mem'.bytes (addr' + bag'.class_size - 1)
    → canary_intact addr' bag' mem' ≡ true
    → canary_intact addr bag mem ≡ true
unfolding canary_intact
canary_intact-kept addr addr' bag bag' mem mem' e c bytes h = rw (e, c, bytes) h

pub Object-cases : (p o : Object) → (p ≡ o) ⊎ (p ≢ o)
Object-cases (n, i) (m, j) = elim (Bool-cases ((n == m) && (i == j))) [
  | inl e ↦
      let heaps : n ≡ m = ground (arith, e) in
      let places : i ≡ j = ground (arith, e) in inl (rw (heaps, places) refl)
  | inr e ↦ inr (λ same.
      let heaps : n ≡ m = ap (λ (x : Object). x.0) same in
      let places : i ≡ j = ap (λ (x : Object). x.1) same in ground (arith, e, heaps, places))
]

module _ (h₀ : BibopHeap) (t b : ℕ) (z : IsPlaced h₀ t b) where
  -- Where the canary of an object is.
  abbrev pub canary_of : Object → Ptr
  canary_of o = object h₀ t b o + (h₀.thread_bag t b).class_size - 1

  pub canary-ne :
      (p o : Object) → IsInBag h₀ t b p → IsInBag h₀ t b o → p ≢ o → canary_of p ≢ canary_of o
  canary-ne p o inp ino ne e =
      let last = (h₀.thread_bag t b).class_size - 1 in
      let pos = z.laid_out.class_pos in
      ne (
        byte-injective h₀ t b z p o last last inp ino (omega arith) (omega arith)
          (omega (arith, e)))

  -- A free list none of whose nodes was written.
  pub queue-kept :
      (mem mem' : Memory) (list list' : _) (os : List Object)
      → list' ≡ list
      → ((a : Ptr) → contains a (map (entry h₀ t b) os) ≡ true → mem'.links a ≡ mem.links a)
      → IsQueue mem.links list (map (entry h₀ t b) os)
      → IsQueue mem'.links list' (map (entry h₀ t b) os)
  queue-kept mem mem' list list' os e same q = rw e (IsQueue-frame _ _ list _ same q)

  -- The entries of the first heaps are in the mapping all along.
  pub kept-Mapped : (h : BibopHeap) → KeepsLayout h₀ t b h → Mapped h (h.thread_bag t b)
  kept-Mapped h k n i lt lt' =
      omega (arith, k.entry n i, k.shadow_end, z.mapped n i lt (omega (arith, lt', k.count)))

  -- The canary of an object in use can be accessed.
  pub kept-Shown :
      (v : View) (h : BibopHeap) (mem : Memory)
      → Served h₀ t b v h mem
      → Shown h (h.thread_bag t b) mem
  kept-Shown v h mem s n i lt lt' live =
      let class = KeepsLayout-class_size h₀ h t b s.layout in
      let pos = z.laid_out.class_pos in
      let last = (h₀.thread_bag t b).class_size - 1 in
      let at : object_addr h (h.thread_bag t b) n i + (h.thread_bag t b).class_size - 1
          ≡ object h₀ t b (n, i) + last =
        omega (arith, s.layout.address n i, class, pos) in
      ap (is_guarded mem.guards) at
      ∙ s.shown (n, i) (lt, omega (arith, lt', s.layout.count))
          (inl (ap mem.links (sym (s.layout.entry n i)) ∙ live)) last (omega (arith, pos))

  -- So can the link of the newest object of a free list.
  pub tail_touched :
      (h : BibopHeap) (k : KeepsLayout h₀ t b h) (mem : Memory) (list : Dlist) (j : ℕ)
      (bump : Object) (os : List Object)
      → ArePassed h₀ t b j bump os
      → IsQueue mem.links list (map (entry h₀ t b) os)
      → touch_tail h list ≡ ok tt
  unfolding touch_tail
  tail_touched h k mem list j bump [] ps q = rw ((is_dll_empty_lem mem.links list [] q).1 refl) refl
  tail_touched h k mem list j bump (o ∷ os) ps q =
      let (above, below) = last-mapped h₀ t b z j bump o os ps in
      rw (is_dll_empty-cons mem.links list (entry h₀ t b o) (map (entry h₀ t b) os) q) (
        touch_entry-ok h list.prev (omega (arith, above, q.tail, k.shadow_begin))
          (omega (arith, below, q.tail, k.shadow_end)))
