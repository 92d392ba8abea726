-- ===== src/Bibop/Whole/Apart.antt =====
-- bibopheap.hh: two bags have no shadow entry and no byte in common, and an operation on one leaves
-- the other as it is.
use free_guard.Base.{
  ℕ, ◌+◌, ◌-◌, ◌*◌, ◌<◌, ◌≡◌, ◌≢◌, ◌⊎◌, inl, inr, refl, sym, ap, ◌∙◌, subst, arith, block-lt, List,
  [], ◌∷◌, map, contains, true, false, is_guarded, ◌==◌, Bool-cases,
}
use free_guard.Links.{Ptr}
use free_guard.Xdefines.{alloc_sentinel}
use free_guard.Bibop.{BibopHeap, PerThreadBag, Memory}
use free_guard.Bibop.Layout.{IsSized, IsLaidOut, object_addr, shadow_addr}
use free_guard.Bibop.Layout.Cells.{same_bag, same_rest, same_block, number}
use free_guard.Bibop.Layout.Keep.{KeepsLayout, IsSized-heap, IsLaidOut-heap}
use free_guard.Bibop.Object.Served.{
  Object, View, entry, object, IsInBag, IsPlaced, Served, ArePassed, Kept,
}
use free_guard.Bibop.Object.Served.Apart.{byte-injective}
use free_guard.Bibop.Object.Served.Change.{
  KeepsLayout-trans, AtObject-kept, queue-kept, canary_of, canary_intact-kept,
  KeepsLayout-class_size,
}
use free_guard.Bibop.Whole.{IsWhole}

module _ (h : BibopHeap) (w : IsWhole h) (t b t' b' : ℕ) (thread : t < 128) (usable : b < 19)
    (thread' : t' < 128) (usable' : b' < 19) (other : (t ≢ t') ⊎ (b ≢ b')) where
  -- Two bags have no shadow entry in common.
  pub entry-apart :
      (p q : Object) → IsInBag h t b p → IsInBag h t' b' q → entry h t b p ≢ entry h t' b' q
  unfolding shadow_addr
  entry-apart p q inp inq e =
      let l = (w.placed t b thread usable).laid_out in
      let l' = (w.placed t' b' thread' usable').laid_out in
      let s = (h.thread_bag t b).start_shadow_mem_offset in
      let s' = (h.thread_bag t' b').start_shadow_mem_offset in
      let rest =
        same_rest h.shadow_mem_size_per_heap_ceil p.0 q.0 (s + p.1 * 8) (s' + q.1 * 8)
          (omega (arith, l.shadow_room, inp)) (omega (arith, l'.shadow_room, inq))
          (omega (arith, e)) in
      elim (w.apart t b t' b' thread usable thread' usable' other) [
        | inl below ↦ absurd (omega (arith, below, rest, inp, inq))
        | inr above ↦ absurd (omega (arith, above, rest, inp, inq))
      ]

  -- No byte of an object of one bag is a byte of an object of the other.
  pub byte-apart :
      (p q : Object) (x y : ℕ)
      → p.1 < (h.thread_bag t b).num_objects
      → q.1 < (h.thread_bag t' b').num_objects
      → x < (h.thread_bag t b).class_size
      → y < (h.thread_bag t' b').class_size
      → object h t b p + x ≢ object h t' b' q + y
  unfolding object_addr
  byte-apart p q x y inp inq small small' e =
      let l = (w.placed t b thread usable).laid_out in
      let l' = (w.placed t' b' thread' usable').laid_out in
      let c = (h.thread_bag t b).class_size in
      let c' = (h.thread_bag t' b').class_size in
      let size = h.bibop_bag_size in
      let fits : p.1 * c + x < size =
        omega (arith, block-lt p.1 (h.thread_bag t b).num_objects c x inp small, l.room) in
      let fits' : q.1 * c' + y < size =
        omega (arith, block-lt q.1 (h.thread_bag t' b').num_objects c' y inq small', l'.room) in
      let level : (p.0 * 4096 + (t * 32 + b)) * size + (p.1 * c + x)
          ≡ (q.0 * 4096 + (t' * 32 + b')) * size + (q.1 * c' + y) =
        omega (
          arith,
          number h.heap_begin size p.0 t b c p.1 x,
          number h.heap_begin size q.0 t' b' c' q.1 y,
          e,
          l.start,
          l'.start,
        ) in
      let (threads, bags) =
        same_bag p.0 q.0 t t' b b' thread thread' (omega arith) (omega arith)
          (same_block size _ _ _ _ fits fits' level) in
      elim other [ inl ne ↦ ne threads | inr ne ↦ ne bags ]

pub bag_cases : (t b t' b' : ℕ) → ((t' ≡ t) × (b' ≡ b)) ⊎ ((t ≢ t') ⊎ (b ≢ b'))
bag_cases t b t' b' = ground arith

-- Two bytes of objects of the heap have the same address only if they are the same byte.
pub objects_apart :
    (h : BibopHeap) (w : IsWhole h) (t b t' b' : ℕ) (thread : t < 128) (usable : b < 19)
    (thread' : t' < 128) (usable' : b' < 19) (p q : Object) (x y : ℕ)
    → IsInBag h t b p
    → IsInBag h t' b' q
    → x < (h.thread_bag t b).class_size
    → y < (h.thread_bag t' b').class_size
    → object h t b p + x ≡ object h t' b' q + y
    → (t ≡ t') × (b ≡ b') × (p ≡ q) × (x ≡ y)
objects_apart h w t b t' b' thread usable thread' usable' p q x y inp inq small small' e =
    elim (bag_cases t b t' b') [
      | inr other ↦ absurd (
          byte-apart h w t b t' b' thread usable thread' usable' other p q x y inp.1 inq.1 small
            small' e)
      | inl (same, same') ↦
          let at : object h t' b' q + y ≡ object h t b q + y =
            ap (λ j. object h j b' q + y) same ∙ ap (λ j. object h t j q + y) same' in
          let size : (h.thread_bag t' b').class_size ≡ (h.thread_bag t b).class_size =
            ap (λ j. (h.thread_bag j b').class_size) same
            ∙ ap (λ j. (h.thread_bag t j).class_size) same' in
          let count : (h.thread_bag t' b').num_objects ≡ (h.thread_bag t b).num_objects =
            ap (λ j. (h.thread_bag j b').num_objects) same
            ∙ ap (λ j. (h.thread_bag t j).num_objects) same' in
          let object_same =
            byte-injective h t b (w.placed t b thread usable) p q x y inp
              (inq.0, omega (arith, inq.1, count)) small (omega (arith, size)) (e ∙ at) in
          (sym same, sym same', object_same, omega (arith, e, at, ap (object h t b) object_same))
    ]

-- What holds at the entry of every object of a bag holds in its free lists.
in_list :
    (h₀ : BibopHeap) (t b j : ℕ) (bump : Object) (os : List Object) (f g : Ptr → Ptr)
    → ArePassed h₀ t b j bump os
    → ((o : Object) → IsInBag h₀ t b o → f (entry h₀ t b o) ≡ g (entry h₀ t b o))
    → (a : Ptr) → contains a (map (entry h₀ t b) os) ≡ true
    → f a ≡ g a
in_list h₀ t b j bump [] f g ps same a h = absurd (ground (arith, h))
in_list h₀ t b j bump (o ∷ os) f g ps same a h = elim (Bool-cases (a == entry h₀ t b o)) [
  | inl e ↦
      let here : a ≡ entry h₀ t b o = ground (arith, e) in ap f here ∙ same o ps.0 ∙ ap g (sym here)
  | inr e ↦ in_list h₀ t b j bump os f g ps.4 same a (ground (arith, e, h))
]

same_bag-KeepsLayout :
    (h : BibopHeap) (t b : ℕ) (f : ℕ → ℕ → PerThreadBag)
    → IsSized h
    → IsLaidOut h t b (h.thread_bag t b)
    → f t b ≡ h.thread_bag t b
    → KeepsLayout h t b (record h { thread_bag = f })
unfolding object_addr shadow_addr
same_bag-KeepsLayout h t b f z l same = record {
  sized = IsSized-heap h f z;
  laid_out =
      subst (IsLaidOut (record h { thread_bag = f }) t b) (sym same)
        (IsLaidOut-heap h t b (h.thread_bag t b) f l);
  address = λ n i. ap (λ v. object_addr h v n i) same;
  entry = λ n i. ap (λ v. shadow_addr h v n i) same;
  shadow_begin = refl;
  shadow_end = refl;
  count = ap (λ (v : PerThreadBag). v.num_objects) same;
  guardsize = ap (λ (v : PerThreadBag). v.guardsize) same;
}

-- A bag to which nothing happened goes on to serve.
pub Served-other :
    (h₀ h h' : BibopHeap) (t b : ℕ) (z : IsPlaced h₀ t b) (v : View) (mem mem' : Memory)
    (f : ℕ → ℕ → PerThreadBag)
    → h' ≡ record h { thread_bag = f }
    → f t b ≡ h.thread_bag t b
    → ((o : Object) → IsInBag h₀ t b o → mem'.links (entry h₀ t b o) ≡ mem.links (entry h₀ t b o))
    → ((o : Object)
        → IsInBag h₀ t b o
        → mem'.bytes (canary_of h₀ t b z o) ≡ mem.bytes (canary_of h₀ t b z o))
    → ((o : Object) (x : ℕ)
        → IsInBag h₀ t b o
        → x < (h₀.thread_bag t b).class_size
        → is_guarded mem.guards (object h₀ t b o + x) ≡ false
        → is_guarded mem'.guards (object h₀ t b o + x) ≡ false)
    → Served h₀ t b v h mem
    → Served h₀ t b v h' mem'
Served-other h₀ h h' t b z v mem mem' f is same links bytes guards s =
    let r = record h { thread_bag = f } in
    let k = same_bag-KeepsLayout h t b f s.layout.sized s.layout.laid_out same in
    let layout = KeepsLayout-trans h₀ h r t b s.layout k in
    let was-Kept : (o : Object) → IsInBag h₀ t b o → Kept h₀ t b v mem' o → Kept h₀ t b v mem o =
      λ o ino kept. elim kept [ inl live ↦ inl (sym (links o ino) ∙ live) | inr rest ↦ inr rest ] in
    subst (λ r. Served h₀ t b v r mem') (sym is)
      (record {
        layout = layout;
        queue = λ j.
            queue-kept h₀ t b z mem mem' _ _ (v.free j)
              (ap (λ (b : PerThreadBag). b.freelist j) same)
              (in_list h₀ t b j (v.bump j) (v.free j) mem'.links mem.links (s.passed j) links)
              (s.queue j);
        passed = s.passed;
        place = λ j.
            AtObject-kept h r t b j _ _ s.layout.laid_out k
              (ap (λ (b : PerThreadBag). b.position j) same)
              (ap (λ (b : PerThreadBag). b.last_of_cur_bag j) same) (s.place j);
        turn = s.turn;
        untouched = λ o ino ahead now. s.untouched o ino ahead (sym (links o ino) ∙ now);
        intact = λ n i lt lt' marked.
            let ino : IsInBag h₀ t b (n, i) = (lt, omega (arith, lt', layout.count)) in
            let was : mem.links (shadow_addr h (h.thread_bag t b) n i) ≡ alloc_sentinel =
              ap mem.links (s.layout.entry n i)
              ∙ sym (links (n, i) ino)
              ∙ ap mem'.links (sym (layout.entry n i))
              ∙ marked in
            let at : object_addr h (h.thread_bag t b) n i + (h.thread_bag t b).class_size - 1
                ≡ canary_of h₀ t b z (n, i) =
              omega (arith, s.layout.address n i, KeepsLayout-class_size h₀ h t b s.layout) in
            canary_intact-kept _ (object_addr h (h.thread_bag t b) n i) _ (h.thread_bag t b) mem'
              mem (k.address n i) (KeepsLayout-class_size h r t b k)
              (ap mem'.bytes at ∙ bytes (n, i) ino ∙ ap mem.bytes (sym at))
              (s.intact n i lt (omega (arith, lt', k.count)) was);
        shown = λ o ino kept x lt. guards o x ino lt (s.shown o ino (was-Kept o ino kept) x lt);
      })
