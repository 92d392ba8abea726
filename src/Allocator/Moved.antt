-- ===== src/Allocator/Moved.antt =====
-- libfreeguard.cpp: what `realloc` needs to know of the bytes that it copies and of the object that it
-- frees.
use free_guard.Base.{
  ℕ, ◌+◌, ◌-◌, ◌^◌, ◌<◌, ◌≤◌, ◌≡◌, ◌≢◌, inl, inr, refl, sym, ap, ◌∙◌, arith, Bool-cases, ◌&&◌, leb,
  ltb, ok, le→leb, lt→ltb, sub64-eq-sub,
}
use free_guard.Links.{Ptr}
use free_guard.Xdefines.{alloc_sentinel}
use free_guard.Bibop.{BibopHeap, Memory}
use free_guard.Bibop.Address.RoundTrip.{find_object_lem}
use free_guard.Bibop.Object
use free_guard.Bibop.Object.{get_usable_size}
use free_guard.Bibop.Object.Served.{Object, View, entry, object, IsInBag, Live}
use free_guard.Bibop.Object.Served.Change.{KeepsLayout-class_size, canary_of}
use free_guard.Bibop.Object.Served.Free.{Released}
use free_guard.Bibop.Whole.{IsWhole}
use free_guard.Bibop.Whole.Apart.{objects_apart, entry-apart, bag_cases, Served-other}
use free_guard.Allocator.{Allocator, copied, with_bytes, old_size_of}
use free_guard.Allocator.Running.{IsRunning, in_heap}

copied-apart :
    (dest src n : ℕ) (bytes : Ptr → ℕ) (c : Ptr)
    → ((i : ℕ) → i < n → c ≢ dest + i)
    → copied dest src n bytes c ≡ bytes c
copied-apart dest src n bytes c apart = elim (Bool-cases (leb dest c && ltb c (dest + n))) [
  | inr e ↦ rw e refl
  | inl e ↦ absurd (apart (c - dest) (ground (arith, e)) (ground (arith, e)))
]

pub copied-inside :
    (dest src n : ℕ) (bytes : Ptr → ℕ) (i : ℕ)
    → i < n
    → copied dest src n bytes (dest + i) ≡ bytes (src + i)
copied-inside dest src n bytes i lt =
    rw (le→leb dest (dest + i) (omega arith), lt→ltb (dest + i) (dest + n) (omega arith))
      (ap (λ k. bytes (src + k)) (omega arith))

module _ (h₀ : BibopHeap) (w : IsWhole h₀) where
  -- New bytes that leave every canary as it was.
  pub with_bytes-IsRunning :
      (views : ℕ → ℕ → View) (a : Allocator) (bytes : Ptr → ℕ)
      → IsRunning h₀ views a
      → ((t k : ℕ) (thread : t < 128) (usable : k < 19) (q : Object)
          → IsInBag h₀ t k q
          → let c = canary_of h₀ t k (w.placed t k thread usable) q in bytes c ≡ a.memory.bytes c)
      → IsRunning h₀ views (with_bytes bytes a)
  with_bytes-IsRunning views a bytes running same = record {
    done = running.done;
    served = record {
      bags = λ t k thread usable.
          Served-other h₀ a.heap a.heap t k (w.placed t k thread usable) (views t k) a.memory _
            a.heap.thread_bag refl refl (λ q inq. refl) (same t k thread usable)
            (λ q x inq lt was. was) (running.served.bags t k thread usable);
      header = running.served.header;
    };
  }

  -- The size that `realloc` finds for a small object: its class without the canary.
  pub old_size_of-small :
      (views : ℕ → ℕ → View) (a : Allocator) (running : IsRunning h₀ views a) (t k : ℕ)
      (thread : t < 128) (usable : k < 19) (o : Object)
      → IsInBag h₀ t k o
      → (h₀.thread_bag t k).class_size ≤ 2 ^ 22
      → old_size_of (object h₀ t k o) a ≡ ok ((h₀.thread_bag t k).class_size - 1)
  unfolding old_size_of Object.get_object_size get_usable_size
  old_size_of-small views a running t k thread usable o ino bound =
      let (nonnull, small) = in_heap h₀ w views a running t k thread usable o ino in
      let s = running.served.bags t k thread usable in
      let l = s.layout.laid_out in
      let class = KeepsLayout-class_size h₀ a.heap t k s.layout in
      let found =
        find_object_lem a.heap s.layout.sized t k (a.heap.thread_bag t k) l o.0 o.1 ino.0
          (omega (arith, ino.1, s.layout.count)) refl in
      rw (small, sym (s.layout.address o.0 o.1), found)
        (ap ok (
          sub64-eq-sub _ 1 (omega (arith, l.class_pos)) (omega (arith, class, bound))
          ∙ omega (arith, class)))

  -- An object in use and one that is not have different entries.
  pub entries_differ :
      (mem : Memory) (c d : Ptr)
      → mem.links c ≡ alloc_sentinel
      → mem.links d ≢ alloc_sentinel
      → c ≢ d
  entries_differ mem c d live idle e = idle (ap mem.links (sym e) ∙ live)

  -- A copy into an object that ends before the object's canary leaves every canary as it was.
  pub copied-canaries :
      (t k : ℕ) (thread : t < 128) (usable : k < 19) (p : Object) (src n : ℕ) (bytes : Ptr → ℕ)
      → IsInBag h₀ t k p
      → n < (h₀.thread_bag t k).class_size
      → (t' k' : ℕ) (thread' : t' < 128) (usable' : k' < 19) (q : Object) → IsInBag h₀ t' k' q
      → let c = canary_of h₀ t' k' (w.placed t' k' thread' usable') q in
        copied (object h₀ t k p) src n bytes c ≡ bytes c
  copied-canaries t k thread usable p src n bytes inp short t' k' thread' usable' q inq =
      let last = (h₀.thread_bag t' k').class_size - 1 in
      let pos = (w.placed t' k' thread' usable').laid_out.class_pos in
      copied-apart (object h₀ t k p) src n bytes _ (λ i lt e.
        let (same, same', object_same, byte_same) =
          objects_apart h₀ w t' k' t k thread' usable' thread usable q p last i inq inp
            (omega (arith, pos)) (omega (arith, lt, short)) (omega (arith, e, pos)) in
        let size : (h₀.thread_bag t' k').class_size ≡ (h₀.thread_bag t k).class_size =
          ap (λ j. (h₀.thread_bag j k').class_size) same
          ∙ ap (λ j. (h₀.thread_bag t j).class_size) same' in
        absurd (omega (arith, size, byte_same, lt, short)))

  -- A byte of an object in use is not the canary of one that is not.
  pub byte-ne :
      (mem : Memory) (t k t' k' : ℕ) (thread : t < 128) (usable : k < 19) (thread' : t' < 128)
      (usable' : k' < 19) (o p : Object) (i : ℕ)
      → IsInBag h₀ t k o
      → IsInBag h₀ t' k' p
      → i < (h₀.thread_bag t k).class_size
      → Live h₀ t k mem o
      → mem.links (entry h₀ t' k' p) ≢ alloc_sentinel
      → object h₀ t k o + i ≢ canary_of h₀ t' k' (w.placed t' k' thread' usable') p
  byte-ne mem t k t' k' thread usable thread' usable' o p i ino inp small live idle e =
      let last = (h₀.thread_bag t' k').class_size - 1 in
      let pos = (w.placed t' k' thread' usable').laid_out.class_pos in
      let (same, same', object_same, byte_same) =
        objects_apart h₀ w t k t' k' thread usable thread' usable' o p i last ino inp small
          (omega (arith, pos)) (omega (arith, e, pos)) in
      entries_differ mem (entry h₀ t k o) (entry h₀ t' k' p) live idle (
        ap (λ j. entry h₀ j k o) same
        ∙ ap (λ j. entry h₀ t' j o) same'
        ∙ ap (entry h₀ t' k') object_same)

  -- Another object that is in use stays in use when one is freed, of whatever bag it is.
  pub Live-Released :
      (t k t' k' : ℕ) (thread : t < 128) (usable : k < 19) (thread' : t' < 128) (usable' : k' < 19)
      (h : BibopHeap) (mem : Memory) (o p : Object) (r : BibopHeap × Memory)
      → Released h₀ t k (w.placed t k thread usable) h mem o r
      → IsInBag h₀ t' k' p
      → entry h₀ t k o ≢ entry h₀ t' k' p
      → Live h₀ t' k' mem p
      → Live h₀ t' k' r.1 p
  Live-Released t k t' k' thread usable thread' usable' h mem o p r gone inp ne live =
      elim (bag_cases t k t' k') [
        | inl (same, same') ↦
            let at : entry h₀ t' k' p ≡ entry h₀ t k p =
              ap (λ j. entry h₀ j k' p) same ∙ ap (λ j. entry h₀ t j p) same' in
            let count : (h₀.thread_bag t' k').num_objects ≡ (h₀.thread_bag t k).num_objects =
              ap (λ j. (h₀.thread_bag j k').num_objects) same
              ∙ ap (λ j. (h₀.thread_bag t j).num_objects) same' in
            ap r.1.links at
            ∙ (gone.others p (inp.0, omega (arith, inp.1, count))
                  (λ e. ne (sym (ap (entry h₀ t k) e) ∙ sym at))).1
                (ap mem.links (sym at) ∙ live)
        | inr other ↦
            gone.frame (entry h₀ t' k' p) (λ q inq e.
              entry-apart h₀ w t k t' k' thread usable thread' usable' other q p inq inp (sym e))
            ∙ live
      ]
