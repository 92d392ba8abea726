-- ===== src/Bibop/Object/Served/Store.antt =====
-- bibopheap.hh: what a program writes in the objects of a bag.
use free_guard.Base.{
  ℕ, ◌+◌, ◌-◌, ◌*◌, ◌<◌, ◌≤◌, ◌≢◌, refl, ap, arith, update, ne→==_false, leb, leb→le, Bool-cases,
  inl, inr,
}
use free_guard.Links.{Ptr}
use free_guard.Bibop.{BibopHeap, Memory}
use free_guard.Bibop.Layout.{object_addr, mapped_heaps}
use free_guard.Bibop.Object.Served.{Object, View, object, IsInBag, IsPlaced, Served}
use free_guard.Bibop.Object.Served.Apart.{byte-injective}
use free_guard.Bibop.Object.Served.Change.{KeepsLayout-class_size, canary_intact-kept}

-- A byte of the program in an object.
abbrev pub write : Ptr → ℕ → Memory → Memory
write addr value mem = record mem { bytes = update mem.bytes addr value }

module _ (h₀ : BibopHeap) (t b : ℕ) (z : IsPlaced h₀ t b) where
  -- A bump pointer below the end of the first heaps stands in one of them.
  in_heap : (n k : ℕ) → n * k < mapped_heaps * k → n < mapped_heaps
  in_heap n k lt = elim (Bool-cases (leb mapped_heaps n)) [
    | inr e ↦ ground (arith, e)
    | inl e ↦ absurd (let le : mapped_heaps ≤ n = leb→le _ n e in grind arith)
  ]

  pub room :
      (v : View) (h : BibopHeap) (mem : Memory) (j : ℕ)
      → Served h₀ t b v h mem
      → (h.thread_bag t b).position j < h.heap_begin + mapped_heaps * (4096 * h.bibop_bag_size)
      → (v.bump j).0 < mapped_heaps
  unfolding object_addr
  room v h mem j s below =
      in_heap (v.bump j).0 (4096 * h.bibop_bag_size) (omega (arith, below, (s.place j).position))

  -- Writing a byte of the program leaves the canaries alone.
  pub store-Served :
      (v : View) (h : BibopHeap) (mem : Memory) (s : Served h₀ t b v h mem) (o : Object)
      (k value : ℕ)
      → IsInBag h₀ t b o
      → k + 1 < (h₀.thread_bag t b).class_size
      → Served h₀ t b v h (write (object h₀ t b o + k) value mem)
  store-Served v h mem s o k value ino small = record {
    layout = s.layout;
    queue = s.queue;
    passed = s.passed;
    place = s.place;
    turn = s.turn;
    untouched = s.untouched;
    intact = λ n i lt lt' marked.
        let class = KeepsLayout-class_size h₀ h t b s.layout in
        let at = s.layout.address n i in
        let inq : IsInBag h₀ t b (n, i) = (lt, omega (arith, lt', s.layout.count)) in
        let apart : object_addr h (h.thread_bag t b) n i + (h.thread_bag t b).class_size - 1
            ≢ object h₀ t b o + k =
          λ e.
            let last = (h₀.thread_bag t b).class_size - 1 in
            let same =
              byte-injective h₀ t b z (n, i) o last k inq ino (omega arith) (omega arith)
                (omega (arith, e, class, at)) in
            absurd (omega (arith, e, class, at, ap (object h₀ t b) same)) in
        canary_intact-kept _ (object_addr h (h.thread_bag t b) n i) _ (h.thread_bag t b) _ mem refl
          refl (rw (ne→==_false _ _ apart) refl) (s.intact n i lt lt' marked);
    shown = s.shown;
  }
