-- ===== src/Bibop/Whole/Calls.antt =====
-- bibopheap.hh: allocations and frees in the whole heap.
use free_guard.Base.{
  ℕ, ◌+◌, ◌-◌, ◌<◌, ◌≤◌, ◌≡◌, ◌≢◌, ◌⊎◌, inl, inr, refl, sym, ap, ◌∙◌, subst, arith, ◌==◌,
  Bool-cases, ==_refl, ne→==_false, false, is_guarded, update, bit_and, Returns,
}
use free_guard.Links.{Ptr}
use free_guard.Bibop.Layout.{mapped_heaps}
use free_guard.Bibop.{BibopHeap, PerThreadBag, Memory, update_bag}
use free_guard.Bibop.Object.{Draws, allocate_in_bag, free_small_object}
use free_guard.Bibop.Object.Served.{Object, View, entry, object, IsInBag, Live, Served}
use free_guard.Bibop.Object.Served.Change.{canary_of}
use free_guard.Bibop.Object.Served.Guarded.{Fences, end-apart}
use free_guard.Bibop.Object.Served.Grant.{Granted}
use free_guard.Bibop.Object.Served.Malloc.{allocate_in_bag-Served}
use free_guard.Bibop.Object.Served.Free.{Released, freed_view, free_small_object-Served}
use free_guard.Bibop.Object.Served.Store.{write, store-Served}
use free_guard.Bibop.Whole.{IsWhole, AllServed}
use free_guard.Bibop.Whole.Apart.{bag_cases, entry-apart, byte-apart, Served-other}

-- A table that has another element at one place, at that place and elsewhere.
pub elsewhere {ℓ} :
    {A : Type ℓ} (f : ℕ → ℕ → A) (t b t' b' : ℕ) (x : A)
    → (t ≢ t') ⊎ (b ≢ b')
    → update f t (update (f t) b x) t' b' ≡ f t' b'
elsewhere f t b t' b' x other = elim (Bool-cases (t' == t)) [
  | inr e ↦ rw e refl
  | inl e ↦
      let same : t' ≡ t = ground (arith, e) in
      let ne : (b' == b) ≡ false = ground (arith, e, other) in
      rw (e, ne) (ap (λ k. f k b') (sym same))
]

here {ℓ} :
    {A : Type ℓ} (f : ℕ → ℕ → A) (t b t' b' : ℕ) (x : A)
    → t' ≡ t
    → b' ≡ b
    → update f t (update (f t) b x) t' b' ≡ x
here f t b t' b' x e e' = rw (e, e', ==_refl t, ==_refl b) refl

module _ (h₀ : BibopHeap) (w : IsWhole h₀) where
  -- What an operation on bag `b` of thread `t` protects is apart from the objects of other bags.
  fenced_apart :
      (t b t' b' : ℕ) (thread : t < 128) (usable : b < 19) (thread' : t' < 128) (usable' : b' < 19)
      (other : (t ≢ t') ⊎ (b ≢ b')) (mem mem' : Memory)
      → Fences h₀ t b mem.guards mem'.guards
      → (q : Object) (x : ℕ) → q.1 < (h₀.thread_bag t' b').num_objects
      → x < (h₀.thread_bag t' b').class_size
      → is_guarded mem.guards (object h₀ t' b' q + x) ≡ false
      → is_guarded mem'.guards (object h₀ t' b' q + x) ≡ false
  fenced_apart t b t' b' thread usable thread' usable' other mem mem' fences q x inq small was =
      elim (Bool-cases (is_guarded mem'.guards (object h₀ t' b' q + x))) [
        | inr e ↦ e
        | inl e ↦ elim (fences _ e) [
          | inl now ↦ absurd (ground (arith, now, was))
          | inr (inl end) ↦ absurd (
              end-apart h₀ t b t' b' (w.placed t b thread usable) (w.placed t' b' thread' usable') q
                x inq small end)
          | inr (inr (p, y, inp, small', at)) ↦ absurd (
              byte-apart h₀ w t b t' b' thread usable thread' usable' other p q y x inp inq small'
                small (sym at))
        ]
      ]

  -- An operation on bag `b` of thread `t` that writes, of the entries and the canaries, only those of
  -- this bag, and protects only guards behind it or its objects.
  one_bag :
      (views : ℕ → ℕ → View) (h h' : BibopHeap) (mem mem' : Memory) (t b : ℕ) (v : View)
      (bag : PerThreadBag)
      → t < 128
      → b < 19
      → AllServed h₀ views h mem
      → h' ≡ record h { thread_bag = update_bag h.thread_bag t b bag }
      → ((a : Ptr)
          → ((p : Object) → IsInBag h₀ t b p → a ≢ entry h₀ t b p)
          → mem'.links a ≡ mem.links a)
      → ((a : Ptr)
          → ((p : Object)
              → IsInBag h₀ t b p
              → a ≢ object h₀ t b p + (h₀.thread_bag t b).class_size - 1)
          → mem'.bytes a ≡ mem.bytes a)
      → Fences h₀ t b mem.guards mem'.guards
      → Served h₀ t b v h' mem'
      → AllServed h₀ (update views t (update (views t) b v)) h' mem'
  one_bag views h h' mem mem' t b v bag thread usable all is links bytes fences s = record {
    bags = λ t' b' lt lt'. elim (bag_cases t b t' b') [
      | inl (e, e') ↦
          subst (λ u. Served h₀ t' b' u h' mem') (sym (here views t b t' b' v e e'))
            (subst (λ k. Served h₀ k b' v h' mem') (sym e)
              (subst (λ k. Served h₀ t k v h' mem') (sym e') s))
      | inr other ↦
          let apart = entry-apart h₀ w t b t' b' thread usable lt lt' other in
          let pos = (w.placed t b thread usable).laid_out.class_pos in
          let pos' = (w.placed t' b' lt lt').laid_out.class_pos in
          let last = (h₀.thread_bag t b).class_size - 1 in
          let last' = (h₀.thread_bag t' b').class_size - 1 in
          subst (λ u. Served h₀ t' b' u h' mem') (sym (elsewhere views t b t' b' v other))
            (Served-other h₀ h h' t' b' (w.placed t' b' lt lt') (views t' b') mem mem'
              (update_bag h.thread_bag t b bag) is (elsewhere h.thread_bag t b t' b' bag other)
              (λ q inq. links (entry h₀ t' b' q) (λ p inp e. apart p q inp inq (sym e)))
              (λ q inq. bytes (canary_of h₀ t' b' (w.placed t' b' lt lt') q) (λ p inp e.
                byte-apart h₀ w t b t' b' thread usable lt lt' other p q last last' inp.1 inq.1
                  (omega arith) (omega arith) (omega (arith, e))))
              (λ q x inq small was.
                fenced_apart t b t' b' thread usable lt lt' other mem mem' fences q x inq.1 small
                  was)
              (all.bags t' b' lt lt'))
    ];
    header = (
      _,
      is
          ∙ ap {A = BibopHeap} {B = BibopHeap}
              (λ r. record r { thread_bag = update_bag h.thread_bag t b bag }) all.header.1,
    );
  }

  module _ (views : ℕ → ℕ → View) (h : BibopHeap) (mem : Memory) (all : AllServed h₀ views h mem)
      (t b : ℕ) (thread : t < 128) (usable : b < 19) where
    -- An allocation in one bag of a heap that serves a program.
    pub allocate_in_bag-AllServed :
        (draws : Draws)
        → ((views t b).bump (bit_and draws.bag_set 3)).0 < mapped_heaps
        → Returns (allocate_in_bag h t b draws mem) (λ r.
          (o : Object) × (views' : ℕ → ℕ → View) × (o.0
            ≤ ((views t b).bump (bit_and draws.bag_set 3)).0)
          × Granted h₀ t b (w.placed t b thread usable) h mem o r
          × AllServed h₀ views' r.1 r.2)
    allocate_in_bag-AllServed draws room =
        let z = w.placed t b thread usable in
        let (r, run, (o, v, near, got, served)) =
          allocate_in_bag-Served h₀ t b z (views t b) h mem (all.bags t b thread usable) draws
            room in
        (
          r,
          run,
          (
            o,
            _,
            near,
            got,
            one_bag views h r.1 mem r.2 t b v got.table.0 thread usable all got.table.1
                (λ a apart. got.frame a (apart o got.inside))
                (λ a apart. got.bytes a (apart o got.inside)) got.fences served,
          ),
        )

    -- A free of an object of it.
    pub free_small_object-AllServed :
        (o : Object) (ino : IsInBag h₀ t b o) (live : Live h₀ t b mem o)
        → o.0 + 8 < mapped_heaps
        → Returns (free_small_object h (object h₀ t b o) mem) (λ r.
          (views' : ℕ → ℕ → View) × Released h₀ t b (w.placed t b thread usable) h mem o r
          × AllServed h₀ views' r.0 r.1)
    free_small_object-AllServed o ino live far =
        let z = w.placed t b thread usable in
        let (r, run, (gone, served)) =
          free_small_object-Served h₀ t b z (views t b) h mem (all.bags t b thread usable) o ino
            live far in
        (
          r,
          run,
          (
            _,
            gone,
            one_bag views h r.0 mem r.1 t b (freed_view (views t b) o) gone.table.0 thread usable
                all gone.table.1 gone.frame (λ a apart. ap (λ (f : Ptr → ℕ). f a) gone.bytes)
                (λ a now. inl (ap (λ g. is_guarded g a) (sym gone.guards) ∙ now)) served,
          ),
        )

    -- A write of the program to an object, in front of its canary.
    pub store-AllServed :
        (o : Object) (ino : IsInBag h₀ t b o) (i value : ℕ)
        → i + 1 < (h₀.thread_bag t b).class_size
        → AllServed h₀ views h (write (object h₀ t b o + i) value mem)
    store-AllServed o ino i value small = record {
      bags = λ t' b' lt lt'. elim (bag_cases t b t' b') [
        | inl (e, e') ↦
            subst (λ j. Served h₀ j b' (views j b') h (write (object h₀ t b o + i) value mem))
              (sym e)
              (subst (λ j. Served h₀ t j (views t j) h (write (object h₀ t b o + i) value mem))
                (sym e')
                (store-Served h₀ t b (w.placed t b thread usable) (views t b) h mem
                  (all.bags t b thread usable) o i value ino small))
        | inr other ↦
            let last' = (h₀.thread_bag t' b').class_size - 1 in
            let pos' = (w.placed t' b' lt lt').laid_out.class_pos in
            Served-other h₀ h h t' b' (w.placed t' b' lt lt') (views t' b') mem _ h.thread_bag refl
              refl (λ q inq. refl)
              (λ q inq.
                rw
                  (ne→==_false (canary_of h₀ t' b' (w.placed t' b' lt lt') q) (object h₀ t b o + i)
                    (λ e.
                      byte-apart h₀ w t b t' b' thread usable lt lt' other o q i last' ino.1 inq.1
                        (omega arith) (omega arith) (omega (arith, e))))
                  refl)
              (λ q x inq lt was. was) (all.bags t' b' lt lt')
      ];
      header = all.header;
    }
