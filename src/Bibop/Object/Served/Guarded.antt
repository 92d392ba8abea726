-- ===== src/Bibop/Object/Served/Guarded.antt =====
-- bibopheap.hh: the guards behind the bags and the random guard pages, against the objects.
use free_guard.Base.{
  ℕ, ◌+◌, ◌-◌, ◌*◌, ◌<◌, ◌≡◌, ◌⊎◌, inl, inr, ap, ◌∙◌, arith, block-lt, is_guarded, true, List,
}
use free_guard.Links.{Ptr}
use free_guard.Bibop.{BibopHeap}
use free_guard.Bibop.Layout.{object_addr}
use free_guard.Bibop.Layout.Cells.{number, guard_cell}
use free_guard.Bibop.Layout.Keep.{KeepsLayout}
use free_guard.Bibop.Bump.Covered.{InEnd, Covers}
use free_guard.Bibop.Object.Served.{Object, object, IsPlaced}
use free_guard.Bibop.Object.Served.Change.{KeepsLayout-class_size}

-- A byte of an object of the bag, in whatever heap.
abbrev pub InObjects : BibopHeap → ℕ → ℕ → Ptr → Type 0
InObjects h₀ t b a =
    (q : Object) × (y : ℕ) × (q.1 < (h₀.thread_bag t b).num_objects)
    × (y < (h₀.thread_bag t b).class_size)
    × (a ≡ object h₀ t b q + y)

-- What an operation on a bag protects is a guard behind the bag, or belongs to objects of the bag.
abbrev pub Fences : BibopHeap → ℕ → ℕ → List (Ptr × ℕ) → List (Ptr × ℕ) → Type 0
Fences h₀ t b old new =
    (a : Ptr)
    → is_guarded new a ≡ true
    → (is_guarded old a ≡ true) ⊎ (InEnd h₀ (h₀.thread_bag t b) a ⊎ InObjects h₀ t b a)

-- The guard behind a bag is apart from the objects of every bag.
pub end-apart :
    (h₀ : BibopHeap) (t b t' b' : ℕ) (z : IsPlaced h₀ t b) (z' : IsPlaced h₀ t' b') (q : Object)
    (x : ℕ)
    → q.1 < (h₀.thread_bag t' b').num_objects
    → x < (h₀.thread_bag t' b').class_size
    → InEnd h₀ (h₀.thread_bag t b) (object h₀ t' b' q + x)
    → ⊥
unfolding object_addr
end-apart h₀ t b t' b' z z' q x inq small (m, above, below) =
    let l = z.laid_out in
    let l' = z'.laid_out in
    let size = h₀.bibop_bag_size in
    let bag = h₀.thread_bag t b in
    let bag' = h₀.thread_bag t' b' in
    let row = block-lt q.1 bag'.num_objects bag'.class_size x inq small in
    let start = object_addr h₀ bag m 0 in
    let y = object h₀ t' b' q + x - start in
    let from = z.guard in
    let level : (q.0 * 4096 + (t' * 32 + b')) * size + (q.1 * bag'.class_size + x)
        ≡ (m * 4096 + (t * 32 + b)) * size + y =
      omega (
        arith,
        number h₀.heap_begin size q.0 t' b' bag'.class_size q.1 x,
        number h₀.heap_begin size m t b 0 0 0,
        above,
        l.start,
        l'.start,
      ) in
    let reach : (y < size) ⊎ ((b ≡ 18) × (y < 14 * size)) = elim from [
      | inl short ↦ inl (omega (arith, below, above, short))
      | inr (last, short) ↦ inr (last, omega (arith, below, above, short))
    ] in
    let (threads, bags, same) =
      guard_cell size q.0 m t t' b b' (q.1 * bag'.class_size + x) y l.thread l'.thread z.usable
        z'.usable (omega (arith, row, l'.room)) reach level in
    let at : bag'.num_objects * bag'.class_size ≡ bag.num_objects * bag.class_size =
      ap (λ k. (h₀.thread_bag k b').num_objects * (h₀.thread_bag k b').class_size) threads
      ∙ ap (λ k. (h₀.thread_bag t k).num_objects * (h₀.thread_bag t k).class_size) bags in
    omega (arith, row, same, at, above)

-- In terms of the heap that was laid out first.
pub Covers-kept :
    (h₀ h : BibopHeap) (t b : ℕ) (k : KeepsLayout h₀ t b h) (old new : List (Ptr × ℕ))
    (n i n' i' : ℕ)
    → Covers h (h.thread_bag t b) old new n i n' i'
    → Covers h₀ (h₀.thread_bag t b) old new n i n' i'
Covers-kept h₀ h t b k old new n i n' i' covers a now = elim (covers a now) [
  | inl was ↦ inl was
  | inr (inl (m, above, below)) ↦
      let at : object_addr h (h.thread_bag t b) m (h.thread_bag t b).num_objects
          ≡ object_addr h₀ (h₀.thread_bag t b) m (h₀.thread_bag t b).num_objects =
        k.address m (h.thread_bag t b).num_objects
        ∙ ap (object_addr h₀ (h₀.thread_bag t b) m) k.count in
      inr (inl (m, omega (arith, above, at), omega (arith, below, at, k.guardsize)))
  | inr (inr (m, j, y, turn, from, to, inside, small, at)) ↦ inr (
      inr (
        m,
        j,
        y,
        turn,
        from,
        to,
        omega (arith, inside, k.count),
        omega (arith, small, KeepsLayout-class_size h₀ h t b k),
        omega (arith, at, k.address m j),
      ))
]
