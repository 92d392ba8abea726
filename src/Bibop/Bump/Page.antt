-- ===== src/Bibop/Bump/Page.antt =====
-- bibopheap.hh: the objects of a page, which `tryRandomGuardPage` protects and passes.
use free_guard.Base.{
  ℕ, ◌+◌, ◌-◌, ◌*◌, ◌/◌, ◌%◌, ◌≤◌, ◌<◌, ◌≡◌, ◌⊎◌, inl, inr, refl, ap, ◌∙◌, arith, ltb, ltb→lt,
  Bool-cases, update, ==_refl, is_guarded, true, ◌==◌, leb, leb→le, block-lt, pow_add, pow_pos, ◌^◌,
}
use native.Mathlib.Nat.{div-mul-le_self, mod-lt, div-add-mod'}
use free_guard.Xdefines.{page_size}
use free_guard.Bibop.{BibopHeap, PerThreadBag, Memory}
use free_guard.Bibop.Bump.Covered.{Before, InEnd, InSkipped, guarded-cons, page_blocks, byte_of}
use free_guard.Links.{Ptr}
use free_guard.Bibop.Layout.{IsLaidOut, object_addr}
use free_guard.Bibop.Bump.{protect}
use free_guard.Bibop.Bump.Order.{AtObject}

-- The objects of a class below a page that start in one page.
pub page_size-fits :
    (h : BibopHeap) (t b : ℕ) (bag : PerThreadBag)
    → IsLaidOut h t b bag
    → bag.class_size < page_size
    → page_size ≤ (4096 / bag.class_size - 1 + 1) * bag.class_size
page_size-fits h t b bag l small =
    let few : bag.shift_bits ≤ 12 = elim (Bool-cases (leb bag.shift_bits 12)) [
      | inl le ↦ leb→le _ _ le
      | inr gt ↦
          let over : 13 + (bag.shift_bits - 13) ≡ bag.shift_bits = ground (arith, gt) in
          absurd (
            omega (
              arith,
              ap (λ (k : ℕ). 2 ^ k) over,
              pow_add 13 (bag.shift_bits - 13),
              pow_pos (bag.shift_bits - 13),
              l.class_bits,
              small,
            ))
    ] in
    let whole = page_blocks bag.shift_bits bag.class_size l.class_bits few in
    let some : 4096 / bag.class_size - 1 + 1 ≡ 4096 / bag.class_size =
      elim (Bool-cases (4096 / bag.class_size == 0)) [
        | inl none ↦
            let zero : 4096 / bag.class_size ≡ 0 = ground (arith, none) in
            absurd (omega (arith, whole, ap (λ (k : ℕ). k * bag.class_size) zero))
        | inr some ↦ ground (arith, some)
      ] in
    omega (arith, whole, ap (λ (k : ℕ). k * bag.class_size) some)

-- The objects from the start of a page to the end of the last page fill at least a page.
page_room :
    (c k position : ℕ)
    → 0 < c
    → 0 < k
    → position % 4096 ≡ 0
    → (position + k * c) % 4096 ≡ 0
    → 4096 / c ≤ k
page_room c k position pos some start stop = elim (Bool-cases (ltb k (4096 / c))) [
  | inr e ↦ ground (arith, e)
  | inl e ↦
      let lt : k < 4096 / c = ltb→lt k (4096 / c) e in
      let page : 4096 / c * c ≤ 4096 = div-mul-le_self 4096 c in
      let less : k * c + c ≤ 4096 / c * c = grind arith in
      let more : 0 < k * c = grind arith in absurd (omega arith)
]

-- The last object of a page is one of the bag's, where the bag's objects end with a page.
pub page-inside :
    (h : BibopHeap) (t b : ℕ) (bag : PerThreadBag) (l : IsLaidOut h t b bag) (item n i : ℕ)
    (at : AtObject h bag item n i)
    → bag.position item % 4096 ≡ 0
    → object_addr h bag n bag.num_objects % 4096 ≡ 0
    → i + (4096 / bag.class_size - 1) ≤ bag.last_object_index
unfolding object_addr
page-inside h t b bag l item n i at start stop =
    let some : 0 < bag.num_objects - i = omega (arith, l.count, at.inside) in
    let whole : i * bag.class_size + (bag.num_objects - i) * bag.class_size
        ≡ bag.num_objects * bag.class_size =
      let e : i + (bag.num_objects - i) ≡ bag.num_objects = omega arith in
      omega (arith, ap (λ (k : ℕ). k * bag.class_size) e) in
    let left =
      page_room bag.class_size (bag.num_objects - i) (bag.position item) l.class_pos some start
        (ap (λ (k : ℕ). k % 4096) (omega (arith, at.position, whole)) ∙ stop) in
    omega (arith, l.count, at.inside)

pub skip-AtObject :
    (h : BibopHeap) (t b : ℕ) (bag : PerThreadBag) (l : IsLaidOut h t b bag) (item n i : ℕ)
    (at : AtObject h bag item n i) (k : ℕ)
    → i + k ≤ bag.last_object_index
    → AtObject h
        (record bag {
          position = update bag.position item (bag.position item + k * bag.class_size);
        })
        item
        n
        (i + k)
unfolding object_addr
skip-AtObject h t b bag l item n i at k inside = record {
  position = rw ==_refl (omega (arith, at.position));
  limit = at.limit;
  inside = inside;
}

-- The bytes of a page, or of one large object, from the bump pointer on, are those of objects that it
-- passes.
page-Skipped :
    (h : BibopHeap) (bag : PerThreadBag) (n i k m j : ℕ) (size : ℕ) (a : Ptr)
    → 0 < bag.class_size
    → size ≤ (k + 1) * bag.class_size
    → i + k < bag.num_objects
    → Before n (i + k) m j
    → object_addr h bag n i ≤ a
    → a < object_addr h bag n i + size
    → InSkipped h bag n i m j a
page-Skipped h bag n i k m j size a pos fits inside later above below =
    let y = a - object_addr h bag n i in
    let at : a ≡ object_addr h bag n i + y = omega (arith, above) in
    let rest = mod-lt y pos in
    let blocks = div-add-mod' y bag.class_size in
    let few : y / bag.class_size ≤ k = elim (Bool-cases (leb (y / bag.class_size) k)) [
      | inl le ↦ leb→le _ _ le
      | inr gt ↦
          let more : k < y / bag.class_size = ground (arith, gt) in
          let wide =
            block-lt k (y / bag.class_size) bag.class_size (bag.class_size - 1) more
              (omega (arith, pos)) in
          absurd (omega (arith, above, below, fits, wide, blocks))
    ] in
    (
      n,
      i + y / bag.class_size,
      y % bag.class_size,
      refl,
      inr (refl, omega arith),
      (let q = later in ground (arith, q, few)),
      omega (arith, inside, few),
      rest,
      at ∙ byte_of h bag n i y,
    )

-- What `tryRandomGuardPage` protects was protected before, or is passed.
pub skipped :
    (h : BibopHeap) (t b : ℕ) (bag : PerThreadBag) (l : IsLaidOut h t b bag) (item n i : ℕ)
    (at : AtObject h bag item n i) (k size : ℕ)
    → size ≤ (k + 1) * bag.class_size
    → i + k ≤ bag.last_object_index
    → (mem : Memory) (m j : ℕ) → Before n (i + k) m j
    → (a : Ptr) → is_guarded (protect (bag.position item) size mem).guards a ≡ true
    → (is_guarded mem.guards a ≡ true) ⊎ (InEnd h bag a ⊎ InSkipped h bag n i m j a)
unfolding protect
skipped h t b bag l item n i at k size fits inside mem m j later a now =
    elim (guarded-cons (bag.position item) size mem.guards a now) [
      | inl (above, below) ↦ inr (
          inr (
            page-Skipped h bag n i k m j size a l.class_pos fits (omega (arith, inside, l.count))
              later (omega (arith, above, at.position)) (omega (arith, below, at.position))))
      | inr was ↦ inl was
    ]
