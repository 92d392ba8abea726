-- ===== src/Bibop/Bump/Covered.antt =====
-- bibopheap.hh: which addresses `incrementBumpPointer` and `tryRandomGuardPage` protect.
use free_guard.Base.{
  ℕ, ◌+◌, ◌-◌, ◌*◌, ◌/◌, ◌%◌, ◌^◌, ◌≤◌, ◌<◌, ◌≡◌, ◌⊎◌, inl, inr, ap, ◌∙◌, arith, Bool-cases, ◌==◌,
  true, List, ◌∷◌, is_guarded, pow_add, mod_block,
}
use native.Mathlib.Nat.{div-add-mod'}
use free_guard.Links.{Ptr}
use free_guard.Bibop.{BibopHeap, PerThreadBag}
use free_guard.Bibop.Layout.{object_addr}
use free_guard.Bibop.Bump.Order.{SameBag}

-- The order in which a bump pointer goes through the objects: heap by heap.
abbrev pub Before : ℕ → ℕ → ℕ → ℕ → Type 0
Before n i m k = (n < m) ⊎ ((n ≡ m) × (i < k))

abbrev pub NotBefore : ℕ → ℕ → ℕ → ℕ → Type 0
NotBefore n i m k = (n < m) ⊎ ((n ≡ m) × (i ≤ k))

-- The address lies in the guard behind the bag in one of the heaps.
abbrev pub InEnd : BibopHeap → PerThreadBag → Ptr → Type 0
InEnd h bag a =
    (m : ℕ) × (object_addr h bag m bag.num_objects ≤ a)
    × (a < object_addr h bag m bag.num_objects + bag.guardsize)

-- The address is a byte of an object of the same bag set item, from object `i` in heap `n` on, that a bump pointer that stands
-- at object `i'` in heap `n'` has passed.
abbrev pub InSkipped : BibopHeap → PerThreadBag → ℕ → ℕ → ℕ → ℕ → Ptr → Type 0
InSkipped h bag n i n' i' a =
    (m : ℕ) × (k : ℕ) × (y : ℕ) × (m % 4 ≡ n % 4)
    × NotBefore n i m k
    × Before m k n' i'
    × (k < bag.num_objects)
    × (y < bag.class_size)
    × (a ≡ object_addr h bag m k + y)

-- What is protected was protected before, or is a guard behind the bag, or a skipped object.
abbrev pub Covers :
    BibopHeap → PerThreadBag → List (Ptr × ℕ) → List (Ptr × ℕ) → ℕ → ℕ → ℕ → ℕ → Type 0
Covers h bag old new n i n' i' =
    (a : Ptr)
    → is_guarded new a ≡ true
    → (is_guarded old a ≡ true) ⊎ (InEnd h bag a ⊎ InSkipped h bag n i n' i' a)

pub Covers-later :
    (h : BibopHeap) (bag : PerThreadBag) (old mid new : List (Ptr × ℕ)) (n i n₁ i₁ n' i' : ℕ)
    → ((a : Ptr)
        → is_guarded mid a ≡ true
        → (is_guarded old a ≡ true) ⊎ (InEnd h bag a ⊎ InSkipped h bag n i n' i' a))
    → NotBefore n i n₁ i₁
    → n₁ % 4 ≡ n % 4
    → Covers h bag mid new n₁ i₁ n' i'
    → Covers h bag old new n i n' i'
Covers-later h bag old mid new n i n₁ i₁ n' i' first later same covers a now = elim (covers a now) [
  | inl was ↦ first a was
  | inr (inl end) ↦ inr (inl end)
  | inr (inr (m, k, y, turn, from, to, inside, small, at)) ↦
      inr (inr (m, k, y, turn ∙ same, ground (arith, from, later), to, inside, small, at))
]

-- What is covered up to one place is covered up to a later one.
pub Covers-further :
    (h : BibopHeap) (bag : PerThreadBag) (old new : List (Ptr × ℕ)) (n i n₁ i₁ n' i' : ℕ)
    → NotBefore n₁ i₁ n' i'
    → Covers h bag old new n i n₁ i₁
    → Covers h bag old new n i n' i'
Covers-further h bag old new n i n₁ i₁ n' i' later covers a now = elim (covers a now) [
  | inl was ↦ inl was
  | inr (inl end) ↦ inr (inl end)
  | inr (inr (m, k, y, turn, from, to, inside, small, at)) ↦
      inr (inr (m, k, y, turn, from, ground (arith, to, later), inside, small, at))
]

pub Covers-SameBag :
    (h : BibopHeap) (item : ℕ) (bag new : PerThreadBag) (old guards : List (Ptr × ℕ))
    (n i n' i' : ℕ)
    → SameBag item bag new
    → Covers h new old guards n i n' i'
    → Covers h bag old guards n i n' i'
unfolding object_addr
Covers-SameBag h item bag new old guards n i n' i' same covers a now = elim (covers a now) [
  | inl was ↦ inl was
  | inr (inl (m, above, below)) ↦
      let size = ap (λ (k : ℕ). k * bag.class_size) same.num_objects in
      let size' = ap (λ (c : ℕ). new.num_objects * c) same.class_size in
      inr (
        inl (
          m,
          omega (arith, above, same.start_offset, size, size'),
          omega (arith, below, same.start_offset, size, size', same.guardsize),
        ))
  | inr (inr (m, k, y, turn, from, to, inside, small, at)) ↦ inr (
      inr (
        m,
        k,
        y,
        turn,
        from,
        to,
        omega (arith, inside, same.num_objects),
        omega (arith, small, same.class_size),
        omega (arith, at, same.start_offset, ap (λ (c : ℕ). k * c) same.class_size),
      ))
]

-- One range more.
pub guarded-cons :
    (start size : ℕ) (ranges : List (Ptr × ℕ)) (a : Ptr)
    → is_guarded ((start, size) ∷ ranges) a ≡ true
    → ((start ≤ a) × (a < start + size)) ⊎ (is_guarded ranges a ≡ true)
unfolding is_guarded
guarded-cons start size ranges a h = ground (arith, h)

-- The objects of a class below a page fill the page.
pub page_blocks : (s c : ℕ) → 2 ^ s ≡ c → s ≤ 12 → 4096 / c * c ≡ 4096
page_blocks s c e le =
    let whole : 2 ^ (12 - s) * c ≡ 4096 =
      let shift : 12 - s + s ≡ 12 = omega arith in
      omega (
        arith,
        pow_add (12 - s) s,
        ap (λ (k : ℕ). 2 ^ k) shift,
        ap (λ (k : ℕ). 2 ^ (12 - s) * k) e,
      ) in
    let rest : 4096 % c ≡ 0 =
      let pos : 0 < c = elim (Bool-cases (c == 0)) [
        | inl none ↦
            let zero : c ≡ 0 = ground (arith, none) in
            absurd (omega (arith, whole, ap (λ (k : ℕ). 2 ^ (12 - s) * k) zero))
        | inr some ↦ ground (arith, some)
      ] in
      let padded : 4096 ≡ 2 ^ (12 - s) * c + 0 = omega (arith, whole) in
      ap (λ (k : ℕ). k % c) padded ∙ mod_block (2 ^ (12 - s)) c 0 pos in
    omega (arith, div-add-mod' 4096 c, rest)

-- The byte `y` behind the start of object `i` is one of a later object.
pub byte_of :
    (h : BibopHeap) (bag : PerThreadBag) (n i y : ℕ)
    → object_addr h bag n i + y ≡ object_addr h bag n (i + y / bag.class_size) + y % bag.class_size
unfolding object_addr
byte_of h bag n i y = omega (arith, div-add-mod' y bag.class_size)
