-- ===== src/Bibop/Layout/Cells.antt =====
-- bibopheap.hh: the heap as a row of bags, 4096 in each heap and 32 of a thread in turn.
use free_guard.Base.{
  ℕ, ◌+◌, ◌-◌, ◌*◌, ◌/◌, ◌%◌, ◌≤◌, ◌<◌, ◌≡◌, ◌⊎◌, inl, inr, sym, ap, ◌∙◌, arith, div_block,
  mod_block, block-lt, leb, leb→le, Bool-cases,
}
use native.Mathlib.Nat.{mod-lt, div-add-mod'}

pub same_bag :
    (n m t t' b b' : ℕ)
    → t < 128
    → t' < 128
    → b < 32
    → b' < 32
    → n * 4096 + (t * 32 + b) ≡ m * 4096 + (t' * 32 + b')
    → (t ≡ t') × (b ≡ b')
same_bag n m t t' b b' lt lt' small small' e = (omega arith, omega arith)

pub same_rest : (k n m r r' : ℕ) → r < k → r' < k → n * k + r ≡ m * k + r' → r ≡ r'
same_rest k n m r r' lt lt' e =
    sym (mod_block n k r lt) ∙ ap (λ (x : ℕ). x % k) e ∙ mod_block m k r' lt'

pub same_block : (k n m r r' : ℕ) → r < k → r' < k → n * k + r ≡ m * k + r' → n ≡ m
same_block k n m r r' lt lt' e =
    sym (div_block n k r lt) ∙ ap (λ (x : ℕ). x / k) e ∙ div_block m k r' lt'

-- A place in a bag, with the bag's number among all bags of all heaps.
pub number :
    (begin size n t b c i x : ℕ)
    → begin + n * (4096 * size) + (t * 32 + b) * size + i * c + x
      ≡ begin + ((n * 4096 + (t * 32 + b)) * size + (i * c + x))
number begin size n t b c i x = grind arith

guard_bag :
    (n m t t' b b' d : ℕ)
    → t < 128
    → t' < 128
    → b < 19
    → b' < 19
    → (d ≡ 0) ⊎ ((b ≡ 18) × (d ≤ 13))
    → n * 4096 + (t' * 32 + b') ≡ m * 4096 + (t * 32 + b) + d
    → (d ≡ 0) × (t' ≡ t) × (b' ≡ b)
guard_bag n m t t' b b' d lt lt' small small' (inl none) e =
    (none, omega (arith, e), omega (arith, e))
guard_bag n m t t' b b' d lt lt' small small' (inr (last, few)) e =
    (omega (arith, e), omega (arith, e), omega (arith, e))

-- A place in one of the 19 usable bags of a thread, and a place `y` behind the start of such a bag: if
-- they are the same, it is the same bag, where `y` lies in the bag, or `y` lies in the bag or one of the
-- 13 behind it that are not usable.
pub guard_cell :
    (size n m t t' b b' r y : ℕ)
    → t < 128
    → t' < 128
    → b < 19
    → b' < 19
    → r < size
    → (y < size) ⊎ ((b ≡ 18) × (y < 14 * size))
    → (n * 4096 + (t' * 32 + b')) * size + r ≡ (m * 4096 + (t * 32 + b)) * size + y
    → (t' ≡ t) × (b' ≡ b) × (r ≡ y)
guard_cell size n m t t' b b' r y lt lt' small small' inside guard e =
    let pos : 0 < size = omega (arith, inside) in
    let split = div-add-mod' y size in
    let rest = mod-lt y pos in
    let cells : n * 4096 + (t' * 32 + b') ≡ m * 4096 + (t * 32 + b) + y / size =
      same_block size _ _ r (y % size) inside rest (
        let parts : (m * 4096 + (t * 32 + b) + y / size) * size
            ≡ (m * 4096 + (t * 32 + b)) * size + y / size * size =
          grind arith in
        omega (arith, e, split, parts)) in
    let few : (k : ℕ) → y < (k + 1) * size → y / size ≤ k = λ k short.
      elim (Bool-cases (leb (y / size) k)) [
        | inl le ↦ leb→le _ k le
        | inr gt ↦ absurd (
            omega (
              arith,
              short,
              split,
              block-lt k (y / size) size (size - 1) (ground (arith, gt)) (omega (arith, pos)),
            ))
      ] in
    let steps : (y / size ≡ 0) ⊎ ((b ≡ 18) × (y / size ≤ 13)) = elim guard [
      | inl short ↦ inl (let f = few 0 (omega (arith, short)) in omega arith)
      | inr (last, short) ↦ inr (last, few 13 (omega (arith, short)))
    ] in
    let (none, threads, bags) =
      guard_bag n m t t' b b' (y / size) lt lt' small small' steps cells in
    (
      threads,
      bags,
      omega (
        arith,
        e,
        ap (λ (k : ℕ). k * size) cells,
        ap (λ (k : ℕ). (m * 4096 + (t * 32 + b) + k) * size) none,
        ap (λ (k : ℕ). k * size) none,
      ),
    )
