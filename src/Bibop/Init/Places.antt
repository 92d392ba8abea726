-- ===== src/Bibop/Init/Places.antt =====
-- bibopheap.hh: the places that `initialize` gives to the bags in the shadow memory of a heap.
use free_guard.Base.{ℕ, ◌+◌, ◌*◌, ◌≤◌, ◌<◌, ◌≡◌, ◌≢◌, ◌⊎◌, inl, inr, ap, arith}
use free_guard.Bibop.Init.Loop.{objects, sum_objects, sum_objects-le}

order : (a b : ℕ) → (a < b) ⊎ ((b < a) ⊎ (a ≡ b))
order a b = ground arith

before : (size b b' : ℕ) → b < b' → sum_objects size 0 b + objects size b ≤ sum_objects size 0 b'
before size b b' lt =
    let e : 0 + b ≡ b = omega arith in
    omega (arith, ap (objects size) e, sum_objects-le size 0 b b' lt)

-- The number of entries before bag `b` of thread `t`.
abbrev pub place : ℕ → ℕ → ℕ → ℕ
place size t b = t * sum_objects size 0 19 + sum_objects size 0 b

later_thread :
    (size t b t' b' : ℕ) → b < 19 → t < t' → place size t b + objects size b ≤ place size t' b'
later_thread size t b t' b' usable lt =
    let part = before size b 19 usable in
    let row : t * sum_objects size 0 19 + sum_objects size 0 19 ≤ t' * sum_objects size 0 19 =
      grind (arith, lt) in
    omega arith

-- The entries of one of two bags come before those of the other.
pub in_turn :
    (size t b t' b' : ℕ)
    → b < 19
    → b' < 19
    → (t ≢ t') ⊎ (b ≢ b')
    → (place size t b + objects size b ≤ place size t' b')
      ⊎ (place size t' b' + objects size b' ≤ place size t b)
in_turn size t b t' b' usable usable' other = elim (order t t') [
  | inl lt ↦ inl (later_thread size t b t' b' usable lt)
  | inr (inl gt) ↦ inr (later_thread size t' b' t b usable' gt)
  | inr (inr same) ↦
      let row : t * sum_objects size 0 19 ≡ t' * sum_objects size 0 19 =
        ap (λ (k : ℕ). k * sum_objects size 0 19) same in
      elim (order b b') [
        | inl lt ↦ inl (let p = before size b b' lt in omega arith)
        | inr (inl gt) ↦ inr (let p = before size b' b gt in omega arith)
        | inr (inr same') ↦ elim other [ inl ne ↦ absurd (ne same) | inr ne ↦ absurd (ne same') ]
      ]
]

-- The entries of a bag end with those of all threads.
pub place_end :
    (size t b : ℕ)
    → t < 128
    → b < 19
    → place size t b + objects size b ≤ 128 * sum_objects size 0 19
unfolding sum_objects
place_end size t b thread usable =
    let last = later_thread size t b 128 0 usable thread in omega arith
