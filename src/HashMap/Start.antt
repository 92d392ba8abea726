-- ===== src/HashMap/Start.antt =====
-- hashmap.hh: `initialize`.
use free_guard.Base.{
  ℕ, zero, suc, ◌+◌, ◌*◌, ◌<◌, ◌≤◌, ◌≡◌, ◌≢◌, refl, Bool, true, false, [], arith, lt→ltb, ◌==◌,
  ==_refl, some, Returns, Bool-cases, inl, inr, ne→==_false,
}
use free_guard.Ring.{node_init}
use free_guard.HashMap.{HashMap, header, get_hash_entry, init_headers, initialize}
use free_guard.HashMap.Content.{IsTable}

module _ {ℓ} {V : Type ℓ} where
  init_headers-same :
      (k : ℕ) (m : HashMap V)
      → ((init_headers k m).entries ≡ m.entries)
        × ((init_headers k m).buckets ≡ m.buckets)
        × ((init_headers k m).hashfunc ≡ m.hashfunc)
        × ((init_headers k m).keycmp ≡ m.keycmp)
  unfolding init_headers
  init_headers-same zero m = (refl, refl, refl, refl)
  init_headers-same (suc k) m = init_headers-same k m

  -- The headers that the loop has passed are rings without entries.
  init_headers-empty :
      (k : ℕ) (m : HashMap V) (j : ℕ)
      → k ≤ m.buckets
      → j < k
      → ((init_headers k m).nodes.next (header m j) ≡ header m j)
        × ((init_headers k m).nodes.prev (header m j) ≡ header m j)
        × ((init_headers k m).count (header m j) ≡ 0)
  unfolding init_headers get_hash_entry header node_init
  init_headers-empty zero m j le lt = absurd (omega arith)
  init_headers-empty (suc k) m j le lt =
      let (e, b, f, g) = init_headers-same k m in
      elim (Bool-cases (j == k)) [
        | inl s ↦
            let same : j ≡ k = ground (arith, s) in
            rw (b, e, same, lt→ltb k m.buckets le, ==_refl) (refl, refl, refl)
        | inr s ↦
            let other : (m.entries + j * 24 == m.entries + k * 24) ≡ false =
              ne→==_false _ _ (λ q. ground (arith, s, q)) in
            rw (b, e, lt→ltb k m.buckets le, other)
              (init_headers-empty k m j (omega arith) (ground (arith, s, lt)))
      ]

  -- `initialize` of a map with a hash function, a comparison, a positive number of buckets and
  -- memory for them that is not NULL returns an empty map with those parameters, whatever was
  -- there before.
  pub initialize-IsTable :
      (hfunc : ℕ → ℕ → ℕ) (kcmp : ℕ → ℕ → ℕ → Bool) (size memory : ℕ) (m : HashMap V)
      → 0 < size
      → memory ≢ 0
      → Returns (initialize (some hfunc) (some kcmp) size memory m) (λ r.
        IsTable r (λ i. [])
        × (r.initialized ≡ true)
        × (r.entries ≡ memory)
        × (r.buckets ≡ size)
        × (r.hashfunc ≡ hfunc)
        × (r.keycmp ≡ kcmp))
  unfolding initialize header
  initialize-IsTable hfunc kcmp size memory m pos ne =
      let start = record m { entries = memory; buckets = size; hashfunc = hfunc; keycmp = kcmp } in
      let (e, b, f, g) = init_headers-same size start in
      (
        record (init_headers size start) { initialized = true },
        rw (lt→ltb 0 size pos, ne→==_false memory 0 ne) refl,
        (
          record {
            some_bucket = rw b pos;
            allocated = rw e ne;
            ring = λ i lt.
                let (n, p, c) =
                  init_headers-empty size start i (omega arith) (omega (arith, lt, b)) in
                record { chain = rw e (n, p); distinct = (refl, tt) };
            counted = λ i lt.
                let (n, p, c) =
                  init_headers-empty size start i (omega arith) (omega (arith, lt, b)) in
                rw e c;
            small = λ i lt. omega arith;
            nonnull = λ i lt. refl;
            apart = λ i j a lt lt' p q. ground (arith, p, q);
          },
          refl,
          e,
          b,
          f,
          g,
        ),
      )
