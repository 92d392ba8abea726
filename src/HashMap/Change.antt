-- ===== src/HashMap/Change.antt =====
-- hashmap.hh: a change of one bucket.
use free_guard.Base.{
  ℕ, ◌^◌, ◌<◌, ◌≡◌, ◌≢◌, refl, ◌∙◌, true, false, List, ◌∷◌, arith, length, contains, update,
  update-cases, Bool-cases, inl, inr,
}
use free_guard.Ring.{Nodes}
use free_guard.Ring.Chain.{IsRing, IsRing-frame}
use free_guard.HashMap.{HashMap, header}
use free_guard.HashMap.Content.{IsTable}

module _ {ℓ} {V : Type ℓ} (m : HashMap V) (content : ℕ → List ℕ) (table : IsTable m content) where
  -- The map with other nodes, counts and entries.
  abbrev pub changed : Nodes → (ℕ → ℕ) → (ℕ → ℕ) → (ℕ → ℕ) → (ℕ → V) → HashMap V
  changed nodes count key keylen value = record m {
    nodes = nodes;
    count = count;
    key = key;
    keylen = keylen;
    value = value;
  }

  pub separate :
      (i j a : ℕ)
      → i < m.buckets
      → j < m.buckets
      → i ≢ j
      → contains a (header m i ∷ content i) ≡ true
      → contains a (header m j ∷ content j) ≡ false
  separate i j a below below' ne mem = elim (Bool-cases (contains a (header m j ∷ content j))) [
    | inl e ↦ absurd (ne (table.apart i j a below below' mem e))
    | inr e ↦ e
  ]

  pub header-distinct : (i j : ℕ) → i ≢ j → header m i ≢ header m j
  unfolding header
  header-distinct i j ne = omega arith

  pub IsTable-changed :
      (nodes : Nodes) (count key keylen : ℕ → ℕ) (value : ℕ → V) (b : ℕ) (xs : List ℕ)
      → IsRing nodes (header m b) xs
      → count (header m b) ≡ length xs
      → length xs < 2 ^ 31
      → contains 0 xs ≡ false
      → ((i a : ℕ)
          → i < m.buckets
          → i ≢ b
          → contains a (header m i ∷ content i) ≡ true
          → (nodes.next a ≡ m.nodes.next a) × (nodes.prev a ≡ m.nodes.prev a))
      → ((i : ℕ) → i < m.buckets → i ≢ b → count (header m i) ≡ m.count (header m i))
      → ((i a : ℕ)
          → i < m.buckets
          → i ≢ b
          → contains a (header m i ∷ content i) ≡ true
          → contains a (header m b ∷ xs) ≡ false)
      → IsTable (changed nodes count key keylen value) (update content b xs)
  unfolding header
  IsTable-changed nodes count key keylen value b xs ring counted small nonnull same counts apart =
      record {
        some_bucket = table.some_bucket;
        allocated = table.allocated;
        ring =
            update-cases (λ i ys. i < m.buckets → IsRing nodes (header m i) ys) content b xs
              (λ _. ring)
              (λ i ne below.
                IsRing-frame m.nodes nodes (header m i) (content i) (λ a. same i a below ne)
                  (table.ring i below));
        counted =
            update-cases (λ i ys. i < m.buckets → count (header m i) ≡ length ys) content b xs
              (λ _. counted) (λ i ne below. counts i below ne ∙ table.counted i below);
        small =
            update-cases (λ i ys. i < m.buckets → length ys < 2 ^ 31) content b xs (λ _. small)
              (λ i ne. table.small i);
        nonnull =
            update-cases (λ i ys. i < m.buckets → contains 0 ys ≡ false) content b xs (λ _. nonnull)
              (λ i ne. table.nonnull i);
        apart = λ i j a below below'.
            update-cases
              (λ k ys.
                k < m.buckets
                → contains a (header m k ∷ ys) ≡ true
                → contains a (header m j ∷ update content b xs j) ≡ true
                → k ≡ j)
              content b xs
              (λ bb in_b.
                update-cases (λ l zs. l < m.buckets → contains a (header m l ∷ zs) ≡ true → b ≡ l)
                  content b xs (λ lb in_l. refl)
                  (λ l ne lb in_l. absurd (ground (arith, apart l a lb ne in_l, in_b))) j below')
              (λ k ne kb in_k.
                update-cases (λ l zs. l < m.buckets → contains a (header m l ∷ zs) ≡ true → k ≡ l)
                  content b xs (λ lb in_b. absurd (ground (arith, apart k a kb ne in_k, in_b)))
                  (λ l other lb in_l. table.apart k l a kb lb in_k in_l) j below')
              i below;
      }
