-- ===== src/HashMap/Assoc/Step.antt =====
-- hashmap.hh: one call, in terms of the bindings.
use free_guard.Base.{
  ℕ, ◌+◌, ◌^◌, ◌<◌, ◌≤◌, ◌≡◌, ◌≢◌, refl, sym, ap, ◌∙◌, true, false, List, [], ◌∷◌, ◌++◌, arith,
  length, contains, ◌==◌, Bool-cases, inl, inr, Option, none, some, update, ne→==_false, ==_refl,
  ok, Returns,
}
use mathlib.Core.List.{append-nil}
use free_guard.HashMap.{HashMap, header, hash_index, find, insert, insert_if_absent}
use free_guard.HashMap.Find.{find_lem}
use free_guard.HashMap.Insert.{IsFresh, inserted, insert-inserted, inserted-IsTable}
use free_guard.HashMap.Absent.{insert_if_absent-absent, insert_if_absent-present}
use free_guard.HashMap.Assoc.{
  Binding, find_binding, add_absent, bucket, entries_of, HoldsAll, Represents, bucket-append,
  lookup-bucket, IsTable-same,
}

module _ {ℓ} {V : Type ℓ} where
  -- An address for a new entry: no header has it, and no entry of the map.
  pub record IsUnused (base : HashMap V) (xs : List (Binding V)) (entry : ℕ) : Type 0 where
    pub nonnull : entry ≢ 0
    pub beside : (i : ℕ) → i < base.buckets → entry ≢ header base i
    pub unused : contains entry (entries_of xs) ≡ false

  same_header : (m base : HashMap V) (i : ℕ) → m.entries ≡ base.entries → header m i ≡ header base i
  unfolding header
  same_header m base i e = omega (arith, e)

  bucket-unused :
      (m : HashMap V) (xs : List (Binding V)) (a i : ℕ)
      → contains a (entries_of xs) ≡ false
      → contains a (bucket m xs i) ≡ false
  bucket-unused m [] a i h = refl
  bucket-unused m (x ∷ xs) a i h = elim (Bool-cases (hash_index m x.key x.keylen == i)) [
    | inl e ↦ rw e (ground (arith, h, bucket-unused m xs a i (ground (arith, h))))
    | inr e ↦ rw e (bucket-unused m xs a i (ground (arith, h)))
  ]

  bucket-le : (m : HashMap V) (xs : List (Binding V)) (i : ℕ) → length (bucket m xs i) ≤ length xs
  bucket-le m [] i = omega arith
  bucket-le m (x ∷ xs) i = elim (Bool-cases (hash_index m x.key x.keylen == i)) [
    | inl e ↦ rw e (omega (arith, bucket-le m xs i))
    | inr e ↦ rw e (omega (arith, bucket-le m xs i))
  ]

  -- The fields of the other entries are not written.
  HoldsAll-inserted :
      (m : HashMap V) (key keylen : ℕ) (value : V) (entry : ℕ) (xs : List (Binding V))
      → contains entry (entries_of xs) ≡ false
      → HoldsAll m xs
      → HoldsAll (inserted m key keylen value entry) xs
  HoldsAll-inserted m key keylen value entry [] out h = tt
  HoldsAll-inserted m key keylen value entry (x ∷ xs) out h =
      let other : (x.entry == entry) ≡ false = ground (arith, out) in
      (
        (rw other h.0.0, rw other h.0.1, rw other h.0.2),
        HoldsAll-inserted m key keylen value entry xs (ground (arith, out)) h.1,
      )

  pub HoldsAll-append :
      (m : HashMap V) (xs ys : List (Binding V))
      → HoldsAll m xs
      → HoldsAll m ys
      → HoldsAll m (xs ++ ys)
  HoldsAll-append m [] ys h k = k
  HoldsAll-append m (x ∷ xs) ys h k = (h.0, HoldsAll-append m xs ys h.1 k)

  module _ (base m : HashMap V) (xs : List (Binding V)) (r : Represents base m xs) where
    -- `find` gives the value of the oldest binding for the key.
    pub find-Represents :
        (key keylen : ℕ) → find m key keylen ≡ ok (find_binding base.keycmp key keylen xs)
    find-Represents key keylen =
        find_lem m (bucket m xs) r.table key keylen
        ∙ ap ok (
            lookup-bucket m key keylen xs r.lawful r.held
            ∙ ap (λ cmp. find_binding cmp key keylen xs) r.compare)

    module _ (key keylen : ℕ) (value : V) (entry : ℕ) (free : IsUnused base xs entry)
        (room : length xs + 1 < 2 ^ 31) (short : keylen < 2 ^ 31) where
      fresh : IsFresh m (bucket m xs) entry
      fresh = record {
        nonnull = free.nonnull;
        unused = λ i lt.
            rw
              (ne→==_false entry (header m i)
                (λ e. free.beside i (rw (sym r.size) lt) (e ∙ same_header m base i r.start)))
              (bucket-unused m xs entry i free.unused);
      }

      abbrev new : Binding V
      new = record { key = key; keylen = keylen; value = value; entry = entry }

      bucket-new :
          (i : ℕ)
          → update
              (bucket m xs)
              (hash_index m key keylen)
              (bucket m xs (hash_index m key keylen) ++ entry ∷ [])
              i
            ≡ bucket m (xs ++ new ∷ []) i
      bucket-new i = elim (Bool-cases (i == hash_index m key keylen)) [
        | inl e ↦
            let same : i ≡ hash_index m key keylen = ground (arith, e) in
            rw (bucket-append m xs (new ∷ []) i, same, ==_refl (hash_index m key keylen)) refl
        | inr e ↦
            let other : (hash_index m key keylen == i) ≡ false = ground (arith, e) in
            rw (bucket-append m xs (new ∷ []) i, e, other) (sym (append-nil _))
      ]

      -- `insert` puts a new binding behind the others.
      pub insert-Represents :
          Returns (insert m key keylen value entry) (λ m'. Represents base m' (xs ++ new ∷ []))
      unfolding hash_index
      insert-Represents =
          let m' = inserted m key keylen value entry in
          (
            m',
            insert-inserted m (bucket m xs) r.table key keylen value entry fresh short,
            record {
              table = IsTable-same m' _ (bucket m' (xs ++ new ∷ [])) bucket-new (
                  inserted-IsTable m (bucket m xs) r.table key keylen value entry fresh
                    (omega (arith, bucket-le m xs (hash_index m key keylen))));
              held =
                  HoldsAll-append m' xs (new ∷ [])
                    (HoldsAll-inserted m key keylen value entry xs free.unused r.held)
                    (
                      (rw (==_refl entry) refl, rw (==_refl entry) refl, rw (==_refl entry) refl),
                      tt,
                    );
              lawful = r.lawful;
              compare = r.compare;
              start = r.start;
              size = r.size;
            },
          )

  module _ (base m : HashMap V) (xs : List (Binding V)) (r : Represents base m xs)
      (key keylen : ℕ) where
    absent_cases :
        (value : V) (entry : ℕ) (old : Option V)
        → find_binding base.keycmp key keylen xs ≡ old
        → IsUnused base xs entry
        → length xs + 1 < 2 ^ 31
        → keylen < 2 ^ 31
        → let b : Binding V = record { key = key; keylen = keylen; value = value; entry = entry } in
          let (answer, ys) = add_absent base.keycmp b xs in
          Returns
            (insert_if_absent m key keylen value entry)
            (λ s. (s.0 ≡ answer) × Represents base s.1 ys)
    absent_cases value entry none e free room short =
        let nothing : find m key keylen ≡ ok none =
          find-Represents base m xs r key keylen ∙ ap ok e in
        let (m', run, after) =
          insert-Represents base m xs r key keylen value entry free room short in
        rw (add_absent, e)
          ((
            (false, m'),
            insert_if_absent-absent m (bucket m xs) r.table key keylen value entry nothing
                ∙ rw run refl,
            (refl, after),
          ))
    absent_cases value entry (some old) e free room short =
        let there : find m key keylen ≡ ok (some old) =
          find-Represents base m xs r key keylen ∙ ap ok e in
        rw (add_absent, e)
          ((
            (true, m),
            insert_if_absent-present m (bucket m xs) r.table key keylen value entry old there,
            (refl, r),
          ))

    -- `insertIfAbsent` inserts where nothing is found, and otherwise does nothing.
    pub insert_if_absent-Represents :
        (value : V) (entry : ℕ)
        → IsUnused base xs entry
        → length xs + 1 < 2 ^ 31
        → keylen < 2 ^ 31
        → let b : Binding V = record { key = key; keylen = keylen; value = value; entry = entry } in
          let (answer, ys) = add_absent base.keycmp b xs in
          Returns
            (insert_if_absent m key keylen value entry)
            (λ s. (s.0 ≡ answer) × Represents base s.1 ys)
    insert_if_absent-Represents value entry = absent_cases value entry _ refl
