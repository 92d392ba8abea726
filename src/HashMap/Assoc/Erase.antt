-- ===== src/HashMap/Assoc/Erase.antt =====
-- hashmap.hh: `erase`, in terms of the bindings.
use free_guard.Base.{
  ℕ, ◌≡◌, ◌≢◌, refl, sym, ap, ◌∙◌, subst, Bool, true, false, List, [], ◌∷◌, ◌++◌, arith, contains,
  contains-append, ◌==◌, Bool-cases, inl, inr, none, some, update, ==_refl, Returns,
}
use free_guard.HashMap.{HashMap, hash_index, erase}
use free_guard.HashMap.Content.{first_match, hash_index-lt, first_match-at}
use free_guard.HashMap.Erase.{erased, erase-erased, erased-IsTable}
use free_guard.HashMap.Assoc.Step.{HoldsAll-append}
use free_guard.HashMap.Assoc.{
  Binding, binds, find_binding, erase_binding, bucket, HoldsAll, Represents, bucket-append,
  binds-same, matches-held, lookup-bucket, IsTable-same,
}

module _ {ℓ} {V : Type ℓ} where
  -- The oldest binding for a key that is found.
  split :
      (keycmp : ℕ → ℕ → ℕ → Bool) (key keylen : ℕ) (xs : List (Binding V)) (v : V)
      → find_binding keycmp key keylen xs ≡ some v
      → (pre : List (Binding V)) × (x : Binding V) × (post : List (Binding V)) × (xs
          ≡ pre ++ x ∷ post)
        × (erase_binding keycmp key keylen xs ≡ pre ++ post)
        × (binds keycmp key keylen x ≡ true)
        × (find_binding keycmp key keylen pre ≡ none)
  split keycmp key keylen [] v h = absurd (ground (arith, h))
  split keycmp key keylen (x ∷ xs) v h = elim (Bool-cases (binds keycmp key keylen x)) [
    | inl e ↦ ([], x, xs, refl, rw e refl, e, refl)
    | inr e ↦
        let (pre, y, post, same, erased, found, none_before) =
          split keycmp key keylen xs v (ground (arith, e, h)) in
        (
          x ∷ pre,
          y,
          post,
          ap (λ zs. x ∷ zs) same,
          rw e (ap (λ zs. x ∷ zs) erased),
          found,
          rw e none_before,
        )
  ]

  HoldsAll-front :
      (m : HashMap V) (xs ys : List (Binding V)) → HoldsAll m (xs ++ ys) → HoldsAll m xs
  HoldsAll-front m [] ys h = tt
  HoldsAll-front m (x ∷ xs) ys h = (h.0, HoldsAll-front m xs ys h.1)

  HoldsAll-back : (m : HashMap V) (xs ys : List (Binding V)) → HoldsAll m (xs ++ ys) → HoldsAll m ys
  HoldsAll-back m [] ys h = h
  HoldsAll-back m (x ∷ xs) ys h = HoldsAll-back m xs ys h.1

  -- Taking out the binding `x`, the oldest one for the key.
  module _ (base m : HashMap V) (pre : List (Binding V)) (x : Binding V) (post : List (Binding V))
      (r : Represents base m (pre ++ x ∷ post)) (key keylen : ℕ)
      (found : binds m.keycmp key keylen x ≡ true)
      (before : find_binding m.keycmp key keylen pre ≡ none) where
    place :
        bucket m (pre ++ x ∷ post) (hash_index m key keylen)
        ≡ bucket m pre (hash_index m key keylen)
          ++ x.entry ∷ bucket m post (hash_index m key keylen)
    place =
        let b = hash_index m key keylen in
        rw (bucket-append m pre (x ∷ post) b, binds-same m key keylen x r.lawful found, ==_refl b)
          refl

    without :
        (i : ℕ)
        → update
            (bucket m (pre ++ x ∷ post))
            (hash_index m key keylen)
            (bucket m pre (hash_index m key keylen) ++ bucket m post (hash_index m key keylen))
            i
          ≡ bucket m (pre ++ post) i
    without i =
        let b = hash_index m key keylen in
        elim (Bool-cases (i == b)) [
          | inl e ↦
              let same : i ≡ b = ground (arith, e) in rw (e, bucket-append m pre post i, same) refl
          | inr e ↦
              let other : (b == i) ≡ false = ground (arith, e) in
              rw
                (
                  e,
                  bucket-append m pre post i,
                  bucket-append m pre (x ∷ post) i,
                  binds-same m key keylen x r.lawful found,
                  other,
                )
                refl
        ]

    erase-split :
        Returns (erase m key keylen) (λ s. (s.0 ≡ true) × Represents base s.1 (pre ++ post))
    unfolding hash_index
    erase-split =
        let content = bucket m (pre ++ x ∷ post) in
        let b = hash_index m key keylen in
        let below = hash_index-lt m key keylen r.table.some_bucket in
        let held = HoldsAll-back m pre (x ∷ post) r.held in
        let m' = erased m content r.table key keylen x.entry in
        let out : contains 0 (bucket m pre b ++ x.entry ∷ bucket m post b) ≡ false =
          subst (λ ys. contains 0 ys ≡ false) place (r.table.nonnull b below) in
        let first : first_match m key keylen (content b) ≡ x.entry =
          ap (first_match m key keylen) place
          ∙ first_match-at m key keylen (bucket m pre b) x.entry (bucket m post b)
              (lookup-bucket m key keylen pre r.lawful (HoldsAll-front m pre (x ∷ post) r.held)
                ∙ before)
              (matches-held m key keylen x held.0 ∙ found) in
        let nonnull : x.entry ≢ 0 = λ e.
          ground (arith, e, out, contains-append 0 (bucket m pre b) (x.entry ∷ bucket m post b)) in
        (
          (true, m'),
          erase-erased m content r.table key keylen x.entry nonnull first,
          (
            refl,
            record {
              table = IsTable-same m' _ (bucket m' (pre ++ post)) without (
                  erased-IsTable m content r.table key keylen (bucket m pre b) x.entry
                    (bucket m post b) place);
              held = HoldsAll-append m' pre post (HoldsAll-front m pre (x ∷ post) r.held) held.1;
              lawful = r.lawful;
              compare = r.compare;
              start = r.start;
              size = r.size;
            },
          ),
        )

  module _ (base m : HashMap V) (xs : List (Binding V)) (r : Represents base m xs)
      (key keylen : ℕ) where
    -- `erase` of a key that is there takes out its oldest binding.
    pub erase-Represents :
        (v : V)
        → find_binding base.keycmp key keylen xs ≡ some v
        → Returns
            (erase m key keylen)
            (λ s. (s.0 ≡ true) × Represents base s.1 (erase_binding base.keycmp key keylen xs))
    erase-Represents v there =
        let (pre, x, post, same, left, found, before) = split base.keycmp key keylen xs v there in
        let (s, run, (reported, after)) =
          erase-split base m pre x post (subst (Represents base m) same r) key keylen
            (ap (λ cmp. binds cmp key keylen x) r.compare ∙ found)
            (ap (λ cmp. find_binding cmp key keylen pre) r.compare ∙ before) in
        (s, run, (reported, subst (Represents base s.1) (sym left) after))
