-- ===== src/HashMap/Absent.antt =====
-- hashmap.hh: `insertIfAbsent`.
use free_guard.Base.{
  ℕ, ◌≡◌, ◌≢◌, refl, true, false, List, [], ◌∷◌, arith, contains, ne→==_false, Bool-cases, inl, inr,
  none, some, ok, ◌>>=◌,
}
use free_guard.HashMap.{HashMap, hash_index, matches, find, insert, insert_if_absent}
use free_guard.HashMap.Content.{IsTable, first_match, lookup, hash_index-lt, get_hash_entry-header}
use free_guard.HashMap.Find.{get_entry-IsTable, find_lem}

module _ {ℓ} {V : Type ℓ} where
  first_match-none :
      (m : HashMap V) (key keylen : ℕ) (xs : List ℕ)
      → lookup m key keylen xs ≡ none
      → first_match m key keylen xs ≡ 0
  first_match-none m key keylen [] h = refl
  first_match-none m key keylen (x ∷ xs) h = elim (Bool-cases (matches m key keylen x)) [
    | inl e ↦ absurd (ground (arith, e, h))
    | inr e ↦ rw e (first_match-none m key keylen xs (ground (arith, e, h)))
  ]

  first_match-some :
      (m : HashMap V) (key keylen : ℕ) (xs : List ℕ) (v : V)
      → contains 0 xs ≡ false
      → lookup m key keylen xs ≡ some v
      → first_match m key keylen xs ≢ 0
  first_match-some m key keylen [] v out h = absurd (ground (arith, h))
  first_match-some m key keylen (x ∷ xs) v out h = elim (Bool-cases (matches m key keylen x)) [
    | inl e ↦ rw e (λ q. ground (arith, q, out))
    | inr e ↦ rw e (first_match-some m key keylen xs v (ground (arith, out)) (ground (arith, e, h)))
  ]

module _ {ℓ} {V : Type ℓ} (m : HashMap V) (content : ℕ → List ℕ) (table : IsTable m content)
    (key keylen : ℕ) where
  -- In a map that holds `content` and has nothing for the key, `insertIfAbsent` inserts it just
  -- as `insert` does and returns false.
  pub insert_if_absent-absent :
      (value : V) (node : ℕ)
      → find m key keylen ≡ ok none
      → insert_if_absent m key keylen value node
        ≡ (insert m key keylen value node >>= λ r. ok (false, r))
  unfolding insert_if_absent insert
  insert_if_absent-absent value node absent =
      let i = hash_index m key keylen in
      let below = hash_index-lt m key keylen table.some_bucket in
      let nothing : lookup m key keylen (content i) ≡ none =
        cc (find_lem m content table key keylen, absent) in
      rw (
        get_hash_entry-header m i below,
        get_entry-IsTable m content table key keylen,
        first_match-none m key keylen (content i) nothing,
      )

  -- Where a value is found, `insertIfAbsent` returns true and leaves the map as it is.
  pub insert_if_absent-present :
      (value : V) (node : ℕ) (old : V)
      → find m key keylen ≡ ok (some old)
      → insert_if_absent m key keylen value node ≡ ok (true, m)
  unfolding insert_if_absent
  insert_if_absent-present value node old present =
      let i = hash_index m key keylen in
      let below = hash_index-lt m key keylen table.some_bucket in
      let there : lookup m key keylen (content i) ≡ some old =
        cc (find_lem m content table key keylen, present) in
      rw (
        get_hash_entry-header m i below,
        get_entry-IsTable m content table key keylen,
        ne→==_false _ 0
            (first_match-some m key keylen (content i) old (table.nonnull i below) there),
      )
