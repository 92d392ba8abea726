-- ===== src/HashMap/Erase.antt =====
-- hashmap.hh: `erase` against the content of the map.
use free_guard.Base.{
  ℕ, suc, ◌+◌, ◌<◌, ◌≡◌, ◌≢◌, refl, sym, subst, true, false, List, [], ◌∷◌, ◌++◌, arith, length,
  length-append, contains, contains-append, update, ==_refl, ne→==_false, ok, Returns, ◌>>=◌, sub64,
}
use free_guard.Ring.{list_remove_node}
use free_guard.Ring.Chain.{IsRing, list_remove_node-IsRing, list_remove_node-frame}
use free_guard.HashMap.{HashMap, header, hash_index, get_entry, find, erase}
use free_guard.HashMap.Content.{
  IsTable, first_match, lookup, take-front, hash_index-lt, get_hash_entry-header, get_entry_lem,
  first_match-lookup, lookup-nodes,
}
use free_guard.HashMap.Change.{separate, header-distinct, IsTable-changed}
use free_guard.HashMap.Find.{header-ne_null, get_entry-IsTable}

module _ {ℓ} {V : Type ℓ} (m : HashMap V) (content : ℕ → List ℕ) (table : IsTable m content)
    (key keylen : ℕ) where
  -- The map after the removal of `entry`.
  abbrev pub erased : ℕ → HashMap V
  erased entry =
      let head = header m (hash_index m key keylen) in
      record m {
        nodes = list_remove_node entry m.nodes;
        count = update m.count head (sub64 (m.count head) 1);
      }

  -- The map after an `erase` that found nothing.
  abbrev missed : HashMap V
  missed =
      let head = header m (hash_index m key keylen) in
      record m { count = update m.count head (sub64 (m.count head) 1) }

  pub erase-erased :
      (x : ℕ)
      → x ≢ 0
      → first_match m key keylen (content (hash_index m key keylen)) ≡ x
      → erase m key keylen ≡ ok (true, erased x)
  unfolding erase
  erase-erased x ne found =
      let i = hash_index m key keylen in
      rw (
        get_hash_entry-header m i (hash_index-lt m key keylen table.some_bucket),
        get_entry-IsTable m content table key keylen,
        found,
        ne→==_false x 0 ne,
      )

  erase-missed :
      first_match m key keylen (content (hash_index m key keylen)) ≡ 0
      → erase m key keylen ≡ ok (false, missed)
  unfolding erase
  erase-missed absent =
      let i = hash_index m key keylen in
      rw (
        get_hash_entry-header m i (hash_index-lt m key keylen table.some_bucket),
        get_entry-IsTable m content table key keylen,
        absent,
      )

  pub erased-IsTable :
      (ys : List ℕ) (x : ℕ) (zs : List ℕ)
      → content (hash_index m key keylen) ≡ ys ++ x ∷ zs
      → IsTable (erased x) (update content (hash_index m key keylen) (ys ++ zs))
  unfolding header
  erased-IsTable ys x zs split =
      let b = hash_index m key keylen in
      let below = hash_index-lt m key keylen table.some_bucket in
      let ring : IsRing m.nodes (header m b) (ys ++ x ∷ zs) = rw (sym split) (table.ring b below) in
      let len : length (content b) ≡ suc (length (ys ++ zs)) =
        rw split (omega (arith, length-append ys (x ∷ zs), length-append ys zs)) in
      let sep : (i a : ℕ)
          → i < m.buckets
          → i ≢ b
          → contains a (header m i ∷ content i) ≡ true
          → contains a (header m b ∷ ys ++ x ∷ zs) ≡ false =
        λ i a lt ne mem.
          subst (λ v. contains a (header m b ∷ v) ≡ false) split
            (separate m content table i b a lt below ne mem) in
      let zero_out : contains 0 (ys ++ x ∷ zs) ≡ false =
        subst (λ v. contains 0 v ≡ false) split (table.nonnull b below) in
      IsTable-changed m content table _ _ _ _ _ b (ys ++ zs)
        (list_remove_node-IsRing m.nodes (header m b) ys x zs ring).0
        (rw ==_refl (omega (arith, len, table.counted b below, table.small b below)))
        (omega (arith, len, table.small b below))
        (ground (arith, contains-append 0 ys (x ∷ zs), contains-append 0 ys zs, zero_out))
        (λ i a lt ne mem.
          list_remove_node-frame m.nodes (header m b) ys x zs a ring (sep i a lt ne mem))
        (λ i lt ne.
          rw (ne→==_false (header m i) (header m b) (header-distinct m content table i b ne)))
        (λ i a lt ne mem.
          ground (arith, sep i a lt ne mem, contains-append a ys (x ∷ zs), contains-append a ys zs))

  -- In a map that holds `content`, erasing a key that matches the entry `x` first returns true
  -- and takes `x` out of its bucket; the other entries are where they were.
  pub erase-IsTable :
      (ys : List ℕ) (x : ℕ) (zs : List ℕ)
      → content (hash_index m key keylen) ≡ ys ++ x ∷ zs
      → x ≢ 0
      → first_match m key keylen (content (hash_index m key keylen)) ≡ x
      → Returns
          (erase m key keylen)
          (λ r. (r.0 ≡ true) × IsTable r.1 (update content (hash_index m key keylen) (ys ++ zs)))
  erase-IsTable ys x zs split ne found =
      ((true, erased x), erase-erased x ne found, (refl, erased-IsTable ys x zs split))

  -- A walk through the bucket of which the count has lost one.
  get_entry-missed :
      (xs : List ℕ) (x : ℕ)
      → content (hash_index m key keylen) ≡ xs ++ x ∷ []
      → (key' keylen' : ℕ)
      → get_entry missed (header missed (hash_index m key keylen)) key' keylen'
        ≡ ok (first_match missed key' keylen' xs)
  unfolding header
  get_entry-missed xs x split key' keylen' =
      let b = hash_index m key keylen in
      let below = hash_index-lt m key keylen table.some_bucket in
      let ring : IsRing m.nodes (header m b) (xs ++ x ∷ []) = rw (sym split) (table.ring b below) in
      let len : length (content b) ≡ length xs + 1 = rw split (length-append xs (x ∷ [])) in
      let small = table.small b below in
      let count : missed.count (header m b) ≡ length xs =
        rw ==_refl (omega (arith, len, table.counted b below, small)) in
      rw (
        get_entry_lem missed (header m b) key' keylen' (length xs) (xs ++ x ∷ [])
            (header-ne_null m content table b) count (omega (arith, length-append xs (x ∷ [])))
            (omega (arith, len, small)) ring.chain,
        take-front xs x,
      )

  -- In a map that holds `content`, erasing a key that no entry of its bucket matches lowers the
  -- bucket's count all the same: afterwards a search in that bucket gives what the entries
  -- before the last give, and the last entry is not found.
  pub erase-absent :
      (xs : List ℕ) (x : ℕ)
      → content (hash_index m key keylen) ≡ xs ++ x ∷ []
      → first_match m key keylen (content (hash_index m key keylen)) ≡ 0
      → (key' keylen' : ℕ) → hash_index m key' keylen' ≡ hash_index m key keylen
      → (erase m key keylen >>= λ r. find r.1 key' keylen') ≡ ok (lookup m key' keylen' xs)
  unfolding find hash_index
  erase-absent xs x split absent key' keylen' same =
      let b = hash_index m key keylen in
      let below = hash_index-lt m key keylen table.some_bucket in
      let nonnull : contains 0 xs ≡ false = ground (
        arith,
        contains-append 0 xs (x ∷ []),
        subst (λ v. contains 0 v ≡ false) split (table.nonnull b below),
      ) in
      rw (
        erase-missed absent,
        same,
        get_hash_entry-header missed b below,
        get_entry-missed xs x split key' keylen',
        first_match-lookup missed key' keylen' xs nonnull,
        lookup-nodes m m.nodes _ key' keylen' xs,
      )
