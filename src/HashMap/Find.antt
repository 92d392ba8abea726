-- ===== src/HashMap/Find.antt =====
-- hashmap.hh: `find` against the content of the map.
use free_guard.Base.{ℕ, ◌≡◌, ◌≢◌, List, arith, ok}
use free_guard.HashMap.{HashMap, header, hash_index, get_entry, find}
use free_guard.HashMap.Content.{
  IsTable, first_match, lookup, take-all, hash_index-lt, get_hash_entry-header, get_entry_lem,
  first_match-lookup,
}

module _ {ℓ} {V : Type ℓ} (m : HashMap V) (content : ℕ → List ℕ) (table : IsTable m content) where
  pub header-ne_null : (i : ℕ) → header m i ≢ 0
  unfolding header
  header-ne_null i e = table.allocated (omega arith)

  -- The entry that is found for a key is the first of its bucket that matches.
  pub get_entry-IsTable :
      (key keylen : ℕ)
      → get_entry m (header m (hash_index m key keylen)) key keylen
        ≡ ok (first_match m key keylen (content (hash_index m key keylen)))
  get_entry-IsTable key keylen =
      let i = hash_index m key keylen in
      let below = hash_index-lt m key keylen table.some_bucket in
      rw (
        get_entry_lem m (header m i) key keylen _ (content i) (header-ne_null i)
            (table.counted i below) (omega arith) (table.small i below) (table.ring i below).chain,
        take-all (content i),
      )

  -- In a map that holds `content`, `find` returns, and gives the value of the first entry of
  -- the key's bucket that matches the key, or nothing if none does.
  pub find_lem :
      (key keylen : ℕ)
      → find m key keylen ≡ ok (lookup m key keylen (content (hash_index m key keylen)))
  unfolding find
  find_lem key keylen =
      let i = hash_index m key keylen in
      let below = hash_index-lt m key keylen table.some_bucket in
      rw (
        get_hash_entry-header m i below,
        get_entry-IsTable key keylen,
        first_match-lookup m key keylen (content i) (table.nonnull i below),
      )
