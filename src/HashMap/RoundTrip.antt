-- ===== src/HashMap/RoundTrip.antt =====
-- hashmap.hh: an insertion followed by an erasure.
use free_guard.Base.{
  ℕ, ◌+◌, ◌^◌, ◌<◌, ◌≡◌, refl, sym, ap, ◌∙◌, true, false, List, [], ◌∷◌, ◌++◌, arith, length,
  update, ◌==◌, ==_refl, Bool-cases, inl, inr, none, ok, Returns, ◌>>=◌, contains,
}
use mathlib.Core.List.{append-nil}
use free_guard.HashMap.{HashMap, hash_index, find, insert, erase}
use free_guard.HashMap.Content.{
  IsTable, first_match, lookup, hash_index-lt, lookup-nodes, first_match-at,
}
use free_guard.HashMap.Find.{find_lem}
use free_guard.HashMap.Insert.{
  IsFresh, inserted, insert-inserted, inserted-IsTable, lookup-inserted, matches-new,
}
use free_guard.HashMap.Erase.{erased, erase-erased, erased-IsTable}

module _ {ℓ} {V : Type ℓ} (m : HashMap V) (content : ℕ → List ℕ) (table : IsTable m content)
    (key keylen : ℕ) (value : V) (entry : ℕ) (fresh : IsFresh m content entry)
    (room : length (content (hash_index m key keylen)) + 1 < 2 ^ 31) (short : keylen < 2 ^ 31)
    (reflexive : m.keycmp key key keylen ≡ true) (absent : find m key keylen ≡ ok none) where
  -- The content after the insertion, and after the removal.
  abbrev with_entry : ℕ → List ℕ
  with_entry =
      update content (hash_index m key keylen) (content (hash_index m key keylen) ++ entry ∷ [])

  abbrev without_entry : ℕ → List ℕ
  without_entry =
      update with_entry (hash_index m key keylen) (content (hash_index m key keylen) ++ [])

  abbrev after : HashMap V
  after =
      erased (inserted m key keylen value entry) with_entry
        (inserted-IsTable m content table key keylen value entry fresh room) key keylen entry

  absent_lookup : lookup m key keylen (content (hash_index m key keylen)) ≡ none
  absent_lookup = cc (find_lem m content table key keylen, absent)

  out : (i : ℕ) → i < m.buckets → contains entry (content i) ≡ false
  out i lt = ground (arith, fresh.unused i lt)

  found :
      first_match
        (inserted m key keylen value entry)
        key
        keylen
        (with_entry (hash_index m key keylen))
      ≡ entry
  found =
      let r = inserted m key keylen value entry in
      let b = hash_index m key keylen in
      let below = hash_index-lt m key keylen table.some_bucket in
      rw (==_refl b) (
        first_match-at r key keylen (content b) entry []
          (lookup-inserted m content table key keylen value entry fresh key keylen (content b)
              (out b below)
            ∙ absent_lookup)
          (rw
            (matches-new m content table key keylen value entry fresh, ==_refl keylen, reflexive)))

  erase-insert_run :
      (insert m key keylen value entry >>= λ r. erase r key keylen) ≡ ok (true, after)
  unfolding hash_index
  erase-insert_run = rw (insert-inserted m content table key keylen value entry fresh short) (
      erase-erased (inserted m key keylen value entry) with_entry
        (inserted-IsTable m content table key keylen value entry fresh room) key keylen entry
        fresh.nonnull found)

  after-IsTable : IsTable after without_entry
  unfolding hash_index
  after-IsTable =
      let b = hash_index m key keylen in
      erased-IsTable (inserted m key keylen value entry) with_entry
        (inserted-IsTable m content table key keylen value entry fresh room) key keylen (content b)
        entry [] (rw (==_refl b))

  without_entry_lem : (i : ℕ) → without_entry i ≡ content i
  without_entry_lem i = elim (Bool-cases (i == hash_index m key keylen)) [
    | inl e ↦
        let same : i ≡ hash_index m key keylen = ground (arith, e) in
        rw e (append-nil _ ∙ ap content (sym same))
    | inr e ↦ rw e
  ]

  find-after : (key' keylen' : ℕ) → find after key' keylen' ≡ find m key' keylen'
  unfolding hash_index
  find-after key' keylen' =
      let i = hash_index m key' keylen' in
      let below' = hash_index-lt m key' keylen' table.some_bucket in
      rw (
        find_lem after without_entry after-IsTable key' keylen',
        find_lem m content table key' keylen',
        without_entry_lem i,
        lookup-nodes (inserted m key keylen value entry) _ _ key' keylen' (content i),
        lookup-inserted m content table key keylen value entry fresh key' keylen' (content i)
            (out i below'),
      )

  -- Into a map that holds `content` and has nothing for a key that is equal to itself and has a
  -- length below 2^31, insert the key at an unused address, with room in the bucket, and erase
  -- it: both calls return, the erasure reports the key as found, the entry is gone from its
  -- bucket, and every search gives what it gave at first.
  pub erase-insert : Returns (insert m key keylen value entry >>= λ r. erase r key keylen) (λ r.
      (r.0 ≡ true)
      × IsTable r.1 without_entry
      × ((key' keylen' : ℕ) → find r.1 key' keylen' ≡ find m key' keylen'))
  erase-insert = ((true, after), erase-insert_run, (refl, after-IsTable, find-after))
