-- ===== src/HashMap/Insert.antt =====
-- hashmap.hh: `insert` against the content of the map.
use free_guard.Base.{
  ℕ, ◌+◌, ◌%◌, ◌^◌, ◌<◌, ◌≡◌, ◌≢◌, refl, sym, ap, ◌∙◌, true, false, ◌&&◌, List, [], ◌∷◌, ◌++◌,
  arith, length, length-append, contains, contains-append, update, ◌==◌, ==_refl, ne→==_false,
  Bool-cases, inl, inr, if◌then◌else◌, Option, none, some, ok, Returns, ◌>>=◌,
}
use free_guard.Links.Seg.{ne_of_mem}
use free_guard.Ring.{node_init, list_insert_tail}
use free_guard.Ring.Chain.{IsRing, IsRing-frame, list_insert_tail-IsRing, list_insert_tail-frame}
use free_guard.HashMap.{
  HashMap, header, hash_index, matches, find, insert_entry, insert, through_int_lem,
}
use free_guard.HashMap.Content.{IsTable, lookup, hash_index-lt, get_hash_entry-header}
use free_guard.HashMap.Change.{separate, header-distinct, IsTable-changed}
use free_guard.HashMap.Find.{find_lem}

module _ {ℓ} {V : Type ℓ} where
  -- An address that `SourceHeap::allocate` may give: no bucket uses it.
  pub record IsFresh (m : HashMap V) (content : ℕ → List ℕ) (entry : ℕ) : Type ℓ where
    pub nonnull : entry ≢ 0
    pub unused : (i : ℕ) → i < m.buckets → contains entry (header m i ∷ content i) ≡ false

  -- Equal keys have equal hashes.
  abbrev pub IsLawful : HashMap V → Type 0
  IsLawful m = (a b len : ℕ) → m.keycmp a b len ≡ true → m.hashfunc a len ≡ m.hashfunc b len

  -- The map after the insertion of a new entry.
  abbrev pub inserted : HashMap V → ℕ → ℕ → V → ℕ → HashMap V
  inserted m key keylen value entry =
      let head = header m (hash_index m key keylen) in
      record m {
        nodes = list_insert_tail entry head (node_init entry m.nodes);
        count = update m.count head ((m.count head + 1) % 2 ^ 64);
        key = update m.key entry key;
        keylen = update m.keylen entry keylen;
        value = update m.value entry value;
      }

module _ {ℓ} {V : Type ℓ} (m : HashMap V) (content : ℕ → List ℕ) (table : IsTable m content)
    (key keylen : ℕ) (value : V) (entry : ℕ) (fresh : IsFresh m content entry) where
  pub insert-inserted :
      keylen < 2 ^ 31 → insert m key keylen value entry ≡ ok (inserted m key keylen value entry)
  unfolding insert insert_entry
  insert-inserted short =
      let i = hash_index m key keylen in
      rw (
        get_hash_entry-header m i (hash_index-lt m key keylen table.some_bucket),
        ne→==_false entry 0 fresh.nonnull,
        through_int_lem keylen short,
      )

  initialized-same :
      (a : ℕ)
      → entry ≢ a
      → ((node_init entry m.nodes).next a ≡ m.nodes.next a)
        × ((node_init entry m.nodes).prev a ≡ m.nodes.prev a)
  unfolding node_init
  initialized-same a other = (ground (arith, other), ground (arith, other))

  -- The initialisation of the new entry leaves every ring as it is.
  initialized-IsRing :
      (i : ℕ) → i < m.buckets → IsRing (node_init entry m.nodes) (header m i) (content i)
  initialized-IsRing i below =
      IsRing-frame m.nodes (node_init entry m.nodes) (header m i) (content i)
        (λ a mem.
          initialized-same a
            (ne_of_mem entry a (header m i ∷ content i) (fresh.unused i below) mem))
        (table.ring i below)

  pub inserted-IsTable :
      length (content (hash_index m key keylen)) + 1 < 2 ^ 31
      → IsTable (inserted m key keylen value entry) (
          update content
            (hash_index m key keylen)
            (content (hash_index m key keylen) ++ entry ∷ []))
  unfolding header
  inserted-IsTable room =
      let b = hash_index m key keylen in
      let xs = content b in
      let below = hash_index-lt m key keylen table.some_bucket in
      IsTable-changed m content table _ _ _ _ _ b (xs ++ entry ∷ [])
        (list_insert_tail-IsRing (node_init entry m.nodes) (header m b) xs entry
          (initialized-IsRing b below) (fresh.unused b below))
        (rw ==_refl (omega (arith, table.counted b below, length-append xs (entry ∷ []))))
        (omega (arith, length-append xs (entry ∷ [])))
        (ground (arith, contains-append 0 xs (entry ∷ []), table.nonnull b below, fresh.nonnull))
        (λ i a lt ne mem.
          let apart = separate m content table i b a lt below ne mem in
          let other = ne_of_mem entry a (header m i ∷ content i) (fresh.unused i lt) mem in
          let (n, p) =
            list_insert_tail-frame (node_init entry m.nodes) (header m b) xs entry a
              (initialized-IsRing b below) (ground (arith, apart, other)) in
          (n ∙ (initialized-same a other).0, p ∙ (initialized-same a other).1))
        (λ i lt ne.
          rw (ne→==_false (header m i) (header m b) (header-distinct m content table i b ne)))
        (λ i a lt ne mem.
          let apart = separate m content table i b a lt below ne mem in
          let other = ne_of_mem entry a (header m i ∷ content i) (fresh.unused i lt) mem in
          ground (arith, apart, other, contains-append a xs (entry ∷ [])))

  -- The new entry matches the keys that `keycmp` finds equal to its own.
  pub lookup-inserted :
      (key' keylen' : ℕ) (xs : List ℕ)
      → contains entry xs ≡ false
      → lookup (inserted m key keylen value entry) key' keylen' xs ≡ lookup m key' keylen' xs
  unfolding matches
  lookup-inserted key' keylen' [] out = refl
  lookup-inserted key' keylen' (x ∷ xs) out =
      let other : (x == entry) ≡ false = ground (arith, out) in
      rw (other, lookup-inserted key' keylen' xs (ground (arith, out)))

  lookup-append :
      (r : HashMap V) (key' keylen' : ℕ) (xs : List ℕ) (x : ℕ)
      → lookup r key' keylen' (xs ++ x ∷ []) ≡ elim (lookup r key' keylen' xs) [
        | none ↦ if matches r key' keylen' x then some (r.value x) else none
        | some v ↦ some v
      ]
  lookup-append r key' keylen' [] x = refl
  lookup-append r key' keylen' (y ∷ xs) x = elim (Bool-cases (matches r key' keylen' y)) [
    | inl e ↦ rw e
    | inr e ↦ rw e (lookup-append r key' keylen' xs x)
  ]

  -- The value of a search that ended at the new entry, if the old content had none.
  abbrev or_new : ℕ → ℕ → Option V → Option V
  or_new key' keylen' none =
      if (keylen == keylen') && m.keycmp key key' keylen' then some value else none
  or_new key' keylen' (some v) = some v

  pub matches-new :
      (key' keylen' : ℕ)
      → matches (inserted m key keylen value entry) key' keylen' entry
        ≡ ((keylen == keylen') && m.keycmp key key' keylen')
  unfolding matches
  matches-new key' keylen' = rw (==_refl entry)

  or_new_lem :
      (key' keylen' : ℕ) (old : Option V)
      → (elim old [
        | none ↦
            if matches (inserted m key keylen value entry) key' keylen' entry
            then some ((inserted m key keylen value entry).value entry)
            else none
        | some v ↦ some v
      ])
        ≡ or_new key' keylen' old
  or_new_lem key' keylen' none = rw (matches-new key' keylen', ==_refl entry)
  or_new_lem key' keylen' (some v) = refl

  -- In another bucket the new entry is not looked for, and no key of that bucket is equal to it.
  or_new-elsewhere :
      IsLawful m
      → (key' keylen' : ℕ) → hash_index m key' keylen' ≢ hash_index m key keylen
      → (old : Option V) → or_new key' keylen' old ≡ old
  unfolding hash_index
  or_new-elsewhere lawful key' keylen' ne (some v) = refl
  or_new-elsewhere lawful key' keylen' ne none =
      elim (Bool-cases ((keylen == keylen') && m.keycmp key key' keylen')) [
        | inl e ↦
            let same : keylen ≡ keylen' = ground (arith, e) in
            let eq : m.keycmp key key' keylen' ≡ true = ground (arith, e) in
            absurd (
              ne (
                ap (λ h. h % m.buckets)
                  (sym (lawful key key' keylen' eq) ∙ ap (m.hashfunc key) (sym same))))
        | inr e ↦ rw e
      ]

  lookup-update :
      IsLawful m
      → (key' keylen' : ℕ)
      → lookup (inserted m key keylen value entry) key' keylen' (
          update content
            (hash_index m key keylen)
            (content (hash_index m key keylen) ++ entry ∷ [])
            (hash_index m key' keylen'))
        ≡ or_new key' keylen' (lookup m key' keylen' (content (hash_index m key' keylen')))
  lookup-update lawful key' keylen' =
      let b = hash_index m key keylen in
      let i = hash_index m key' keylen' in
      let out : (j : ℕ) → j < m.buckets → contains entry (content j) ≡ false =
        λ j lt. ground (arith, fresh.unused j lt) in
      let below = hash_index-lt m key keylen table.some_bucket in
      let below' = hash_index-lt m key' keylen' table.some_bucket in
      elim (Bool-cases (i == b)) [
        | inl e ↦
            let same : i ≡ b = ground (arith, e) in
            rw
              (
                e,
                lookup-append (inserted m key keylen value entry) key' keylen' (content b) entry,
                lookup-inserted key' keylen' (content b) (out b below),
              )
              (or_new_lem key' keylen' _
                ∙ ap (λ j. or_new key' keylen' (lookup m key' keylen' (content j))) (sym same))
        | inr e ↦
            rw (e, lookup-inserted key' keylen' (content i) (out i below'))
              (sym (or_new-elsewhere lawful key' keylen' (λ same. ground (arith, e, same)) _))
      ]

  -- Insertion in a map that holds `content`, at an address that it does not use and with room
  -- in the bucket, returns a map in which the new entry is the last of its bucket and the other
  -- entries are where they were.
  pub insert-IsTable :
      keylen < 2 ^ 31
      → length (content (hash_index m key keylen)) + 1 < 2 ^ 31
      → Returns (insert m key keylen value entry) (λ r. IsTable r (
          update content
            (hash_index m key keylen)
            (content (hash_index m key keylen) ++ entry ∷ [])))
  insert-IsTable short room =
      (inserted m key keylen value entry, insert-inserted short, inserted-IsTable room)

  -- In a map that holds `content` and in which equal keys have equal hashes, insert a key of a
  -- length below 2^31 at an unused address, with room in the bucket: a search then gives what
  -- it gave before, and where it gave nothing, the new value if the new key and its length are
  -- equal to those that are searched for.
  pub find-insert :
      keylen < 2 ^ 31
      → IsLawful m
      → length (content (hash_index m key keylen)) + 1 < 2 ^ 31
      → (key' keylen' : ℕ) (old : Option V) → find m key' keylen' ≡ ok old
      → (insert m key keylen value entry >>= λ r. find r key' keylen')
        ≡ ok (or_new key' keylen' old)
  unfolding hash_index
  find-insert short lawful room key' keylen' old before =
      let r = inserted m key keylen value entry in
      let found : lookup m key' keylen' (content (hash_index m key' keylen')) ≡ old =
        cc (find_lem m content table key' keylen', before) in
      rw (
        insert-inserted short,
        find_lem r _ (inserted-IsTable room) key' keylen',
        lookup-update lawful key' keylen',
        found,
      )
