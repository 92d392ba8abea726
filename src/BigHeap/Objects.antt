-- ===== src/BigHeap/Objects.antt =====
-- bigheap.hh: big objects from their allocation to their release.
use free_guard.Base.{
  ℕ, ◌+◌, ◌^◌, ◌<◌, ◌≤◌, ◌≡◌, ◌≢◌, refl, sym, ap, ◌∙◌, subst, true, false, Bool, List, [], ◌∷◌,
  arith, length, update, ==_refl, ne→==_false, if◌then◌else◌, Option, none, some, ok, fault,
  unknown_object, Returns, ◌>>=◌, word,
}
use free_guard.Links.{Ptr, null}
use free_guard.HashFuncs.{hash_addr, compare_addr}
use free_guard.HashMap.{hash_index, find, erase}
use free_guard.HashMap.Start.{initialize-IsTable}
use free_guard.HashMap.Content.{IsTable}
use free_guard.HashMap.Insert.{IsFresh, IsLawful, inserted, insert-inserted, find-insert}
use free_guard.HashMap.RoundTrip.{erase-insert}
use free_guard.Xdefines.{page_size, thread_map_size, alignup}
use free_guard.Xdefines.Align.{alignup_lem}
use free_guard.BigHeap.{
  BigHeap, Supply, pointer_size, object_start, init_big_heap, allocate_at_big_heap, get_object_size,
  is_large_object, deallocate_to_big_heap,
}

-- The big heap is in order: its map holds `content`, and hashes and compares addresses.
pub record IsBigHeap (big : BigHeap) (content : ℕ → List ℕ) : Type 0 where
  pub table : IsTable big.xmap content
  pub hash : big.xmap.hashfunc ≡ hash_addr
  pub compare : big.xmap.keycmp ≡ compare_addr

-- `initBigHeap`, with memory for the buckets that is not NULL, returns a heap without objects.
pub init_big_heap-IsBigHeap :
    (memory : Ptr) (big : BigHeap)
    → memory ≢ null
    → Returns (init_big_heap memory big) (λ r. IsBigHeap r (λ i. []))
unfolding init_big_heap
init_big_heap-IsBigHeap memory big ne =
    let (xmap, run, (table, ready, entries, buckets, hash, compare)) =
      initialize-IsTable hash_addr compare_addr thread_map_size memory big.xmap (omega arith) ne in
    (record big { xmap = xmap }, rw run, record { table = table; hash = hash; compare = compare })

-- `compareAddr` and `hashAddr` belong together: addresses that compare as equal have equal hashes.
lawful : (big : BigHeap) (content : ℕ → List ℕ) → IsBigHeap big content → IsLawful big.xmap
unfolding compare_addr
lawful big content heap a b len e =
    let same : a ≡ b =
      ground (arith, subst (λ (f : ℕ → ℕ → ℕ → Bool). f a b len ≡ true) heap.compare e) in
    ap (λ k. big.xmap.hashfunc k len) same

module _ (big : BigHeap) (content : ℕ → List ℕ) (heap : IsBigHeap big content)
    (size mapping status entry : ℕ) (fits : size + page_size ≤ word)
    (space : mapping + alignup size page_size < word) (given : status ≢ 0)
    (fresh : IsFresh big.xmap content entry)
    (room : length (content (hash_index big.xmap (object_start size mapping) pointer_size)) + 1
      < 2 ^ 31)
    (absent : find big.xmap (object_start size mapping) pointer_size ≡ ok none) where
  abbrev object : Ptr
  object = object_start size mapping

  abbrev supply : Supply
  supply = record { status = status; mapping = some mapping; entry = entry }

  abbrev allocated : BigHeap
  allocated = record big {
    xmap = inserted big.xmap object pointer_size status entry;
    statuses =
        update big.statuses status
          (record { start = mapping; size = size; page_up_size = alignup size page_size });
  }

  run : allocate_at_big_heap big size supply ≡ ok (object, allocated)
  unfolding allocate_at_big_heap
  run = rw (
    insert-inserted big.xmap content heap.table object pointer_size status entry fresh
        (omega arith),
    ne→==_false status 0 given,
  )

  -- The object ends where its mapping ends.
  flush : (mapping ≤ object) × (object + size ≡ mapping + alignup size page_size)
  unfolding object_start
  flush =
      let (holds, small, pages) = alignup_lem size fits in
      (omega (arith, holds, space), omega (arith, holds, space))

  reflexive : big.xmap.keycmp object object pointer_size ≡ true
  unfolding compare_addr
  reflexive = rw (heap.compare, ==_refl object)

  found : find allocated.xmap object pointer_size ≡ ok (some status)
  found =
      let e =
        find-insert big.xmap content heap.table object pointer_size status entry fresh (omega arith)
          (lawful big content heap) room object pointer_size none absent in
      let i =
        insert-inserted big.xmap content heap.table object pointer_size status entry fresh
          (omega arith) in
      ap (λ r. r >>= λ x. find x object pointer_size) (sym i) ∙ e ∙ rw reflexive

  apart : (addr : ℕ) → addr ≢ object → big.xmap.keycmp object addr pointer_size ≡ false
  unfolding compare_addr
  apart addr ne = rw (heap.compare, ne→==_false object addr (λ e. ne (sym e)))

  find-other :
      (addr : ℕ) (old : Option Ptr)
      → addr ≢ object
      → find big.xmap addr pointer_size ≡ ok old
      → find allocated.xmap addr pointer_size ≡ ok old
  find-other addr old ne before =
      let e =
        find-insert big.xmap content heap.table object pointer_size status entry fresh (omega arith)
          (lawful big content heap) room addr pointer_size old before in
      let i =
        insert-inserted big.xmap content heap.table object pointer_size status entry fresh
          (omega arith) in
      ap (λ r. r >>= λ x. find x addr pointer_size) (sym i) ∙ e ∙ unchanged addr old ne
    where
      unchanged :
          (addr : ℕ) (old : Option Ptr)
          → addr ≢ object
          → ok (elim old [
            | none ↦ if big.xmap.keycmp object addr pointer_size then some status else none
            | some v ↦ some v
          ])
            ≡ ok old
      unchanged addr none ne = rw (apart addr ne)
      unchanged addr (some v) ne = refl

  -- An allocation of `size` bytes in the big heap, for which the padding to whole pages does
  -- not exceed the address space, returns an object that ends at the end of its mapping and
  -- begins inside of it. The heap then knows the object with its size, and what the map said of
  -- other addresses is unchanged. The status object and the map's entry are memory that is not
  -- in use, and the address is not in the map.
  pub allocate_at_big_heap_lem : Returns (allocate_at_big_heap big size supply) (λ r.
      (r.0 ≡ object)
      × (mapping ≤ r.0)
      × (r.0 + size ≡ mapping + alignup size page_size)
      × (get_object_size r.1 r.0 ≡ ok size)
      × (is_large_object r.1 r.0 ≡ ok true)
      × ((addr : ℕ) (old : Option Ptr)
          → addr ≢ r.0
          → find big.xmap addr pointer_size ≡ ok old
          → find r.1.xmap addr pointer_size ≡ ok old))
  unfolding get_object_size is_large_object
  allocate_at_big_heap_lem = (
    (object, allocated),
    run,
    (refl, flush.0, flush.1, rw (found, ==_refl status), rw found, find-other),
  )

  -- A big object that is freed right after its allocation, under the conditions of
  -- `allocate_at_big_heap_lem`: its whole mapping is released, and only that; the object is not
  -- known any more, and a second free of it is reported.
  pub deallocate-allocate :
      Returns (allocate_at_big_heap big size supply >>= λ r. deallocate_to_big_heap r.1 r.0) (λ r.
        (r.unmapped ≡ (mapping, alignup size page_size) ∷ big.unmapped)
        × (is_large_object r object ≡ ok false)
        × (deallocate_to_big_heap r object ≡ fault unknown_object))
  unfolding deallocate_to_big_heap is_large_object
  deallocate-allocate =
      let (r, erase_run, (there, table, same)) =
        erase-insert big.xmap content heap.table object pointer_size status entry fresh room
          (omega arith) reflexive absent in
      let i =
        insert-inserted big.xmap content heap.table object pointer_size status entry fresh
          (omega arith) in
      let erased : erase allocated.xmap object pointer_size ≡ ok r =
        ap (λ x. x >>= λ y. erase y object pointer_size) (sym i) ∙ erase_run in
      let gone : find r.1 object pointer_size ≡ ok none = same object pointer_size ∙ absent in
      (
        record allocated {
          xmap = r.1;
          unmapped = (mapping, alignup size page_size) ∷ big.unmapped;
        },
        rw (run, found, erased, ==_refl status),
        (refl, rw gone, rw gone),
      )
