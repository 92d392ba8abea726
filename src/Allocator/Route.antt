-- ===== src/Allocator/Route.antt =====
-- libfreeguard.cpp: which heap serves a request, and what `free` makes of an address.
use free_guard.Base.{
  ℕ, ◌+◌, ◌-◌, ◌^◌, ◌≤◌, ◌<◌, ◌≡◌, ◌≢◌, ◌⊎◌, inl, inr, refl, sym, ap, ◌∙◌, true, false, List, ◌∷◌,
  arith, length, ◌==◌, ltb, ne→==_false, Bool-cases, lt→ltb, none, some, ok, Returns, ◌>>=◌, word,
  add64,
}
use free_guard.Links.{Ptr, null}
use free_guard.HashMap.{hash_index, find}
use free_guard.HashMap.Insert.{IsFresh}
use free_guard.Xdefines.{page_size, alignup, if_canary_condition, large_object_threshold}
use free_guard.Bibop.SizeClass.{with_canary, class_size_of}
use free_guard.Bibop.Address.{is_small_object}
use free_guard.Bibop.Object.{allocate_small_object}
use free_guard.BigHeap.{
  BigHeap, pointer_size, object_start, is_large_object, allocate_at_big_heap,
  deallocate_to_big_heap,
}
use free_guard.BigHeap.Objects.{IsBigHeap, allocate_at_big_heap_lem, deallocate-allocate}
use free_guard.Allocator.{Allocator, Call, e_heap_init_done, is_done, allocate, xxmalloc, xxfree}
use free_guard.Allocator.Resize.{ensure_initialized-done}

-- The size of a request plus the byte of its canary wraps around: the largest `size_t` is served like
-- a request of size zero, from the class of 16 bytes.
pub allocate-largest_size :
    (call : Call) (a : Allocator)
    → (allocate call (2 ^ 64 - 1) a ≡ allocate call 0 a)
      × (class_size_of (with_canary (2 ^ 64 - 1)) ≡ 16)
unfolding allocate allocate_small_object if_canary_condition with_canary class_size_of
allocate-largest_size call a = (refl, refl)

-- `free` does nothing for NULL, nothing before the heap is initialized, and nothing for an address
-- that neither heap knows.
pub xxfree-ignored :
    (ptr : Ptr) (a : Allocator)
    → (ptr ≡ null ⊎ is_done a.heap_init_status ≡ false)
      ⊎ ((is_small_object a.heap ptr ≡ false) × (is_large_object a.big ptr ≡ ok false))
    → xxfree ptr a ≡ ok a
unfolding xxfree
xxfree-ignored ptr a (inl (inl e)) = rw e
xxfree-ignored ptr a (inl (inr e)) = elim (Bool-cases (ptr == null)) [
  | inl n ↦ rw n
  | inr n ↦ rw (n, e)
]
xxfree-ignored ptr a (inr (small, large)) = elim (Bool-cases (ptr == null)) [
  | inl n ↦ rw n
  | inr n ↦ elim (Bool-cases (is_done a.heap_init_status)) [
    | inl d ↦ rw (n, d, small, large)
    | inr d ↦ rw (n, d)
  ]
]

allocate-large :
    (call : Call) (size : ℕ) (a : Allocator) (s : Ptr × BigHeap)
    → large_object_threshold ≤ size
    → size + page_size ≤ word
    → allocate_at_big_heap a.big size call.supply ≡ ok s
    → allocate call size a
      ≡ ok (s.0, record a { num_large_objects = a.num_large_objects + 1; big = s.1 })
unfolding allocate if_canary_condition
allocate-large call size a s large fits run =
    let above : ltb large_object_threshold (add64 size 1) ≡ true = lt→ltb _ _ (omega arith) in
    rw (above, run)

free-large :
    (ptr : Ptr) (a : Allocator) (big : BigHeap)
    → a.heap_init_status ≡ e_heap_init_done
    → ptr ≢ null
    → is_small_object a.heap ptr ≡ false
    → is_large_object a.big ptr ≡ ok true
    → deallocate_to_big_heap a.big ptr ≡ ok big
    → xxfree ptr a ≡ ok (record a { big = big })
unfolding xxfree
free-large ptr a big done nonnull outside known run =
    let yes : is_done a.heap_init_status ≡ true = ap is_done done in
    rw (ne→==_false ptr null nonnull, yes, outside, known, run)

-- A large object through the entry points: on an initialized heap a request above the threshold
-- is served by the big heap, and counted. Freeing the object releases its whole mapping and
-- nothing else, and a second `free` of it changes nothing. Conditions: the padded size and the
-- mapping stay below 2^64, the object lies outside of the small heap, is not NULL and not in
-- the map, and what the system gives is memory that is not in use.
pub xxfree-xxmalloc :
    (call : Call) (size mapping status entry : ℕ) (a : Allocator) (content : ℕ → List ℕ)
    → a.heap_init_status ≡ e_heap_init_done
    → large_object_threshold ≤ size
    → size + page_size ≤ word
    → mapping + alignup size page_size < word
    → call.supply ≡ record { status = status; mapping = some mapping; entry = entry }
    → IsBigHeap a.big content
    → status ≢ null
    → IsFresh a.big.xmap content entry
    → length (content (hash_index a.big.xmap (object_start size mapping) pointer_size)) + 1 < 2 ^ 31
    → find a.big.xmap (object_start size mapping) pointer_size ≡ ok none
    → object_start size mapping ≢ null
    → is_small_object a.heap (object_start size mapping) ≡ false
    → Returns (xxmalloc call size a >>= λ r. xxfree r.0 r.1) (λ r.
      (r.heap ≡ a.heap)
      × (r.memory ≡ a.memory)
      × (r.num_large_objects ≡ a.num_large_objects + 1)
      × (r.big.unmapped ≡ (mapping, alignup size page_size) ∷ a.big.unmapped)
      × (xxfree (object_start size mapping) r ≡ ok r))
unfolding xxmalloc
xxfree-xxmalloc call size mapping status entry a content done large fits space supply heap given
      fresh room absent nonnull outside =
    let (s, run, (place, low, flush, sized, known, others)) =
      allocate_at_big_heap_lem a.big content heap size mapping status entry fits space given fresh
        room absent in
    let (r, both, (unmapped, gone, twice)) =
      deallocate-allocate a.big content heap size mapping status entry fits space given fresh room
        absent in
    let object = object_start size mapping in
    let granted : allocate_at_big_heap a.big size call.supply ≡ ok s = rw supply run in
    let released : deallocate_to_big_heap s.1 s.0 ≡ ok r =
      ap (λ x. x >>= λ y. deallocate_to_big_heap y.1 y.0) (sym run) ∙ both in
    let served = record a { num_large_objects = a.num_large_objects + 1; big = s.1 } in
    let freed = record served { big = r } in
    let free_run : xxfree s.0 served ≡ ok freed =
      free-large s.0 served r done (rw place nonnull) (rw place outside) known released in
    (
      freed,
      rw (
        ensure_initialized-done call.sys a done,
        allocate-large call size a s large fits granted,
        free_run,
      ),
      (refl, refl, refl, unmapped, xxfree-ignored object freed (inr (outside, gone))),
    )
