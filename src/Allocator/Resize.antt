-- ===== src/Allocator/Resize.antt =====
-- libfreeguard.cpp: sizes and alignments in calloc, memalign and realloc.
use free_guard.Base.{
  ℕ, ◌+◌, ◌-◌, ◌*◌, ◌/◌, ◌%◌, ◌^◌, ◌≤◌, ◌<◌, ◌≡◌, ◌≢◌, refl, ap, ◌∙◌, true, arith, ne→==_false,
  le→leb, word, add64, ok, Returns, ◌>>=◌,
}
use native.Mathlib.Nat.{mod-lt, mod-eq_of_lt, div-add-mod', mul-add-mod_self_right}
use free_guard.Links.{Ptr, null}
use free_guard.Allocator.{
  Allocator, System, Call, e_heap_init_done, is_done, ensure_initialized, old_size_of, xxmalloc,
  xxfree, xxcalloc, xxrealloc, xxmemalign,
}

pub ensure_initialized-done :
    (sys : System) (a : Allocator)
    → a.heap_init_status ≡ e_heap_init_done
    → ensure_initialized sys a ≡ ok a
unfolding ensure_initialized
ensure_initialized-done sys a done =
    let yes : is_done a.heap_init_status ≡ true = ap is_done done in rw yes

-- `calloc` reads only the product of its arguments on 64 bits: a request whose product wraps around
-- gets the memory of the wrapped product.
pub xxcalloc_wrap :
    (call : Call) (nelem elsize nelem' elsize' : ℕ) (a : Allocator)
    → (nelem * elsize) % word ≡ (nelem' * elsize') % word
    → xxcalloc call nelem elsize a ≡ xxcalloc call nelem' elsize' a
unfolding xxcalloc
xxcalloc_wrap call nelem elsize nelem' elsize' a h = rw h

-- With a positive alignment and size, `memalign` returns the object that `malloc` gives for
-- their sum, moved up by the object's remainder: the result has twice that remainder modulo the
-- alignment, so it is aligned just if twice the remainder is a multiple of the alignment.
pub xxmemalign_lem :
    (call : Call) (alignment size : ℕ) (a : Allocator) (r : Ptr × Allocator)
    → 0 < alignment
    → 0 < size
    → xxmalloc call (add64 alignment size) a ≡ ok r
    → r.0 + alignment < word
    → Returns (xxmemalign call alignment size a) (λ s.
      (s.0 ≡ r.0 + r.0 % alignment)
      × (s.0 % alignment ≡ (2 * (r.0 % alignment)) % alignment)
      × (s.1 ≡ r.1))
unfolding xxmemalign
xxmemalign_lem call alignment size a r pos some_size run fits =
    let rest = mod-lt r.0 pos in
    let split : r.0 + r.0 % alignment ≡ r.0 / alignment * alignment + 2 * (r.0 % alignment) =
      omega (arith, div-add-mod' r.0 alignment) in
    let twice : (r.0 + r.0 % alignment) % alignment ≡ (2 * (r.0 % alignment)) % alignment =
      ap (λ x. x % alignment) split ∙ mul-add-mod_self_right (r.0 / alignment) alignment _ in
    let here : add64 r.0 (r.0 % alignment) ≡ r.0 + r.0 % alignment = mod-eq_of_lt (omega arith) in
    (
      (r.0 + r.0 % alignment, r.1),
      rw (ne→==_false size 0 (omega arith), run, ne→==_false alignment 0 (omega arith), here),
      (refl, twice, refl),
    )

-- `realloc` of an object that is large enough already returns it and changes nothing; of one that
-- neither heap knows it returns NULL and changes nothing; of NULL it is `malloc`; with size zero it
-- is `free` and returns NULL. The heap is initialized.
pub xxrealloc_lem :
    (call : Call) (ptr sz old : ℕ) (a : Allocator)
    → a.heap_init_status ≡ e_heap_init_done
    → old_size_of ptr a ≡ ok old
    → (ptr ≢ null → sz ≢ 0 → old ≢ 2 ^ 64 - 1 → sz ≤ old → xxrealloc call ptr sz a ≡ ok (ptr, a))
      × (ptr ≢ null → sz ≢ 0 → old ≡ 2 ^ 64 - 1 → xxrealloc call ptr sz a ≡ ok (null, a))
      × (xxrealloc call null sz a ≡ xxmalloc call sz a)
      × (ptr ≢ null → xxrealloc call ptr 0 a ≡ (xxfree ptr a >>= λ s. ok (null, s)))
unfolding xxrealloc
xxrealloc_lem call ptr sz old a done size = (
  λ p s known le. rw (
    ensure_initialized-done call.sys a done,
    ne→==_false ptr null p,
    ne→==_false sz 0 s,
    size,
    ne→==_false old _ known,
    le→leb sz old le,
  ),
  λ p s unknown. rw (
    ensure_initialized-done call.sys a done,
    ne→==_false ptr null p,
    ne→==_false sz 0 s,
    size,
    unknown,
  ),
  rw (ensure_initialized-done call.sys a done),
  λ p. rw (ensure_initialized-done call.sys a done, ne→==_false ptr null p),
)
