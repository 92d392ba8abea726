-- ===== src/Allocator/Large.antt =====
-- libfreeguard.cpp: the branches of `malloc` and `free` that leave the small heap as it is.
use free_guard.Base.{
  ℕ, ◌+◌, ◌≡◌, inl, inr, refl, sym, ap, ◌∙◌, arith, true, false, Bool, Bool-cases, ◌==◌, bind-ok,
  ok-injective, ok, ◌>>=◌, if◌then◌else◌,
}
use free_guard.Links.{Ptr, null}
use free_guard.Xdefines.{if_canary_condition}
use free_guard.Bibop.Address.{is_small_object}
use free_guard.BigHeap.{is_large_object, deallocate_to_big_heap, allocate_at_big_heap}
use free_guard.Allocator.{Allocator, Call, e_heap_init_done, is_done, allocate, xxmalloc, xxfree}
use free_guard.Allocator.Resize.{ensure_initialized-done}
use free_guard.Allocator.Route.{xxfree-ignored}

-- The small heap is as it was.
abbrev pub SameSmall : Allocator → Allocator → Type 0
SameSmall a r =
    (r.heap ≡ a.heap) × (r.memory ≡ a.memory) × (r.heap_init_status ≡ a.heap_init_status)

unchanged : (a r : Allocator) → a ≡ r → SameSmall a r
unchanged a r e = (
  ap (λ (x : Allocator). x.heap) (sym e),
  ap (λ (x : Allocator). x.memory) (sym e),
  ap (λ (x : Allocator). x.heap_init_status) (sym e),
)

large_call :
    (call : Call) (size : ℕ) (a : Allocator)
    → a.heap_init_status ≡ e_heap_init_done
    → if_canary_condition size ≡ true
    → xxmalloc call size a ≡ (
        allocate_at_big_heap a.big size call.supply >>= λ s.
        ok (s.0, record a { num_large_objects = a.num_large_objects + 1; big = s.1 }))
unfolding xxmalloc allocate
large_call call size a done large = rw (ensure_initialized-done call.sys a done, large) refl

pub xxmalloc-large :
    (call : Call) (size : ℕ) (ptr : Ptr) (a r : Allocator)
    → a.heap_init_status ≡ e_heap_init_done
    → if_canary_condition size ≡ true
    → xxmalloc call size a ≡ ok (ptr, r)
    → SameSmall a r
xxmalloc-large call size ptr a r done large run =
    let (s, e) =
      bind-ok (allocate_at_big_heap a.big size call.supply) _ _
        (sym (large_call call size a done large) ∙ run) in
    let same : record a { num_large_objects = a.num_large_objects + 1; big = s.1 } ≡ r =
      ap (λ (x : Ptr × Allocator). x.1) (ok-injective e) in
    (
      ap (λ (x : Allocator). x.heap) (sym same),
      ap (λ (x : Allocator). x.memory) (sym same),
      ap (λ (x : Allocator). x.heap_init_status) (sym same),
    )

-- The branch of `free` for addresses outside of the small heap.
free_known :
    (a r : Allocator) (ptr : Ptr) (large : Bool)
    → (if large
        then (deallocate_to_big_heap a.big ptr >>= λ big. ok (record a { big = big }))
        else ok a)
      ≡ ok r
    → SameSmall a r
free_known a r ptr false e = unchanged a r (ok-injective e)
free_known a r ptr true run =
    let (big, e) = bind-ok (deallocate_to_big_heap a.big ptr) _ _ run in
    let same : record a { big = big } ≡ r = ok-injective e in
    (
      ap (λ (x : Allocator). x.heap) (sym same),
      ap (λ (x : Allocator). x.memory) (sym same),
      ap (λ (x : Allocator). x.heap_init_status) (sym same),
    )

other_call :
    (a : Allocator) (ptr : Ptr)
    → a.heap_init_status ≡ e_heap_init_done
    → is_small_object a.heap ptr ≡ false
    → (ptr == null) ≡ false
    → xxfree ptr a ≡ (
        is_large_object a.big ptr >>= λ large.
        if large
        then (deallocate_to_big_heap a.big ptr >>= λ big. ok (record a { big = big }))
        else ok a)
unfolding xxfree
other_call a ptr done small ne =
    let yes : is_done a.heap_init_status ≡ true = ap is_done done in rw (ne, yes, small) refl

pub xxfree-other :
    (a r : Allocator) (ptr : Ptr)
    → a.heap_init_status ≡ e_heap_init_done
    → is_small_object a.heap ptr ≡ false
    → xxfree ptr a ≡ ok r
    → SameSmall a r
xxfree-other a r ptr done small run = elim (Bool-cases (ptr == null)) [
  | inl e ↦
      unchanged a r
        (ok-injective (sym (xxfree-ignored ptr a (inl (inl (ground (arith, e))))) ∙ run))
  | inr e ↦
      let (large, rest) =
        bind-ok (is_large_object a.big ptr) _ _ (sym (other_call a ptr done small e) ∙ run) in
      free_known a r ptr large rest
]
