-- ===== src/Stacks/Guards.antt =====
-- Which addresses of the stack area are protected.
use free_guard.Base.{
  in_range, is_guarded, ℕ, zero, suc, ◌+◌, ◌-◌, ◌*◌, ◌<◌, ◌≡◌, ◌≢◌, refl, ◌∙◌, ap, Bool, true, not,
  ◌&&◌, ◌||◌, leb, ltb, ne→==_false, some, List, [], ◌∷◌, Returns, arith,
}
use free_guard.Links.{Ptr, null}
use free_guard.Xdefines.{max_alive_threads, page_size, stack_size, get_thread_index}
use free_guard.Xdefines.Align.{get_thread_index_lem}
use free_guard.Threads.{stack_of}
use free_guard.Stacks.{mmap_allocate, set_guards, allocate_stacks}

-- The offset lies in the first or the last page of a stack's area.
abbrev at_edge : ℕ → Bool
at_edge offset = ltb offset page_size || leb (stack_size - page_size) offset

-- One round protects the first and the last page of its stack's area.
round-guards :
    (base i j offset : ℕ) (known : Bool)
    → offset < stack_size
    → (in_range (base + j * stack_size + offset) (base + i * stack_size, page_size)
        || (in_range
              (base + j * stack_size + offset)
              (base + i * stack_size + stack_size - page_size, page_size)
            || known))
      ≡ ((leb i j && ltb j (suc i) && at_edge offset) || known)
round-guards base i j offset known lt = ground arith

-- A round and the rounds after it.
merge-rounds :
    (i j left : ℕ) (edge known : Bool)
    → ((leb (suc i) j && ltb j (suc i + left) && edge)
        || ((leb i j && ltb j (suc i) && edge) || known))
      ≡ ((leb i j && ltb j (i + suc left) && edge) || known)
merge-rounds i j left edge known = ground arith

-- Where the system grants every call, the loop returns, and has protected the edges of its stacks
-- besides what was protected before.
set_guards_lem :
    (granted : Ptr → Bool)
    → ((addr : Ptr) → granted addr ≡ true)
    → (base left i j offset : ℕ) (pages : List (Ptr × ℕ)) → offset < stack_size
    → Returns (set_guards granted base left i pages) (λ all.
      is_guarded all (base + j * stack_size + offset) ≡ (
        (leb i j && ltb j (i + left) && at_edge offset)
        || is_guarded pages (base + j * stack_size + offset)))
unfolding set_guards is_guarded
set_guards_lem granted all base zero i j offset pages lt = (pages, refl, ground arith)
set_guards_lem granted all base (suc left) i j offset pages lt =
    let addr = base + j * stack_size + offset in
    let start = base + i * stack_size in
    let upper = start + stack_size - page_size in
    let (result, run, guarded) =
      set_guards_lem granted all base left (suc i) j offset
        ((start, page_size) ∷ (upper, page_size) ∷ pages) lt in
    (
      result,
      rw (all start, all upper) run,
      guarded
          ∙ ap (λ b. (leb (suc i) j && ltb j (suc i + left) && at_edge offset) || b)
              (round-guards base i j offset (is_guarded pages addr) lt)
          ∙ merge-rounds i j left (at_edge offset) (is_guarded pages addr),
    )

-- The stack area that is set up before `main`, where the system grants every `mprotect` and
-- maps the area at an address that is not NULL: the setup returns that address. An address in
-- the area of thread `i`, one of 128, gives back the index `i`, and it is protected just if the
-- thread is not the first and the address lies outside of the stack that `thread_create` gives
-- to the thread.
pub allocate_stacks_lem :
    (granted : Ptr → Bool)
    → ((addr : Ptr) → granted addr ≡ true)
    → (base i offset : ℕ) → base ≢ null
    → i < max_alive_threads
    → offset < stack_size
    → Returns (allocate_stacks (some base) granted) (λ r.
      (r.0 ≡ base)
      × (get_thread_index r.0 (base + i * stack_size + offset) ≡ i)
      × (is_guarded r.1 (base + i * stack_size + offset)
          ≡ (leb 1 i && not (in_range (base + i * stack_size + offset) (stack_of r.0 i)))))
unfolding allocate_stacks mmap_allocate is_guarded stack_of
allocate_stacks_lem granted all base i offset nonnull thread lt =
    let addr = base + i * stack_size + offset in
    let (pages, run, guarded) =
      set_guards_lem granted all base (max_alive_threads - 1) 1 i offset [] lt in
    (
      (base, pages),
      rw (ne→==_false base null nonnull, run) refl,
      (refl, get_thread_index_lem base i offset thread lt, guarded ∙ ground arith),
    )
