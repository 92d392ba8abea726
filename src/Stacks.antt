-- ===== src/Stacks.antt =====
-- libfreeguard.cpp and mm.hh: the area of the threads' stacks and its guard pages, which
-- `freeguard_libc_start_main` sets up before `main`. `madvise` is left out, its result is not looked
-- at. Addresses are far below 2^63, so that sums of them do not wrap.
pub mod Guards
use free_guard.Base.{
  ℕ, zero, suc, ◌+◌, ◌-◌, ◌*◌, ◌==◌, if◌then◌else◌, Bool, Option, none, some, List, [], ◌∷◌, Run,
  ok, fault, no_memory, aborted, ◌>>=◌,
}
use free_guard.Links.{Ptr, null}
use free_guard.Xdefines.{max_alive_threads, page_size, stack_size}

-- `MM::allocate`, with what `mmap` returns: none is `MAP_FAILED`, on which the process exits.
unfoldable pub mmap_allocate : Option Ptr → Run Ptr
mmap_allocate none = fault no_memory
mmap_allocate (some ptr) = ok ptr

-- The loop that sets the guard pages: `left` stacks from `i` on. `granted` says of each address
-- whether `mprotect` succeeds there; `pages` are the ranges that are protected so far.
unfoldable pub set_guards : (Ptr → Bool) → Ptr → ℕ → ℕ → List (Ptr × ℕ) → Run (List (Ptr × ℕ))
set_guards granted global_stack_addr zero i pages = ok pages
set_guards granted global_stack_addr (suc left) i pages =
    let stack_start = global_stack_addr + i * stack_size in
    let upper = stack_start + stack_size - page_size in
    let rest =
      set_guards granted global_stack_addr left (suc i)
        ((stack_start, page_size) ∷ (upper, page_size) ∷ pages) in
    if granted upper then (if granted stack_start then rest else fault aborted) else fault aborted

-- `freeguard_libc_start_main` up to the call of the program: `globalStackAddr` and the protected
-- ranges. The first thread's stack has no guard pages.
unfoldable pub allocate_stacks : Option Ptr → (Ptr → Bool) → Run (Ptr × List (Ptr × ℕ))
allocate_stacks answer granted = do
  global_stack_addr ← mmap_allocate answer
  if global_stack_addr == null then fault no_memory else do
    pages ← set_guards granted global_stack_addr (max_alive_threads - 1) 1 []
    ok (global_stack_addr, pages)
