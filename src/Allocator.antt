-- ===== src/Allocator.antt =====
-- libfreeguard.cpp: the functions that replace malloc, free and pthread_create, over the two heaps and
-- the threads. What one call takes from the system is an argument. The calls of one thread are
-- modelled in sequence: a spin on the initialisation that this thread itself has begun does not end.
pub mod Route
pub mod Resize
pub mod First
pub mod Running
pub mod Large
pub mod Moved
pub mod Grow
pub mod Course
use free_guard.Base.{
  ℕ, ◌+◌, ◌-◌, ◌*◌, ◌%◌, ◌^◌, ◌==◌, ◌&&◌, ◌||◌, if◌then◌else◌, not, ltb, leb, Bool, true, false,
  add64, mul64, Option, none, some, Run, ok, fault, hang, division_by_zero, ◌>>=◌,
}
use free_guard.Links.{Ptr, null}
use free_guard.Xdefines.{if_canary_condition, get_thread_index}
use free_guard.Bibop.{BibopHeap, Memory}
use free_guard.Bibop.Init
use free_guard.Bibop.Address.{is_small_object}
use free_guard.Bibop.Object.{Draws, allocate_small_object, free_small_object}
use free_guard.Bibop.Object
use free_guard.BigHeap
use free_guard.BigHeap.{
  Supply, init_big_heap, allocate_at_big_heap, is_large_object, deallocate_to_big_heap,
}
use free_guard.Threads
use free_guard.Threads.{Answer, thread_create}

-- `eHeapInitStatus`
pub data HeapInitStatus : Type 0 where
  e_heap_init_not e_heap_init_working e_heap_init_done : HeapInitStatus

abbrev pub is_done : HeapInitStatus → Bool
is_done e_heap_init_not = false
is_done e_heap_init_working = false
is_done e_heap_init_done = true

-- The global state: the singletons, the bytes of memory, and the stacks' area.
pub record Allocator : Type 0 where
  pub heap_init_status : HeapInitStatus
  pub num_large_objects : ℕ
  pub heap : BibopHeap
  pub memory : Memory
  pub big : BigHeap.BigHeap
  pub threads : Threads.Threads
  pub global_stack_addr : Ptr

-- What the system gives to the initialisation: a random number, the two regions of the heap, the
-- calling thread's identifiers, and memory for the maps.
pub record System : Type 0 where
  pub rand : ℕ
  pub heap_begin : Ptr
  pub shadow_begin : Ptr
  pub tid : ℕ
  pub self : ℕ
  pub thread_buckets : Ptr
  pub thread_entry : Ptr
  pub object_buckets : Ptr
  pub resolve : Allocator → Run Allocator

-- The allocator when `heapinitialize` has set up the small heap and declares it initialized.
abbrev pub begun : System → Allocator → Allocator
begun sys a =
    let ready = Init.initialize sys.rand sys.heap_begin sys.shadow_begin in
    record a { heap_init_status = e_heap_init_done; heap = ready.0; memory = ready.1 }

-- `heapinitialize`. `Real::initializer` comes after the small heap and before the threads and the big
-- heap, since it allocates.
unfoldable pub heap_initialize : System → Allocator → Run Allocator
heap_initialize sys a = elim a.heap_init_status [
  | e_heap_init_not ↦ do
    c ← sys.resolve (begun sys a)
    threads ← Threads.initialize sys.tid sys.self sys.thread_buckets sys.thread_entry c.threads
    big ← init_big_heap sys.object_buckets c.big
    ok (record c { threads = threads; big = big })
  | e_heap_init_working ↦ fault hang
  | e_heap_init_done ↦ ok a
]

-- The guard that the entry points begin with.
unfoldable pub ensure_initialized : System → Allocator → Run Allocator
ensure_initialized sys a = if is_done a.heap_init_status then ok a else heap_initialize sys a

-- One allocation: an address on the caller's stack, which tells the thread, and what the heaps draw
-- and are given.
pub record Call : Type 0 where
  pub sys : System
  pub stack_var : Ptr
  pub draws : Draws
  pub supply : Supply

-- What follows the guard of `xxmalloc`.
unfoldable pub allocate : Call → ℕ → Allocator → Run (Ptr × Allocator)
allocate call size a =
    if if_canary_condition size
    then (allocate_at_big_heap a.big size call.supply >>= λ r.
        ok (r.0, record a { num_large_objects = a.num_large_objects + 1; big = r.1 }))
    else (allocate_small_object a.heap (get_thread_index a.global_stack_addr call.stack_var) size
          call.draws a.memory
        >>= λ r. ok (r.0, record a { heap = r.1; memory = r.2 }))

unfoldable pub xxmalloc : Call → ℕ → Allocator → Run (Ptr × Allocator)
xxmalloc call size a = do r ← ensure_initialized call.sys a; allocate call size r

-- A pointer that neither heap knows is reported, and nothing else happens.
unfoldable pub xxfree : Ptr → Allocator → Run Allocator
xxfree ptr a =
    if (ptr == null) || not (is_done a.heap_init_status)
    then ok a
    else if is_small_object a.heap ptr
    then (free_small_object a.heap ptr a.memory >>= λ r. ok (record a { heap = r.0; memory = r.1 }))
    else (is_large_object a.big ptr >>= λ large.
        if large
        then (deallocate_to_big_heap a.big ptr >>= λ big. ok (record a { big = big }))
        else ok a)

-- `memset` with zero, and `memcpy`.
abbrev pub zeroed : Ptr → ℕ → (Ptr → ℕ) → Ptr → ℕ
zeroed ptr size bytes p = if leb ptr p && ltb p (ptr + size) then 0 else bytes p

abbrev pub copied : Ptr → Ptr → ℕ → (Ptr → ℕ) → Ptr → ℕ
copied dest src size bytes p =
    if leb dest p && ltb p (dest + size) then bytes (src + (p - dest)) else bytes p

abbrev pub with_bytes : (Ptr → ℕ) → Allocator → Allocator
with_bytes bytes a = record a { memory = record a.memory { bytes = bytes } }

unfoldable pub xxcalloc : Call → ℕ → ℕ → Allocator → Run (Ptr × Allocator)
xxcalloc call nelem elsize a = do
  (ptr, r) ← xxmalloc call (mul64 nelem elsize) a
  if ptr == null
      then ok (ptr, r)
      else ok (ptr, with_bytes (zeroed ptr (mul64 nelem elsize) r.memory.bytes) r)

-- The size of an object that `xxrealloc` asks the heaps for; -1, the largest `size_t`, if neither
-- knows the object.
unfoldable pub old_size_of : Ptr → Allocator → Run ℕ
old_size_of ptr a =
    if is_small_object a.heap ptr
    then Object.get_object_size a.heap ptr
    else (is_large_object a.big ptr >>= λ large.
        if large then BigHeap.get_object_size a.big ptr else ok (2 ^ 64 - 1))

unfoldable pub xxrealloc : Call → Ptr → ℕ → Allocator → Run (Ptr × Allocator)
xxrealloc call ptr sz a = do
  r ← ensure_initialized call.sys a
  if ptr == null
      then xxmalloc call sz r
      else if sz == 0
      then (xxfree ptr r >>= λ s. ok (null, s))
      else (old_size_of ptr r >>= λ old_size.
          if old_size == 2 ^ 64 - 1
          then ok (null, r)
          else if leb sz old_size
          then ok (ptr, r)
          else (xxmalloc call sz r >>= λ s.
              let moved = with_bytes (copied s.0 ptr old_size s.1.memory.bytes) s.1 in
              xxfree ptr moved >>= λ t. ok (s.0, t)))

-- The remainder is added to the object's address.
unfoldable pub xxmemalign : Call → ℕ → ℕ → Allocator → Run (Ptr × Allocator)
xxmemalign call alignment size a =
    if size == 0
    then ok (null, a)
    else (xxmalloc call (add64 alignment size) a >>= λ r.
        if alignment == 0 then fault division_by_zero else ok (add64 r.0 (r.0 % alignment), r.1))

-- `xxposix_memalign`: the result, the pointer that is stored through `memptr`, and the state.
unfoldable pub xxposix_memalign : Call → ℕ → ℕ → Allocator → Run (ℕ × Ptr × Allocator)
xxposix_memalign call alignment size a = do
  (aligned, r) ← xxmemalign call alignment size a
  ok (0, aligned, r)

-- `xxalloca`, `xxvalloc`, `xxaligned_alloc` and `xxpvalloc` report the call and return NULL.
unfoldable pub unsupported : Allocator → Ptr × Allocator
unsupported a = (null, a)

-- `pthread_create` and `pthread_join`
unfoldable pub pthread_create : System → Ptr → Ptr → Answer → Allocator → Run (ℕ × Allocator)
pthread_create sys start_routine arg answer a = do
  r ← ensure_initialized sys a
  (stack, tid, threads) ← thread_create r.global_stack_addr start_routine arg answer r.threads
  ok (0, record r { threads = threads })

unfoldable pub pthread_join : ℕ → ℕ → Allocator → Run (ℕ × Allocator)
pthread_join joinretval tid a = do
  (result, threads) ← Threads.thread_join joinretval tid a.threads
  ok (result, record a { threads = threads })
