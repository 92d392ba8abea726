-- ===== src/Threads.antt =====
-- xthread.hh and threadstruct.hh: the slots of the threads that are alive, and the map from a
-- pthread's identifier to its slot. The spin lock is left out: each operation is one step. Assertions
-- are not compiled (NDEBUG).
pub mod Slots
pub mod Join
pub mod Start
use free_guard.Base.{
  ℕ, zero, suc, ◌+◌, ◌-◌, ◌*◌, ◌%◌, ◌^◌, ◌==◌, if◌then◌else◌, ltb, Bool, true, false, update,
  Option, none, some, Run, ok, fault, out_of_bounds, thread_create_failure, ◌>>=◌,
}
use free_guard.Links.{Ptr}
use free_guard.HashFuncs.{hash_addr, compare_addr}
use free_guard.HashMap
use free_guard.HashMap.{HashMap}
use free_guard.Xdefines.{max_alive_threads, thread_map_size, page_size, stack_size}

-- `thread_t`, without the spin lock and the print buffer.
pub record Thread : Type 0 where
  pub available : Bool
  pub tid : ℕ
  pub pthreadt : ℕ
  pub index : ℕ
  pub start_routine : Ptr
  pub start_arg : Ptr

-- `_aliveThreads` and `_threadIndex` are ints of 32 bits.
pub record Threads : Type 0 where
  pub alive_threads : ℕ
  pub thread_index : ℕ
  pub total_threads : ℕ
  pub threads : ℕ → Thread
  pub xmap : HashMap ℕ

-- `getThread`, where it is not out of range.
unfoldable pub set_thread : ℕ → (Thread → Thread) → Threads → Run Threads
set_thread index f t =
    if ltb index max_alive_threads
    then ok (record t { threads = update t.threads index (f (t.threads index)) })
    else fault out_of_bounds

abbrev pub taken : Thread → Thread
taken thread = record thread { available = false }

-- The scan of `allocThreadIndex`: `k` slots from `i` on. `none` is the index -1.
unfoldable pub scan : ℕ → ℕ → Threads → Run (Option ℕ × Threads)
scan zero i t = ok (none, t)
scan (suc k) i t =
    let rest = scan k (suc i) t in
    if ltb i max_alive_threads
    then (if (t.threads i).available
        then ok (some i, record t { threads = update t.threads i (taken (t.threads i)) })
        else rest)
    else fault out_of_bounds

-- `allocThreadIndex`. Both branches come after the increment of `_aliveThreads`.
unfoldable pub alloc_thread_index : Threads → Run (Option ℕ × Threads)
alloc_thread_index t =
    let counted = record t { alive_threads = (t.alive_threads + 1) % 2 ^ 32 } in
    if t.alive_threads == t.thread_index
    then (set_thread t.thread_index taken (record counted { thread_index = suc t.thread_index })
        >>= λ r. ok (some t.thread_index, r))
    else scan (suc t.thread_index) 0 counted

-- `initializeCurrentThread`, with the identifier that `gettid` returns.
unfoldable pub initialize_current_thread : ℕ → ℕ → Threads → Run Threads
initialize_current_thread tid index t = set_thread index (λ thread. record thread { tid = tid }) t

-- `initializeInitialThread`, with `gettid` and `pthread_self`.
unfoldable pub initialize_initial_thread : ℕ → ℕ → Threads → Run Threads
initialize_initial_thread tid self t = do
  (tindex, r) ← alloc_thread_index t
  elim tindex [
    | none ↦ fault out_of_bounds
    | some index ↦ do
      s ← initialize_current_thread tid index r
      set_thread index (λ thread. record thread { pthreadt = self }) s
  ]

-- `initialize`, with the memory of the map's buckets and of its first entry. The slots have been
-- zeroed by `memset`.
unfoldable pub initialize : ℕ → ℕ → Ptr → Ptr → Threads → Run Threads
initialize tid self memory entry t = do
  r ← initialize_initial_thread tid self (record t {
    alive_threads = 0;
    thread_index = 0;
    total_threads = max_alive_threads;
    threads = λ i. record {
      available = true;
      tid = 0;
      pthreadt = 0;
      index = i;
      start_routine = 0;
      start_arg = 0;
    };
  })
  empty ← HashMap.initialize (some hash_addr) (some compare_addr) thread_map_size memory r.xmap
  xmap ← HashMap.insert empty self 8 0 entry
  ok (record r { xmap = xmap })

-- What `pthread_create` of the system answers: none where it fails, else the identifier; and the
-- memory of the map's new entry.
pub record Answer : Type 0 where
  pub tid : Option ℕ
  pub entry : Ptr

-- The stack that a thread is created with, inside of the guard pages of its slot's area.
unfoldable pub stack_of : Ptr → ℕ → Ptr × ℕ
stack_of global_stack_addr tindex =
    (global_stack_addr + tindex * stack_size + page_size, stack_size - 2 * page_size)

-- `thread_create`: the result has the stack and the identifier.
unfoldable pub thread_create : Ptr → Ptr → Ptr → Answer → Threads → Run ((Ptr × ℕ) × ℕ × Threads)
thread_create global_stack_addr fn arg answer t = do
  (tindex, r) ← alloc_thread_index t
  elim tindex [
    | none ↦ fault out_of_bounds
    | some index ↦ do
      s ←
          set_thread index
            (λ thread. record thread { start_arg = arg; start_routine = fn; index = index }) r
      elim answer.tid [
        | none ↦ fault thread_create_failure
        | some tid ↦ do
          u ← set_thread index (λ thread. record thread { pthreadt = tid }) s
          (known, xmap) ← HashMap.insert_if_absent u.xmap tid 8 index answer.entry
          ok (stack_of global_stack_addr index, tid, record u { xmap = xmap })
      ]
  ]

-- `thread_join`, after the system's `pthread_join` has succeeded. The count goes down whether or not
-- the slot was found.
unfoldable pub thread_joined : ℕ → Threads → Run Threads
thread_joined tid t = do
  joinee ← HashMap.find t.xmap tid 8
  r ← elim joinee [
    | none ↦ ok t
    | some index ↦ set_thread index (λ thread. record thread { available = true }) t
  ]
  ok (record r { alive_threads = (r.alive_threads + (2 ^ 32 - 1)) % 2 ^ 32 })

-- `thread_join`: nothing changes where the system's `pthread_join` returns an error.
unfoldable pub thread_join : ℕ → ℕ → Threads → Run (ℕ × Threads)
thread_join joinretval tid t =
    if joinretval == 0
    then (thread_joined tid t >>= λ r. ok (joinretval, r))
    else ok (joinretval, t)
