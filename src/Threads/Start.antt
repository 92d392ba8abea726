-- ===== src/Threads/Start.antt =====
-- xthread.hh: the threads after `initialize`.
use free_guard.Base.{
  ℕ, ◌+◌, ◌*◌, ◌<◌, ◌≡◌, ◌≢◌, refl, ◌∙◌, true, false, [], arith, ne→==_false, none, some, ok,
  Returns,
}
use free_guard.Links.{Ptr, null}
use free_guard.HashFuncs.{hash_addr, compare_addr}
use free_guard.HashMap.{header, find}
use free_guard.HashMap.Find.{find_lem}
use free_guard.HashMap.Start.{initialize-IsTable}
use free_guard.HashMap.Insert.{IsFresh, inserted, insert-inserted}
use free_guard.Xdefines.{max_alive_threads, thread_map_size}
use free_guard.Threads.{
  Threads, set_thread, alloc_thread_index, initialize_current_thread, initialize_initial_thread,
  initialize,
}
use free_guard.Threads.Slots.{IsSlots}
use free_guard.Threads.Join.{IsThreadMap, find-inserted}

-- The state that `initialize` begins with.
abbrev blank : Threads → Threads
blank t = record t {
  alive_threads = 0;
  thread_index = 0;
  total_threads = max_alive_threads;
  threads = λ i. record {
    available = true;
    tid = 0;
    pthreadt = 0;
    index = i;
    start_routine = 0;
    start_arg = 0;
  };
}

-- The first thread gets slot 0.
initial_thread :
    (tid self : ℕ) (t : Threads)
    → Returns (initialize_initial_thread tid self (blank t)) (λ r.
      IsSlots r
      × (r.alive_threads ≡ 1)
      × ((r.threads 0).available ≡ false)
      × ((r.threads 0).tid ≡ tid)
      × ((r.threads 0).pthreadt ≡ self)
      × (r.xmap ≡ t.xmap))
unfolding initialize_initial_thread alloc_thread_index initialize_current_thread set_thread
initial_thread tid self t = (
  _,
  refl,
  (
    record {
      bound = omega arith;
      counted = refl;
      rest = λ i h. rw (ne→==_false i 0 (omega arith));
    },
    refl,
    refl,
    refl,
    refl,
    refl,
  ),
)

-- `initialize` of the threads, with memory for the buckets and for one entry beside them,
-- returns with one thread alive, the caller, which has slot 0 with its two identifiers; the map
-- leads from its identifier to the slot, and the slots are in order.
pub initialize-IsSlots :
    (tid self : ℕ) (memory entry : Ptr) (t : Threads)
    → memory ≢ null
    → entry ≢ null
    → ((i : ℕ) → i < thread_map_size → entry ≢ memory + i * 24)
    → Returns (initialize tid self memory entry t) (λ r.
      IsSlots r
      × (r.alive_threads ≡ 1)
      × ((r.threads 0).available ≡ false)
      × ((r.threads 0).tid ≡ tid)
      × ((r.threads 0).pthreadt ≡ self)
      × (find r.xmap self 8 ≡ ok (some 0)))
unfolding initialize header
initialize-IsSlots tid self memory entry t ne given beside =
    let (r, run, (slots, alive, used, id, pthread, same)) = initial_thread tid self t in
    let (empty, start, (table, ready, entries, buckets, hash, compare)) =
      initialize-IsTable hash_addr compare_addr thread_map_size memory r.xmap (omega arith) ne in
    let place : (i : ℕ) → header empty i ≡ memory + i * 24 = λ i. omega (arith, entries) in
    let fresh : IsFresh empty (λ i. []) entry = record {
      nonnull = given;
      unused = λ i lt.
          rw (ne→==_false entry _ (λ e. beside i (omega (arith, lt, buckets)) (e ∙ place i)));
    } in
    let map : IsThreadMap empty (λ i. []) = record {
      table = table;
      hash = hash;
      compare = compare;
    } in
    let absent : find empty self 8 ≡ ok none = find_lem empty (λ i. []) table self 8 in
    (
      record r { xmap = inserted empty self 8 0 entry },
      rw (run, start, insert-inserted empty (λ i. []) table self 8 0 entry fresh (omega arith)),
      (
        record { bound = slots.bound; counted = slots.counted; rest = slots.rest },
        alive,
        used,
        id,
        pthread,
        find-inserted empty (λ i. []) map self 0 entry fresh (omega arith) absent,
      ),
    )
