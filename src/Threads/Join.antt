-- ===== src/Threads/Join.antt =====
-- xthread.hh: `thread_create` and `thread_join`.
use free_guard.Base.{
  ℕ, ◌+◌, ◌-◌, ◌*◌, ◌%◌, ◌^◌, ◌<◌, ◌≡◌, ◌≢◌, refl, sym, ap, ◌∙◌, Bool, true, false, List, arith,
  length, ==_refl, ne→==_false, subst, lt→ltb, update, none, some, ok, Returns, ◌>>=◌,
}
use free_guard.HashFuncs.{hash_addr, compare_addr}
use free_guard.HashMap.{HashMap, hash_index, find, insert_if_absent}
use free_guard.HashMap.Content.{IsTable}
use free_guard.HashMap.Insert.{IsFresh, IsLawful, inserted, insert-inserted, find-insert}
use free_guard.HashMap.Absent.{insert_if_absent-absent, insert_if_absent-present}
use free_guard.Xdefines.{max_alive_threads, page_size, stack_size, get_thread_index}
use free_guard.Xdefines.Align.{get_thread_index_lem}
use free_guard.Threads.{
  Threads, set_thread, stack_of, alloc_thread_index, thread_create, thread_joined, thread_join,
}
use free_guard.Threads.Slots.{
  busy, busy-le, busy-give, IsSlots-write, IsSlots, alloc_thread_index-IsSlots,
}

-- The join of a thread that the map leads to a slot in use returns: the slot is available
-- again, no other slot has changed, the count has gone down by one, and the slots are in order.
-- Nothing changes if the system's join fails.
pub thread_join-IsSlots :
    (t : Threads) (tid i : ℕ)
    → IsSlots t
    → find t.xmap tid 8 ≡ ok (some i)
    → i < t.thread_index
    → (t.threads i).available ≡ false
    → ((e : ℕ) → e ≢ 0 → thread_join e tid t ≡ ok (e, t))
      × Returns (thread_join 0 tid t) (λ r.
        (r.0 ≡ 0)
        × ((r.1.threads i).available ≡ true)
        × ((j : ℕ) → j ≢ i → r.1.threads j ≡ t.threads j)
        × (r.1.alive_threads + 1 ≡ t.alive_threads)
        × IsSlots r.1)
unfolding thread_join thread_joined set_thread
thread_join-IsSlots t tid i s found lt used =
    let give = record (t.threads i) { available = true } in
    let fewer : busy (update t.threads i give) t.thread_index + 1 ≡ busy t.threads t.thread_index =
      busy-give t.threads i give t.thread_index lt used refl in
    let r = record t {
      threads = update t.threads i give;
      alive_threads = (t.alive_threads + (2 ^ 32 - 1)) % 2 ^ 32;
    } in
    (
      λ e ne. rw (ne→==_false e 0 ne),
      (
        (0, r),
        rw (found, lt→ltb i max_alive_threads (omega (arith, s.bound))),
        (
          refl,
          rw ==_refl,
          λ j ne. rw (ne→==_false j i ne),
          omega (arith, s.counted, fewer, s.bound, busy-le t.threads t.thread_index),
          record {
            bound = s.bound;
            counted = omega (arith, s.counted, fewer, s.bound, busy-le t.threads t.thread_index);
            rest = λ j h. rw (ne→==_false j i (omega arith)) (s.rest j h);
          },
        ),
      ),
    )

-- The map of the threads is in order: it holds `content`, and hashes and compares addresses.
pub record IsThreadMap (xmap : HashMap ℕ) (content : ℕ → List ℕ) : Type 0 where
  pub table : IsTable xmap content
  pub hash : xmap.hashfunc ≡ hash_addr
  pub compare : xmap.keycmp ≡ compare_addr

pub lawful : (xmap : HashMap ℕ) (content : ℕ → List ℕ) → IsThreadMap xmap content → IsLawful xmap
unfolding compare_addr
lawful xmap content map a b len e =
    let same : a ≡ b =
      ground (arith, subst (λ (f : ℕ → ℕ → ℕ → Bool). f a b len ≡ true) map.compare e) in
    ap (λ k. xmap.hashfunc k len) same

-- An identifier that is inserted is found with its slot.
pub find-inserted :
    (xmap : HashMap ℕ) (content : ℕ → List ℕ) (map : IsThreadMap xmap content) (tid i entry : ℕ)
    → (fresh : IsFresh xmap content entry) → length (content (hash_index xmap tid 8)) + 1 < 2 ^ 31
    → find xmap tid 8 ≡ ok none
    → find (inserted xmap tid 8 i entry) tid 8 ≡ ok (some i)
unfolding compare_addr
find-inserted xmap content map tid i entry fresh room absent =
    let e =
      find-insert xmap content map.table tid 8 i entry fresh (omega arith) (lawful xmap content map)
        room tid 8 none absent in
    let run = insert-inserted xmap content map.table tid 8 i entry fresh (omega arith) in
    let equal : xmap.keycmp tid tid 8 ≡ true = rw (map.compare, ==_refl tid) in
    ap (λ r. r >>= λ x. find x tid 8) (sym run) ∙ e ∙ rw equal

-- With the slots and the map in order, fewer than `MAX_ALIVE_THREADS` threads alive, an
-- identifier that the map does not have, memory for the map's entry that is not NULL and not in
-- use, and room in the identifier's bucket, `thread_create` returns: the new thread has a slot
-- that was available, the map leads from the identifier to the slot, the slots stay in order,
-- and every address in the thread's stack has the slot as its thread index.
pub thread_create-IsSlots :
    (t : Threads) (content : ℕ → List ℕ) (base fn arg tid entry : ℕ)
    → IsSlots t
    → t.alive_threads < max_alive_threads
    → IsThreadMap t.xmap content
    → IsFresh t.xmap content entry
    → length (content (hash_index t.xmap tid 8)) + 1 < 2 ^ 31
    → find t.xmap tid 8 ≡ ok none
    → Returns (thread_create base fn arg (record { tid = some tid; entry = entry }) t) (λ r.
      (i : ℕ) × ((t.threads i).available ≡ true)
      × ((r.2.threads i).available ≡ false)
      × (find r.2.xmap tid 8 ≡ ok (some i))
      × IsSlots r.2
      × ((offset : ℕ) → offset < r.0.1 → get_thread_index base (r.0.0 + offset) ≡ i))
unfolding thread_create set_thread stack_of
thread_create-IsSlots t content base fn arg tid entry s few map fresh room absent =
    let (r, run, (i, e, lt, free, used, others, same, s')) = alloc_thread_index-IsSlots t s few in
    let started = record (r.1.threads i) { start_arg = arg; start_routine = fn; index = i } in
    let known = record started { pthreadt = tid } in
    let xmap = inserted t.xmap tid 8 i entry in
    let taken : alloc_thread_index t ≡ ok (some i, r.1) = run ∙ ap (λ x. ok (x, r.1)) e in
    let put : insert_if_absent r.1.xmap tid 8 i entry ≡ ok (false, xmap) = rw (
      same,
      insert_if_absent-absent t.xmap content map.table tid 8 i entry absent,
      insert-inserted t.xmap content map.table tid 8 i entry fresh (omega arith),
    ) in
    (
      (
        (base + i * stack_size + page_size, stack_size - 2 * page_size),
        tid,
        record r.1 { threads = update (update r.1.threads i started) i known; xmap = xmap },
      ),
      rw (taken, lt→ltb i max_alive_threads lt, ==_refl i, put),
      (
        i,
        free,
        rw (==_refl i) used,
        find-inserted t.xmap content map tid i entry fresh room absent,
        IsSlots-write (record r.1 { threads = update r.1.threads i started }) i known xmap
            (rw ==_refl refl) (IsSlots-write r.1 i started r.1.xmap refl s'),
        λ offset inside.
            let address : base + i * stack_size + (page_size + offset)
                ≡ base + i * stack_size + page_size + offset =
              omega arith in
            subst (λ a. get_thread_index base a ≡ i) address
              (get_thread_index_lem base i (page_size + offset) lt (omega (arith, inside))),
      ),
    )

-- An identifier that the map has from an earlier thread, and which the system gives to a new
-- one: with the slots and the map in order, fewer than `MAX_ALIVE_THREADS` threads alive, and a
-- map that leads from the identifier to slot `j`, create a thread with that identifier and join
-- it. Both return; the new thread had a slot that was available, but after the join slot `j` is
-- available, and the thread's own slot, if it is another one, is still in use.
pub thread_joined-thread_create :
    (t : Threads) (content : ℕ → List ℕ) (base fn arg tid entry j : ℕ)
    → IsSlots t
    → t.alive_threads < max_alive_threads
    → IsThreadMap t.xmap content
    → find t.xmap tid 8 ≡ ok (some j)
    → j < max_alive_threads
    → Returns
        (thread_create base fn arg (record { tid = some tid; entry = entry }) t >>= λ r.
          thread_joined tid r.2)
        (λ s.
          (i : ℕ) × ((t.threads i).available ≡ true)
          × ((s.threads j).available ≡ true)
          × (i ≢ j → (s.threads i).available ≡ false))
unfolding thread_create thread_joined set_thread stack_of
thread_joined-thread_create t content base fn arg tid entry j s few map found below =
    let (r, run, (i, e, lt, free, used, others, same, s')) = alloc_thread_index-IsSlots t s few in
    let started = record (r.1.threads i) { start_arg = arg; start_routine = fn; index = i } in
    let known = record started { pthreadt = tid } in
    let threads = update (update r.1.threads i started) i known in
    let taken : alloc_thread_index t ≡ ok (some i, r.1) = run ∙ ap (λ x. ok (x, r.1)) e in
    let put : insert_if_absent r.1.xmap tid 8 i entry ≡ ok (true, t.xmap) =
      rw same (insert_if_absent-present t.xmap content map.table tid 8 i entry j found) in
    (
      record r.1 {
        threads = update threads j (record (threads j) { available = true });
        xmap = t.xmap;
        alive_threads = (r.1.alive_threads + (2 ^ 32 - 1)) % 2 ^ 32;
      },
      rw
          (
            taken,
            lt→ltb i max_alive_threads lt,
            ==_refl i,
            put,
            found,
            lt→ltb j max_alive_threads below,
          )
          refl,
      (i, free, rw (==_refl j) refl, λ ne. rw (ne→==_false i j ne, ==_refl i) used),
    )
