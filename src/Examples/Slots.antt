-- ===== src/Examples/Slots.antt =====
-- The threads: their start, a new thread, a join, and 128 threads alive.
use free_guard.Base.{
  in_range, is_guarded, ℕ, ◌+◌, ◌*◌, ◌<◌, ◌≤◌, ◌≡◌, ◌≢◌, refl, true, false, not, ◌&&◌, arith, ltb,
  leb, le→leb, ltb→lt, Bool-cases, inl, inr, some, ok, fault, out_of_bounds, Returns, ◌>>=◌,
}
use free_guard.HashMap.{find}
use free_guard.HashMap.Find.{find_lem}
use free_guard.Xdefines.{get_thread_index, stack_size}
use free_guard.Stacks.{allocate_stacks}
use free_guard.Stacks.Guards.{allocate_stacks_lem}
use free_guard.Threads.{
  Thread, Threads, stack_of, alloc_thread_index, thread_create, thread_joined, thread_join,
  initialize,
}
use free_guard.Threads.Slots.{IsSlots, alloc_thread_index-IsSlots, alloc_thread_index-full}
use free_guard.Threads.Join.{
  thread_create-IsSlots, thread_join-IsSlots, find-inserted, thread_joined-thread_create,
}
use free_guard.Threads.Start.{initialize-IsSlots}
use free_guard.Examples.Maps.{
  map4, no_entries, table4, fresh4, map4-IsThreadMap, map5, one_entry, map5-IsThreadMap,
}

-- `used` slots in use, and the others available.
abbrev slots : ℕ → ℕ → Thread
slots used i = record {
  available = leb used i;
  tid = 0;
  pthreadt = 0;
  index = i;
  start_routine = 0;
  start_arg = 0;
}

abbrev pub two_threads : Threads
two_threads = record {
  alive_threads = 2;
  thread_index = 2;
  total_threads = 128;
  threads = slots 2;
  xmap = map4;
}

two_threads-IsSlots : IsSlots two_threads
two_threads-IsSlots = record { bound = omega arith; counted = refl; rest = λ i h. le→leb 2 i h }

abbrev all_threads : Threads
all_threads = record {
  alive_threads = 128;
  thread_index = 128;
  total_threads = 128;
  threads = slots 128;
  xmap = map4;
}

all_threads-IsSlots : IsSlots all_threads
all_threads-IsSlots = record { bound = omega arith; counted = refl; rest = λ i h. le→leb 128 i h }

alloc_thread_index-IsSlots_example : Returns (alloc_thread_index two_threads) (λ r.
    (i : ℕ) × (r.0 ≡ some i)
    × (i < 128)
    × (leb 2 i ≡ true)
    × ((r.1.threads i).available ≡ false)
    × ((j : ℕ) → j ≢ i → r.1.threads j ≡ slots 2 j)
    × (r.1.xmap ≡ map4)
    × IsSlots r.1)
alloc_thread_index-IsSlots_example =
    alloc_thread_index-IsSlots two_threads two_threads-IsSlots (omega arith)

alloc_thread_index-full_example : alloc_thread_index all_threads ≡ fault out_of_bounds
alloc_thread_index-full_example = alloc_thread_index-full all_threads all_threads-IsSlots refl

thread_create-IsSlots_example :
    Returns
      (thread_create 0x700000000000 5 6 (record { tid = some 900; entry = 2000 }) two_threads)
      (λ r.
        (i : ℕ) × (leb 2 i ≡ true)
        × ((r.2.threads i).available ≡ false)
        × (find r.2.xmap 900 8 ≡ ok (some i))
        × IsSlots r.2
        × ((offset : ℕ) → offset < r.0.1 → get_thread_index 0x700000000000 (r.0.0 + offset) ≡ i))
thread_create-IsSlots_example =
    thread_create-IsSlots two_threads no_entries 0x700000000000 5 6 900 2000 two_threads-IsSlots
      (omega arith) map4-IsThreadMap (fresh4 2000 (omega arith)) (omega arith)
      (find_lem map4 no_entries table4 900 8)

initialize-IsSlots_example : Returns (initialize 4321 900 1000 0x10000 two_threads) (λ r.
    IsSlots r
    × (r.alive_threads ≡ 1)
    × ((r.threads 0).available ≡ false)
    × ((r.threads 0).tid ≡ 4321)
    × ((r.threads 0).pthreadt ≡ 900)
    × (find r.xmap 900 8 ≡ ok (some 0)))
initialize-IsSlots_example =
    initialize-IsSlots 4321 900 1000 0x10000 two_threads (omega arith) (omega arith)
      (λ i lt e. omega (arith, lt, e))

abbrev begun : Returns (initialize 4321 900 1000 0x10000 two_threads) (λ r.
    IsSlots r
    × (r.alive_threads ≡ 1)
    × ((r.threads 0).available ≡ false)
    × ((r.threads 0).tid ≡ 4321)
    × ((r.threads 0).pthreadt ≡ 900)
    × (find r.xmap 900 8 ≡ ok (some 0)))
begun =
    initialize-IsSlots 4321 900 1000 0x10000 two_threads (omega arith) (omega arith)
      (λ i lt e. omega (arith, lt, e))

one_slot : 0 < begun.0.thread_index
one_slot = elim (Bool-cases (ltb 0 begun.0.thread_index)) [
  | inl e ↦ ltb→lt 0 begun.0.thread_index e
  | inr e ↦
      let none : begun.0.thread_index ≤ 0 = ground (arith, e) in
      absurd (cc (begun.2.0.rest 0 none, begun.2.2))
]

thread_join-IsSlots_example :
    ((e : ℕ) → e ≢ 0 → thread_join e 900 begun.0 ≡ ok (e, begun.0))
    × Returns (thread_join 0 900 begun.0) (λ r.
      (r.0 ≡ 0)
      × ((r.1.threads 0).available ≡ true)
      × ((j : ℕ) → j ≢ 0 → r.1.threads j ≡ begun.0.threads j)
      × (r.1.alive_threads + 1 ≡ begun.0.alive_threads)
      × IsSlots r.1)
thread_join-IsSlots_example =
    thread_join-IsSlots begun.0 900 0 begun.2.0 begun.2.5 one_slot begun.2.2

-- The map has the identifier 77 from an earlier thread, in slot 3.
abbrev reused : Threads
reused = record {
  alive_threads = 2;
  thread_index = 2;
  total_threads = 128;
  threads = slots 2;
  xmap = map5;
}

reused-IsSlots : IsSlots reused
reused-IsSlots = record { bound = omega arith; counted = refl; rest = λ i h. le→leb 2 i h }

thread_joined-thread_create_example :
    Returns
      (thread_create 0x700000000000 5 6 (record { tid = some 77; entry = 2100 }) reused >>= λ r.
        thread_joined 77 r.2)
      (λ s.
        (i : ℕ) × (leb 2 i ≡ true)
        × ((s.threads 3).available ≡ true)
        × (i ≢ 3 → (s.threads i).available ≡ false))
thread_joined-thread_create_example =
    thread_joined-thread_create reused one_entry 0x700000000000 5 6 77 2100 3 reused-IsSlots
      (omega arith) map5-IsThreadMap
      (find-inserted map4 no_entries map4-IsThreadMap 77 3 2000 (fresh4 2000 (omega arith))
        (omega arith) (find_lem map4 no_entries table4 77 8))
      (omega arith)

allocate_stacks_lem_example : Returns (allocate_stacks (some 0x7f0000000000) (λ addr. true)) (λ r.
    (r.0 ≡ 0x7f0000000000)
    × (get_thread_index r.0 (0x7f0000000000 + 5 * stack_size + 4095) ≡ 5)
    × (is_guarded r.1 (0x7f0000000000 + 5 * stack_size + 4095)
        ≡ (leb 1 5 && not (in_range (0x7f0000000000 + 5 * stack_size + 4095) (stack_of r.0 5)))))
allocate_stacks_lem_example =
    allocate_stacks_lem (λ addr. true) (λ addr. refl) 0x7f0000000000 5 4095 (ground arith)
      (omega arith) (omega arith)
