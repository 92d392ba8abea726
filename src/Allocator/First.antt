-- ===== src/Allocator/First.antt =====
-- libfreeguard.cpp: the initialisation, and where a small request goes.
use free_guard.Base.{ℕ, ◌+◌, ◌*◌, ◌^◌, ◌≤◌, ◌<◌, ◌≡◌, ◌≢◌, false, arith, ok}
use free_guard.Links.{Ptr, null}
use free_guard.Xdefines.{thread_map_size, max_alive_threads, if_canary_condition, get_thread_index}
use free_guard.Bibop.{BibopHeap, Memory}
use free_guard.Bibop.SizeClass.{with_canary, class_size_of, get_bag_num}
use free_guard.Bibop.Object.{allocate_in_bag, allocate_small_object}
use free_guard.Allocator.{Allocator, System, Call, allocate}

-- What the system's answers to the initialisation must be: memory for the maps.
pub record IsServed (sys : System) : Type 0 where
  pub thread_buckets : sys.thread_buckets ≢ null
  pub thread_entry : sys.thread_entry ≢ null
  pub beside : (i : ℕ) → i < thread_map_size → sys.thread_entry ≢ sys.thread_buckets + i * 24
  pub object_buckets : sys.object_buckets ≢ null

pub get_thread_index-lt : (base x : ℕ) → get_thread_index base x < max_alive_threads
unfolding get_thread_index
get_thread_index-lt base x = ground arith

small_request : (size : ℕ) → size + 1 ≤ 2 ^ 22 → if_canary_condition size ≡ false
unfolding if_canary_condition
small_request size le = ground (arith, le)

-- A small request goes to the bag of its class that belongs to the caller's thread.
pub allocate-small :
    (call : Call) (size : ℕ) (r : Allocator) (h : BibopHeap) (mem : Memory) (t k : ℕ)
    (s : Ptr × BibopHeap × Memory)
    → size + 1 ≤ 2 ^ 22
    → get_thread_index r.global_stack_addr call.stack_var ≡ t
    → r.heap ≡ h
    → r.memory ≡ mem
    → get_bag_num h.first_bag_power (class_size_of (with_canary size)) ≡ k
    → allocate_in_bag h t k call.draws mem ≡ ok s
    → allocate call size r ≡ ok (s.0, record r { heap = s.1; memory = s.2 })
unfolding allocate allocate_small_object
allocate-small call size r h mem t k s le thread heap memory bag run =
    rw (small_request size le, thread, heap, memory, bag, run)
