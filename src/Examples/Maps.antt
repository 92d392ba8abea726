-- ===== src/Examples/Maps.antt =====
-- A map of four buckets, and a heap of big objects.
use free_guard.Base.{
  ℕ, ◌+◌, ◌*◌, ◌≤◌, ◌≡◌, ◌≢◌, refl, sym, ◌∙◌, true, false, List, [], ◌∷◌, arith, update, ==_refl,
  ne→==_false, map, length, ◌<◌, Option, none, some, ok, fault, unknown_object, Returns, ◌>>=◌,
}
use free_guard.HashFuncs.{hash_addr, compare_addr}
use free_guard.HashMap.{HashMap, header, hash_index, matches, initialize, find, insert, erase}
use free_guard.HashMap.Content.{IsTable}
use free_guard.HashMap.Start.{initialize-IsTable}
use free_guard.HashMap.Find.{find_lem}
use free_guard.HashMap.Insert.{IsFresh, inserted, inserted-IsTable, find-insert}
use free_guard.HashMap.Erase.{erase-IsTable, erase-absent}
use free_guard.HashMap.RoundTrip.{erase-insert}
use free_guard.HashMap.Assoc.{Binding, Represents}
use free_guard.HashMap.Assoc.Step.{IsUnused}
use free_guard.HashMap.Assoc.Run.{
  Call, add_if_absent, look_up, take_out, serve_all, answers, serve_all-Represents,
}
use free_guard.HashMap.Iterator.{begin, visit}
use free_guard.HashMap.Iterator.Visit.{visit-begin, in_order}
use free_guard.BigHeap.{
  BigHeap, Supply, object_start, allocate_at_big_heap, deallocate_to_big_heap, get_object_size,
  is_large_object,
}
use free_guard.BigHeap.Objects.{IsBigHeap, allocate_at_big_heap_lem, deallocate-allocate}
use free_guard.Xdefines.{alignup}
use free_guard.Links.{Ptr}
use free_guard.Threads.Join.{IsThreadMap, lawful}

abbrev pub blank_map : HashMap ℕ
blank_map = record {
  initialized = false;
  entries = 0;
  buckets = 0;
  keycmp = λ a b len. false;
  hashfunc = λ a len. 0;
  nodes = record { next = λ _. 0; prev = λ _. 0 };
  count = λ _. 5;
  key = λ _. 0;
  keylen = λ _. 0;
  value = λ _. 0;
}

initialize-IsTable_example :
    Returns (initialize (some hash_addr) (some compare_addr) 4 1000 blank_map) (λ r.
      IsTable r (λ i. [])
      × (r.initialized ≡ true)
      × (r.entries ≡ 1000)
      × (r.buckets ≡ 4)
      × (r.hashfunc ≡ hash_addr)
      × (r.keycmp ≡ compare_addr))
initialize-IsTable_example =
    initialize-IsTable hash_addr compare_addr 4 1000 blank_map (omega arith) (omega arith)

abbrev started : Returns (initialize (some hash_addr) (some compare_addr) 4 1000 blank_map) (λ r.
    IsTable r (λ i. [])
    × (r.initialized ≡ true)
    × (r.entries ≡ 1000)
    × (r.buckets ≡ 4)
    × (r.hashfunc ≡ hash_addr)
    × (r.keycmp ≡ compare_addr))
started = initialize-IsTable hash_addr compare_addr 4 1000 blank_map (omega arith) (omega arith)

abbrev pub map4 : HashMap ℕ
map4 = started.0

abbrev pub no_entries : ℕ → List ℕ
no_entries i = []

pub table4 : IsTable map4 no_entries
table4 = started.2.0

pub map4-IsThreadMap : IsThreadMap map4 no_entries
map4-IsThreadMap = record { table = table4; hash = started.2.4; compare = started.2.5 }

place : (i : ℕ) → header map4 i ≡ 1000 + i * 24
unfolding header
place i = omega (arith, started.2.2)

pub fresh4 : (entry : ℕ) → 2000 ≤ entry → IsFresh map4 no_entries entry
fresh4 entry far = record {
  nonnull = omega arith;
  unused = λ i lt. rw (
      ne→==_false entry (header map4 i) (λ e. absurd (omega (arith, e, place i, lt, started.2.3))));
}

find_lem_example : find map4 77 8 ≡ ok none
find_lem_example = find_lem map4 no_entries table4 77 8

find-insert_example : (insert map4 77 8 3 2000 >>= λ r. find r 78 8) ≡ ok none
unfolding compare_addr
find-insert_example =
    find-insert map4 no_entries table4 77 8 3 2000 (fresh4 2000 (omega arith)) (omega arith)
      (lawful map4 no_entries map4-IsThreadMap) (omega arith) 78 8 none
      (find_lem map4 no_entries table4 78 8)
    ∙ rw started.2.5

equal : (a : ℕ) → map4.keycmp a a 8 ≡ true
unfolding compare_addr
equal a = rw (started.2.5, ==_refl a)

abbrev pub map5 : HashMap ℕ
map5 = inserted map4 77 8 3 2000

abbrev pub one_entry : ℕ → List ℕ
one_entry = update no_entries (hash_index map4 77 8) (2000 ∷ [])

pub table5 : IsTable map5 one_entry
table5 =
    inserted-IsTable map4 no_entries table4 77 8 3 2000 (fresh4 2000 (omega arith)) (omega arith)

-- The hash of an address does not depend on the key's length.
same_bucket : hash_index map4 77 4 ≡ hash_index map4 77 8
unfolding hash_index hash_addr
same_bucket = rw started.2.4

here : one_entry (hash_index map5 77 8) ≡ 2000 ∷ []
unfolding hash_index
here = rw ==_refl

here' : one_entry (hash_index map5 77 4) ≡ 2000 ∷ []
unfolding hash_index
here' = rw (same_bucket, ==_refl)

erase-IsTable_example :
    Returns
      (erase map5 77 8)
      (λ r. (r.0 ≡ true) × IsTable r.1 (update one_entry (hash_index map5 77 8) []))
unfolding matches
erase-IsTable_example =
    erase-IsTable map5 one_entry table5 77 8 [] 2000 [] here (omega arith) (rw (here, equal 77))

erase-absent_example : (erase map5 77 4 >>= λ r. find r.1 77 8) ≡ ok none
unfolding hash_index matches
erase-absent_example =
    erase-absent map5 one_entry table5 77 4 [] 2000 here' (rw here' refl) 77 8 (sym same_bucket)

erase-insert_example : Returns (insert map4 77 8 3 2000 >>= λ r. erase r 77 8) (λ r.
    (r.0 ≡ true)
    × IsTable r.1 (update one_entry (hash_index map4 77 8) [])
    × ((key' keylen' : ℕ) → find r.1 key' keylen' ≡ find map4 key' keylen'))
erase-insert_example =
    erase-insert map4 no_entries table4 77 8 3 2000 (fresh4 2000 (omega arith)) (omega arith)
      (omega arith) (equal 77) (find_lem map4 no_entries table4 77 8)

few : length (in_order one_entry map5.buckets 0) < 5
few = rw started.2.3 (ground arith)

visit-begin_example :
    visit 5 map5 (begin map5)
    ≡ ok (map (λ entry. (map5.key entry, map5.value entry)) (in_order one_entry map5.buckets 0))
visit-begin_example = visit-begin map5 one_entry table5 5 (rw started.2.3 (omega arith)) few

pub map5-IsThreadMap : IsThreadMap map5 one_entry
map5-IsThreadMap = record { table = table5; hash = started.2.4; compare = started.2.5 }

abbrev pub big4 : BigHeap
big4 = record {
  xmap = map4;
  statuses = λ _. record { start = 0; size = 0; page_up_size = 0 };
  unmapped = [];
}

pub big4-IsBigHeap : IsBigHeap big4 no_entries
big4-IsBigHeap = record { table = table4; hash = started.2.4; compare = started.2.5 }

abbrev pub object4 : Ptr
object4 = object_start 5000000 0x40000000

abbrev supply4 : Supply
supply4 = record { status = 3000; mapping = some 0x40000000; entry = 2000 }

allocate_at_big_heap_lem_example : Returns (allocate_at_big_heap big4 5000000 supply4) (λ r.
    (r.0 ≡ object4)
    × (0x40000000 ≤ r.0)
    × (r.0 + 5000000 ≡ 0x40000000 + alignup 5000000 4096)
    × (get_object_size r.1 r.0 ≡ ok 5000000)
    × (is_large_object r.1 r.0 ≡ ok true)
    × ((addr : ℕ) (old : Option Ptr)
        → addr ≢ r.0
        → find map4 addr 8 ≡ ok old
        → find r.1.xmap addr 8 ≡ ok old))
unfolding alignup
allocate_at_big_heap_lem_example =
    allocate_at_big_heap_lem big4 no_entries big4-IsBigHeap 5000000 0x40000000 3000 2000
      (omega arith) (omega arith) (omega arith) (fresh4 2000 (omega arith)) (omega arith)
      (find_lem map4 no_entries table4 object4 8)

deallocate-allocate_example :
    Returns
      (allocate_at_big_heap big4 5000000 supply4 >>= λ r. deallocate_to_big_heap r.1 r.0)
      (λ r.
        (r.unmapped ≡ (0x40000000, alignup 5000000 4096) ∷ [])
        × (is_large_object r object4 ≡ ok false)
        × (deallocate_to_big_heap r object4 ≡ fault unknown_object))
unfolding alignup
deallocate-allocate_example =
    deallocate-allocate big4 no_entries big4-IsBigHeap 5000000 0x40000000 3000 2000 (omega arith)
      (omega arith) (omega arith) (fresh4 2000 (omega arith)) (omega arith)
      (find_lem map4 no_entries table4 object4 8)

abbrev binding : Binding ℕ
binding = record { key = 77; keylen = 8; value = 3; entry = 2000 }

empty-Represents : Represents map4 map4 []
empty-Represents = record {
  table = record {
    some_bucket = table4.some_bucket;
    allocated = table4.allocated;
    ring = table4.ring;
    counted = table4.counted;
    small = table4.small;
    nonnull = table4.nonnull;
    apart = table4.apart;
  };
  held = tt;
  lawful = lawful map4 no_entries map4-IsThreadMap;
  compare = refl;
  start = refl;
  size = refl;
}

unused : IsUnused map4 [] 2000
unused = record {
  nonnull = omega arith;
  beside = λ i lt e. absurd (omega (arith, e, place i, lt, started.2.3));
  unused = refl;
}

-- A key is inserted, found, erased, and not found.
abbrev calls : List (Call ℕ)
calls = add_if_absent binding ∷ look_up 77 8 ∷ take_out 77 8 ∷ look_up 77 8 ∷ []

serve_all-Represents_example :
    let r = answers map4.keycmp calls [] in
    Returns (serve_all calls map4) (λ s. (s.0 ≡ r.0) × Represents map4 s.1 r.1)
serve_all-Represents_example =
    serve_all-Represents map4 map4 calls [] empty-Represents
      ((unused, omega arith, omega arith), (tt, (rw (equal 77) refl, (tt, tt))))
