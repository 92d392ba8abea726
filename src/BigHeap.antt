-- ===== src/BigHeap.antt =====
-- bigheap.hh: objects above the large-object threshold. Each has a mapping of its own, and a status
-- object that the map leads to from the object's address. Assertions are not compiled (NDEBUG), and
-- the spin lock is left out: each operation is one step.
pub mod Objects
use free_guard.Base.{
  ℕ, ◌+◌, ◌-◌, ◌^◌, ◌==◌, if◌then◌else◌, Bool, true, false, add64, sub64, update, List, ◌∷◌, Option,
  none, some, Run, ok, fault, no_memory, null_pointer, unknown_object, ◌>>=◌,
}
use free_guard.Links.{Ptr}
use free_guard.HashFuncs.{hash_addr, compare_addr}
use free_guard.HashMap.{HashMap, initialize, find, insert, erase}
use free_guard.Xdefines.{page_size, thread_map_size, alignup}

-- `bigObjectStatus`
pub record BigObjectStatus : Type 0 where
  pub start : Ptr
  pub size : ℕ
  pub page_up_size : ℕ

-- The map from an object's address to its status, the status objects by their address, and the
-- calls of `munmap`, address and size, the latest first.
pub record BigHeap : Type 0 where
  pub xmap : HashMap Ptr
  pub statuses : Ptr → BigObjectStatus
  pub unmapped : List (Ptr × ℕ)

-- What the system hands to one allocation: the memory of the status object and of the map's entry,
-- NULL where there is none, and the mapping, `none` where `mmap` fails.
pub record Supply : Type 0 where
  pub status : Ptr
  pub mapping : Option Ptr
  pub entry : Ptr

-- `sizeof(void*)`
abbrev pub pointer_size : ℕ
pointer_size = 8

-- `initBigHeap`, with the memory for the map's buckets.
unfoldable pub init_big_heap : Ptr → BigHeap → Run BigHeap
init_big_heap memory big = do
  xmap ← initialize (some hash_addr) (some compare_addr) thread_map_size memory big.xmap
  ok (record big { xmap = xmap })

-- The address of an object of `size` bytes, at the end of its mapping.
unfoldable pub object_start : ℕ → Ptr → Ptr
object_start size mapping = mapping + sub64 (alignup size page_size) size

-- `allocateAtBigHeap`. The status object is written after the entry is in the map.
unfoldable pub allocate_at_big_heap : BigHeap → ℕ → Supply → Run (Ptr × BigHeap)
allocate_at_big_heap big size supply = elim supply.mapping [
  | none ↦ fault no_memory
  | some mapping ↦ do
    let object = object_start size mapping
    xmap ← insert big.xmap object pointer_size supply.status supply.entry
    if supply.status == 0
        then fault null_pointer
        else ok (
          object,
          record big {
            xmap = xmap;
            statuses =
                update big.statuses supply.status
                  (record { start = mapping; size = size; page_up_size = alignup size page_size });
          },
        )
]

-- `getObjectSize`, which returns -1, the largest `size_t`, for an address that is not known.
unfoldable pub get_object_size : BigHeap → Ptr → Run ℕ
get_object_size big addr = do
  found ← find big.xmap addr pointer_size
  ok (elim found [ none ↦ 2 ^ 64 - 1 | some status ↦ (big.statuses status).size ])

unfoldable pub is_large_object : BigHeap → Ptr → Run Bool
is_large_object big addr = do
  found ← find big.xmap addr pointer_size
  ok (elim found [ none ↦ false | some status ↦ true ])

-- `deallocateToBigHeap`
unfoldable pub deallocate_to_big_heap : BigHeap → Ptr → Run BigHeap
deallocate_to_big_heap big ptr = do
  found ← find big.xmap ptr pointer_size
  elim found [
    | none ↦ fault unknown_object
    | some status ↦ do
      r ← erase big.xmap ptr pointer_size
      let object = big.statuses status
      ok (record big { xmap = r.1; unmapped = (object.start, object.page_up_size) ∷ big.unmapped })
  ]
