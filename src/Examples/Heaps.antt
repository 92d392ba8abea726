-- ===== src/Examples/Heaps.antt =====
-- A heap with the smallest bags, and one object of 16 bytes of its first thread.
use free_guard.Base.{ℕ, ◌<◌, ◌≤◌, ◌≡◌, ◌≢◌, refl, [], arith, update, ok}
use mathlib.Core.Option
use free_guard.Links.{Ptr, null, Links}
use free_guard.Dlist.Queue.{IsQueue}
use free_guard.Bibop.{BibopHeap, PerThreadBag, Memory}
use free_guard.Bibop.Layout.{IsSized, IsLaidOut, object_addr, shadow_addr}
use free_guard.Bibop.SizeClass.Fit.{Fits, class_size-Fits}
use free_guard.Bibop.Address.{find_object, get_addr_from_shadow_info}
use free_guard.Bibop.Address.RoundTrip.{find_object_lem, get_addr_from_shadow_info_lem}
use free_guard.Bibop.Init.{initialize, initialize_with}
use free_guard.Bibop.Init.Sizes.{IsMapped}
use free_guard.Bibop.Init.Ready.{
  initialize-IsSized, initialize-IsLaidOut, initialize-AtObject, initialize-IsQueue,
  shadow_end-le-entry,
}
use free_guard.Bibop.Bump.Order.{AtObject}
use free_guard.Bibop.Neighbor.{right, get_next_canary_neighbor}
use free_guard.Bibop.Neighbor.Inverse.{neighbor, get_next_canary_neighbor_lem}
use free_guard.Bibop.Object.{Draws, canary_intact}
use free_guard.Bibop.Object.Free.{Intact}

pub mapped : IsMapped 0x200000000000 0x100000000000
mapped = record { heap = omega arith; shadow = omega arith }

abbrev pub heap : BibopHeap
heap = (initialize 0 0x200000000000 0x100000000000).0

abbrev pub memory : Memory
memory = (initialize 0 0x200000000000 0x100000000000).1

initialize-IsSized_example : IsSized heap
initialize-IsSized_example = initialize-IsSized 0 0x200000000000 0x100000000000 mapped

shadow_end-le-entry_example : heap.shadow_mem_end ≤ shadow_addr heap (heap.thread_bag 127 18) 1023 0
shadow_end-le-entry_example =
    shadow_end-le-entry 0 0x200000000000 0x100000000000 mapped 18 0 (omega arith)

sized : IsSized heap
sized = initialize-IsSized 0 0x200000000000 0x100000000000 mapped

abbrev bag : PerThreadBag
bag = heap.thread_bag 0 0

laid_out : IsLaidOut heap 0 0 bag
laid_out =
    initialize-IsLaidOut 0 0x200000000000 0x100000000000 mapped 0 0 (omega arith) (omega arith)

some_object : 0 < bag.num_objects
some_object = omega (arith, laid_out.count)

at_start : AtObject heap bag 1 1 0
at_start =
    initialize-AtObject 0 0x200000000000 0x100000000000 mapped 0 0 (omega arith) (omega arith) 1

empty_list : (links : Links) → IsQueue links (bag.freelist 1) []
empty_list links =
    let q =
      initialize-IsQueue 0 0x200000000000 0x100000000000 mapped 0 0 (omega arith) (omega arith) 1 in
    record { chain = q.chain; tail = q.tail; distinct = q.distinct }

class_size-Fits_example : (k : ℕ) × Fits 100 k
class_size-Fits_example = class_size-Fits 100 (omega arith)

-- The first object of the bag in heap 1.
abbrev entry : Ptr
entry = shadow_addr heap bag 1 0

abbrev object : Ptr
object = object_addr heap bag 1 0

find_object_lem_example :
    find_object heap object
    ≡ ok (record { shadowinfo = entry; thread = 0; bag = 0; bag_set_item = 1 })
find_object_lem_example =
    find_object_lem heap sized 0 0 bag laid_out 1 0 (omega arith) some_object refl

get_addr_from_shadow_info_lem_example : get_addr_from_shadow_info heap entry bag ≡ object
get_addr_from_shadow_info_lem_example =
    get_addr_from_shadow_info_lem heap sized 0 0 bag laid_out 1 0 (omega arith) some_object

get_next_canary_neighbor_lem_example :
    get_next_canary_neighbor heap entry bag right
    ≡ Option.map (λ (n, i). shadow_addr heap bag n i) (neighbor bag.last_object_index right 1 0)
get_next_canary_neighbor_lem_example =
    get_next_canary_neighbor_lem heap sized 0 0 bag laid_out 1 0 (omega arith) some_object right

nonnull : entry ≢ null
unfolding initialize initialize_with shadow_addr
nonnull e = omega (arith, e)

-- A memory in which the object is in use and every byte is a canary.
abbrev used_memory : Memory
used_memory = record { links = update (λ _. 0) entry 1; bytes = λ _. 0x7B; guards = [] }

all-Intact : Intact heap bag used_memory
unfolding canary_intact
all-Intact n i lt lt' marked = refl

abbrev pub draws : Draws
draws = record { bag_set = 5; guard = 0 }
