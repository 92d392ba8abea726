-- ===== src/Examples/Lists.antt =====
-- The linked lists on a few nodes.
use free_guard.Base.{refl, [], ◌∷◌, arith, ◌==◌, if◌then◌else◌, Returns}
use free_guard.Links.{Links}
use free_guard.Dlist.{Dlist, insert_dll_tail}
use free_guard.Dlist.Queue.{IsQueue, SameOutside, insert_dll_tail-IsQueue}
use free_guard.Ring.{Nodes, list_remove_node}
use free_guard.Ring.Chain.{IsRing, list_remove_node-IsRing}

-- A queue of the nodes 16 and 32.
abbrev links : Links
links a = if a == 16 then 32 else 0

abbrev queue : Dlist
queue = record { next = 16; prev = 32 }

queue-IsQueue : IsQueue links queue (16 ∷ 32 ∷ [])
queue-IsQueue = record {
  chain = (refl, omega arith, (refl, omega arith, refl));
  tail = refl;
  distinct = (refl, (refl, tt));
}

insert_dll_tail-IsQueue_example :
    Returns
      (insert_dll_tail 48 queue links)
      (λ r. IsQueue r.1 r.0 (16 ∷ 32 ∷ 48 ∷ []) × SameOutside (48 ∷ 16 ∷ 32 ∷ []) links r.1)
insert_dll_tail-IsQueue_example =
    insert_dll_tail-IsQueue links queue (16 ∷ 32 ∷ []) 48 queue-IsQueue (omega arith) refl

-- The ring of 8 and 16, in both directions.
abbrev ring : Nodes
ring = record { next = λ a. if a == 8 then 16 else 8; prev = λ a. if a == 8 then 16 else 8 }

ring-IsRing : IsRing ring 8 (16 ∷ [])
ring-IsRing = record { chain = (refl, refl, (refl, refl)); distinct = (refl, (refl, tt)) }

list_remove_node-IsRing_example :
    IsRing (list_remove_node 16 ring) 8 [] × IsRing (list_remove_node 16 ring) 16 []
list_remove_node-IsRing_example = list_remove_node-IsRing ring 8 [] 16 [] ring-IsRing
