-- ===== src/Bibop/Neighbor/Inverse.antt =====
-- bibopheap.hh: `getNextCanaryNeighbor` by the numbers of objects and heaps.
use free_guard.Base.{
  ℕ, ◌+◌, ◌-◌, ◌*◌, ◌≤◌, ◌<◌, ◌≡◌, ap, ◌∙◌, arith, ltb, ◌==◌, if◌then◌else◌, Option, none, ◌≢◌,
  some, sub64-eq-sub, sub64, Bool-cases, inl, inr,
}
use mathlib.Core.Option
use free_guard.Links.{Ptr}
use free_guard.Xdefines.{bibop_num_heaps}
use free_guard.Bibop.{BibopHeap, PerThreadBag}
use free_guard.Bibop.Layout.{IsSized, IsLaidOut, shadow_addr}
use free_guard.Bibop.Address.RoundTrip.{object_index_lem, get_heap_number_of_shadow_lem, shadow_end}
use free_guard.Bibop.Neighbor.{Direction, left, right, get_next_canary_neighbor}

-- The neighbour of object `i` in heap `n`, where the objects of a bag are numbered up to `last` and
-- the bag goes on in the fourth heap after.
abbrev pub neighbor : ℕ → Direction → ℕ → ℕ → Option (ℕ × ℕ)
neighbor last left n i =
    if i == 0 then (if ltb n 4 then none else some (n - 4, last)) else some (n, i - 1)
neighbor last right n i = if i == last then some (n + 4, 0) else some (n, i + 1)

abbrev entry_of : BibopHeap → PerThreadBag → ℕ × ℕ → Ptr
entry_of h bag (n, i) = shadow_addr h bag n i

module _ (h : BibopHeap) (z : IsSized h) (t b : ℕ) (bag : PerThreadBag) (l : IsLaidOut h t b bag)
    (n i : ℕ) (heap : n < bibop_num_heaps) (object : i < bag.num_objects) where
  left_first :
      i ≡ 0
      → 4 ≤ n
      → sub64 (shadow_addr h bag n i) bag.next_shadow_heap_object_offset
        ≡ shadow_addr h bag (n - 4) bag.last_object_index
  unfolding shadow_addr
  left_first e far =
      let rows : n * h.shadow_mem_size_per_heap_ceil
          ≡ (n - 4) * h.shadow_mem_size_per_heap_ceil + 4 * h.shadow_mem_size_per_heap_ceil =
        let k : n ≡ n - 4 + 4 = omega arith in
        ap (λ (s : ℕ). s * h.shadow_mem_size_per_heap_ceil) k ∙ omega arith in
      sub64-eq-sub _ _ (omega (arith, shadow_end h z t b bag l n i heap object))
        (omega (arith, rows, l.next_shadow))
      ∙ omega (arith, rows, l.next_shadow)

  right_last :
      i ≡ bag.last_object_index
      → shadow_addr h bag n i + bag.next_shadow_heap_object_offset ≡ shadow_addr h bag (n + 4) 0
  unfolding shadow_addr
  right_last e = omega (arith, l.next_shadow)

  back : i ≢ 0 → shadow_addr h bag n i - h.shadow_object_info_size ≡ shadow_addr h bag n (i - 1)
  unfolding shadow_addr
  back e = omega (arith, z.info_size)

  forth : shadow_addr h bag n i + h.shadow_object_info_size ≡ shadow_addr h bag n (i + 1)
  unfolding shadow_addr
  forth = omega (arith, z.info_size)

  -- In a heap that is laid out, `getNextCanaryNeighbor` gives in both directions the entry of
  -- the object before or after in the order of allocation: within a heap the next index, at the
  -- ends the last or first object four heaps away, and none to the left of the first object of
  -- the first four heaps.
  pub get_next_canary_neighbor_lem :
      (d : Direction)
      → get_next_canary_neighbor h (shadow_addr h bag n i) bag d
        ≡ Option.map (entry_of h bag) (neighbor bag.last_object_index d n i)
  unfolding get_next_canary_neighbor
  get_next_canary_neighbor_lem left =
      rw
        (
          object_index_lem h z t b bag l n i heap object,
          get_heap_number_of_shadow_lem h z t b bag l n i heap object,
        )
        (elim (Bool-cases (i == 0)) [
          | inr e ↦ rw e (ap some (back (ground arith)))
          | inl e ↦ elim (Bool-cases (ltb n 4)) [
            | inl near ↦ rw (e, near)
            | inr far ↦ rw (e, far) (ap some (left_first (ground arith) (ground arith)))
          ]
        ])
  get_next_canary_neighbor_lem right =
      rw (object_index_lem h z t b bag l n i heap object)
        (elim (Bool-cases (i == bag.last_object_index)) [
          | inr e ↦ rw e (ap some forth)
          | inl e ↦ rw e (ap some (right_last (ground arith)))
        ])
