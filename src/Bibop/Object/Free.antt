-- ===== src/Bibop/Object/Free.antt =====
-- bibopheap.hh: the check of the neighbours' canaries in `freeSmallObject`.
pub mod Outcome
use free_guard.Base.{
  is_guarded, ℕ, zero, suc, ◌+◌, ◌-◌, ◌*◌, ◌%◌, ◌≤◌, ◌<◌, ◌≡◌, ◌≢◌, ◌⊎◌, inl, inr, refl, sym, ap,
  ◌∙◌, subst, arith, ◌==◌, ltb, if◌then◌else◌, Bool, true, false, not, ◌&&◌, Bool-cases, update,
  List, [], ◌∷◌, ◌++◌, contains, ==_refl, ne→==_false, Option, none, some, Returns, Run, ok, fault,
  double_free, canary_broken, ◌>>=◌, ==_iff,
}
use free_guard.Links.{Ptr, Links, null}
use free_guard.Dlist.{insert_dll_tail}
use free_guard.Dlist.Queue.{IsQueue, insert_dll_tail-IsQueue, SameOutside}
use free_guard.Xdefines.{bibop_num_heaps, alloc_sentinel}
use free_guard.Bibop.{
  BibopHeap, PerThreadBag, Memory, update_bag, touch_entry, touch_byte, touch_entry-ok,
  touch_byte-ok,
}
use free_guard.Bibop.Layout.{IsSized, IsLaidOut, object_addr, shadow_addr, mapped_heaps}
use free_guard.Bibop.Address.{find_object, get_addr_from_shadow_info}
use free_guard.Bibop.Address.RoundTrip.{find_object_lem, get_addr_from_shadow_info_lem}
use free_guard.Bibop.Neighbor.{Direction, left, right, get_next_canary_neighbor}
use free_guard.Bibop.Neighbor.Inverse.{neighbor, get_next_canary_neighbor_lem}
use free_guard.Bibop.Object.{is_object_free, canary_intact, check_neighbors, free_small_object}

neighbor_range :
    (last : ℕ) (d : Direction) (n i : ℕ) {p : ℕ × ℕ}
    → i ≤ last
    → neighbor last d n i ≡ some p
    → (p.0 ≤ n + 4) × (p.1 ≤ last)
neighbor_range last left n i h e = ground arith
neighbor_range last right n i h e = ground arith

Option-cases : (o : Option (ℕ × ℕ)) → (o ≡ none) ⊎ ((p : ℕ × ℕ) × (o ≡ some p))
Option-cases none = inl refl
Option-cases (some p) = inr (p, refl)

-- The canary of every object of the bag that is in use is in place.
abbrev pub Intact : BibopHeap → PerThreadBag → Memory → Type 0
Intact h bag mem =
    (n i : ℕ)
    → n < bibop_num_heaps
    → i < bag.num_objects
    → mem.links (shadow_addr h bag n i) ≡ alloc_sentinel
    → canary_intact (object_addr h bag n i) bag mem ≡ true

-- Memory that can be accessed: the canaries of the objects in use.
abbrev pub Shown : BibopHeap → PerThreadBag → Memory → Type 0
Shown h bag mem =
    (n i : ℕ)
    → n < bibop_num_heaps
    → i < bag.num_objects
    → mem.links (shadow_addr h bag n i) ≡ alloc_sentinel
    → is_guarded mem.guards (object_addr h bag n i + bag.class_size - 1) ≡ false

-- The entries of the first `mapped_heaps` heaps.
abbrev pub Mapped : BibopHeap → PerThreadBag → Type 0
Mapped h bag =
    (n i : ℕ)
    → n < mapped_heaps
    → i < bag.num_objects
    → shadow_addr h bag n i + 8 ≤ h.shadow_mem_end

pub entry-above :
    (h : BibopHeap) (bag : PerThreadBag) (n i : ℕ) → h.shadow_mem_begin ≤ shadow_addr h bag n i
unfolding shadow_addr
entry-above h bag n i = omega arith

module _ (h : BibopHeap) (z : IsSized h) (t b : ℕ) (bag : PerThreadBag) (l : IsLaidOut h t b bag)
    (mem : Memory) (mapped : Mapped h bag) (shown : Shown h bag mem) where
  -- What the check sees of the neighbour that it moves to.
  check_neighbors_step :
      (d : Direction) (k n i n' i' : ℕ)
      → n < mapped_heaps
      → i < bag.num_objects
      → n' < mapped_heaps
      → i' < bag.num_objects
      → neighbor bag.last_object_index d n i ≡ some (n', i')
      → check_neighbors h bag d (suc k) (shadow_addr h bag n i) mem ≡ (
          if not (is_object_free (shadow_addr h bag n' i') mem)
            && not (canary_intact (object_addr h bag n' i') bag mem)
          then fault canary_broken
          else check_neighbors h bag d k (shadow_addr h bag n' i') mem)
  unfolding check_neighbors is_object_free
  check_neighbors_step d k n i n' i' hn hi hn' hi' e =
      let x = shadow_addr h bag n' i' in
      let found : get_next_canary_neighbor h (shadow_addr h bag n i) bag d ≡ some x =
        get_next_canary_neighbor_lem h z t b bag l n i (omega arith) hi d ∙ rw e refl in
      let entry : touch_entry h x ≡ ok tt =
        touch_entry-ok h x (entry-above h bag n' i') (mapped n' i' hn' hi') in
      let addr = get_addr_from_shadow_info_lem h z t b bag l n' i' (omega arith) hi' in
      elim (Bool-cases (mem.links x == alloc_sentinel)) [
        | inr unused ↦ rw (found, check_neighbors) (rw (entry, addr, unused) refl)
        | inl used ↦
            let byte =
              touch_byte-ok (object_addr h bag n' i' + bag.class_size - 1) mem
                (shown n' i' (omega arith) hi' ((==_iff _ _).0 used)) in
            rw (found, check_neighbors) (rw (entry, addr, used, byte) refl)
      ]

  -- While the canaries are in place the check passes, in both directions.
  pub check_neighbors-ok :
      (d : Direction) (k n i : ℕ)
      → Intact h bag mem
      → n + 4 * k < mapped_heaps
      → i < bag.num_objects
      → check_neighbors h bag d k (shadow_addr h bag n i) mem ≡ ok tt
  unfolding check_neighbors is_object_free
  check_neighbors-ok d zero n i intact hn hi = refl
  check_neighbors-ok d (suc k) n i intact hn hi =
      let at = get_next_canary_neighbor_lem h z t b bag l n i (omega arith) hi d in
      elim (Option-cases (neighbor bag.last_object_index d n i)) [
        | inl e ↦
            let stop : get_next_canary_neighbor h (shadow_addr h bag n i) bag d ≡ none =
              at ∙ rw e refl in
            rw (stop, check_neighbors)
        | inr (p, e) ↦
            let (near, inside) =
              neighbor_range bag.last_object_index d n i (omega (arith, l.count)) e in
            let hn' : p.0 < mapped_heaps = omega arith in
            let hi' : p.1 < bag.num_objects = omega (arith, l.count) in
            check_neighbors_step d k n i p.0 p.1 (omega arith) hi hn' hi' e
            ∙ elim (Bool-cases (mem.links (shadow_addr h bag p.0 p.1) == alloc_sentinel)) [
              | inr unused ↦ rw unused (check_neighbors-ok d k p.0 p.1 intact (omega arith) hi')
              | inl used ↦
                  rw (used, intact p.0 p.1 (omega arith) hi' ((==_iff _ _).0 used))
                    (check_neighbors-ok d k p.0 p.1 intact (omega arith) hi')
            ]
      ]
