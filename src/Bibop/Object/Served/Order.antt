-- ===== src/Bibop/Object/Served/Order.antt =====
-- bibopheap.hh: the order in which freed objects are allocated again.
use free_guard.Base.{
  ℕ, ◌+◌, ◌%◌, ◌<◌, ◌≡◌, ◌≢◌, refl, ap, ◌∙◌, subst, List, [], ◌∷◌, ◌++◌, map, ==_refl, update,
  bit_and, Returns, Run, ok, ◌>>=◌,
}
use free_guard.Links.{Ptr}
use free_guard.Bibop.Layout.{mapped_heaps}
use free_guard.Bibop.{BibopHeap, Memory}
use free_guard.Bibop.Object.{Draws, allocate_in_bag, free_small_object}
use free_guard.Bibop.Object.Served.{Object, View, object, IsInBag, Live, IsPlaced, Served}
use free_guard.Bibop.Object.Served.Malloc.{allocate_in_bag-oldest}
use free_guard.Bibop.Object.Served.Free.{free_small_object-Served}

-- One allocation after another from bag `b` of thread `t`: the objects in the order of the calls.
unfoldable pub allocate_all :
    BibopHeap → ℕ → ℕ → List Draws → Memory → Run (List Ptr × BibopHeap × Memory)
allocate_all h t b [] mem = ok ([], h, mem)
allocate_all h t b (d ∷ ds) mem = do
  r ← allocate_in_bag h t b d mem
  rest ← allocate_all r.1 t b ds r.2
  ok (r.0 ∷ rest.0, rest.1, rest.2)

-- One draw for each object, each of bag set item `j` and none for the bump pointer.
abbrev pub Reuse : ℕ → List Draws → List Object → Type 0
Reuse j [] [] = Unit
Reuse j [] (o ∷ os) = ⊥
Reuse j (d ∷ ds) [] = ⊥
Reuse j (d ∷ ds) (o ∷ os) = (bit_and d.bag_set 3 ≡ j) × (bit_and d.bag_set 31 ≢ 0) × Reuse j ds os

module _ (h₀ : BibopHeap) (t b : ℕ) (z : IsPlaced h₀ t b) where
  pub allocate_all-oldest :
      (j : ℕ) (ds : List Draws) (os : List Object) (v : View) (h : BibopHeap) (mem : Memory)
      → Served h₀ t b v h mem
      → v.free j ≡ os
      → Reuse j ds os
      → Returns
          (allocate_all h t b ds mem)
          (λ r. (r.0 ≡ map (object h₀ t b) os) × ((v' : View) × Served h₀ t b v' r.1 r.2))
  unfolding allocate_all
  allocate_all-oldest j [] [] v h mem s e how = (([], h, mem), refl, (refl, (v, s)))
  allocate_all-oldest j [] (o ∷ os) v h mem s e how = absurd how
  allocate_all-oldest j (d ∷ ds) [] v h mem s e how = absurd how
  allocate_all-oldest j (d ∷ ds) (o ∷ os) v h mem s e how =
      let item = bit_and d.bag_set 3 in
      let (r, run, (got, served)) =
        allocate_in_bag-oldest h₀ t b z v h mem s d o os (ap v.free how.0 ∙ e) how.1 in
      let (rest, run', (order, after)) =
        allocate_all-oldest j ds os _ r.1 r.2 served
          (subst (λ k. update v.free item os k ≡ os) how.0 (rw (==_refl item) refl)) how.2 in
      ((r.0 ∷ rest.0, rest.1, rest.2), rw (run, run') refl, (rw (got.address, order) refl, after))

  -- A freed object is allocated again: in a bag that serves a program, whose freed objects so
  -- lie in the first 1022 heaps, free an object in use with eight more of those heaps behind
  -- its own, and allocate as many times as there are then objects in its free list, with draws
  -- of its bag set item that do not ask for the bump pointer. All calls return, and the objects
  -- come in the order in which they were freed, this one as the last.
  pub allocate_all-free_small_object :
      (v : View) (h : BibopHeap) (mem : Memory) (s : Served h₀ t b v h mem) (o : Object)
      (ino : IsInBag h₀ t b o) (live : Live h₀ t b mem o)
      → o.0 + 8 < mapped_heaps
      → (ds : List Draws) → Reuse (o.0 % 4) ds (v.free (o.0 % 4) ++ o ∷ [])
      → Returns
          (free_small_object h (object h₀ t b o) mem >>= λ r. allocate_all r.0 t b ds r.1)
          (λ r. r.0 ≡ map (object h₀ t b) (v.free (o.0 % 4) ++ o ∷ []))
  allocate_all-free_small_object v h mem s o ino live far ds how =
      let (r, run, (released, served)) =
        free_small_object-Served h₀ t b z v h mem s o ino live far in
      let (last, run', (order, after)) =
        allocate_all-oldest (o.0 % 4) ds (v.free (o.0 % 4) ++ o ∷ []) _ r.0 r.1 served
          (rw (==_refl (o.0 % 4)) refl) how in
      (last, rw run run', order)
