-- ===== src/Examples/Courses.antt =====
-- A program that allocates an object of 16 bytes, writes it and frees it.
use free_guard.Base.{
  ℕ, ◌≡◌, refl, sym, ap, List, [], ◌∷◌, ◌++◌, map, subst, arith, inl, Returns, ◌>>=◌,
}
use free_guard.Bibop.Object.{allocate_in_bag, free_small_object}
use free_guard.Bibop.Object.Served.{Object, View, object, IsPlaced, Served}
use free_guard.Bibop.Object.Served.Grant.{Granted}
use free_guard.Bibop.Object.Served.Malloc.{allocate_in_bag-newest}
use free_guard.Bibop.Object.Served.Start.{start_view, initialize-IsPlaced, initialize-Served}
use free_guard.Bibop.Object.Served.Order.{allocate_all, Reuse, allocate_all-free_small_object}
use free_guard.Examples.Heaps.{mapped, heap, memory, draws}

placed : IsPlaced heap 0 0
placed =
    initialize-IsPlaced 0 0x200000000000 0x100000000000 mapped refl (omega arith) 0 0 (omega arith)
      (omega arith)

ready : Served heap 0 0 start_view heap memory
ready =
    initialize-Served 0 0x200000000000 0x100000000000 mapped refl (omega arith) 0 0 (omega arith)
      (omega arith)

-- The first allocation takes the first object of heap 1.
abbrev first : Returns (allocate_in_bag heap 0 0 draws memory) (λ r.
    Granted heap 0 0 placed heap memory (1, 0) r
    × ((v : View) × (v.free ≡ start_view.free) × Served heap 0 0 v r.1 r.2))
first =
    allocate_in_bag-newest heap 0 0 placed start_view heap memory ready draws (omega arith)
      (inl refl)

only : first.2.1.0.free 1 ++ (1, 0) ∷ [] ≡ (1, 0) ∷ []
only = ap (λ (f : ℕ → List Object). f 1 ++ (1, 0) ∷ []) first.2.1.1

allocate_all-free_small_object_example :
    Returns
      (free_small_object first.0.1 (object heap 0 0 (1, 0)) first.0.2 >>= λ r.
        allocate_all r.0 0 0 (draws ∷ []) r.1)
      (λ r. r.0 ≡ map (object heap 0 0) (first.2.1.0.free 1 ++ (1, 0) ∷ []))
allocate_all-free_small_object_example =
    allocate_all-free_small_object heap 0 0 placed first.2.1.0 first.0.1 first.0.2 first.2.1.2
      (1, 0) first.2.0.inside first.2.0.live (omega arith) (draws ∷ [])
      (subst (Reuse 1 (draws ∷ [])) (sym only) (refl, omega arith, tt))
