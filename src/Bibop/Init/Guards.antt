-- ===== src/Bibop/Init/Guards.antt =====
-- bibopheap.hh: what `initialize` protects.
use free_guard.Base.{
  ℕ, zero, suc, ◌+◌, ◌-◌, ◌*◌, ◌^◌, ◌≤◌, ◌<◌, ◌≡◌, ◌⊎◌, inl, inr, refl, sym, ap, ◌∙◌, arith, true,
  false, Bool, if◌then◌else◌, ◌==◌, List, ◌∷◌, is_guarded, pow_suc,
}
use free_guard.Links.{Ptr}
use free_guard.Xdefines.{log2}
use free_guard.Bibop.{PerThreadBag, Memory, bibop_heap_size}
use free_guard.Bibop.Bump.Order.{guards-set_guard_page}
use free_guard.Bibop.Bump.Covered.{guarded-cons}
use free_guard.Bibop.Init.{
  Plan, Cursor, init_bag, guardoffset_of, guardsize_of, init_guards, step_bag, init_bags,
  skip_unusable, init_threads,
}
use free_guard.Bibop.Init.Loop.{init_bags-totals}

abbrev Within : Ptr → ℕ → Ptr → Type 0
Within start size a = (start ≤ a) × (a < start + size)

one_guard :
    (start size : ℕ) (old : List (Ptr × ℕ)) (a : Ptr) (none : Bool)
    → is_guarded (if none then old else (start, size) ∷ old) a ≡ true
    → (is_guarded old a ≡ true) ⊎ Within start size a
one_guard start size old a true now = inl now
one_guard start size old a false now = elim (guarded-cons start size old a now) [
  | inl here ↦ inr here
  | inr was ↦ inl was
]

-- The guards of the first heaps of one bag.
init_guards-Within :
    (size k : ℕ) (bag : PerThreadBag) (mem : Memory) (a : Ptr)
    → is_guarded (init_guards size k bag mem).guards a ≡ true
    → (is_guarded mem.guards a ≡ true)
      ⊎ ((j : ℕ) × Within (bag.position j + size - bag.guardoffset) bag.guardsize a)
unfolding init_guards
init_guards-Within size zero bag mem a now = inl now
init_guards-Within size (suc k) bag mem a now =
    let before = init_guards size k bag mem in
    let set = guards-set_guard_page size (bag.position k) bag.guardsize bag.guardoffset before in
    elim (one_guard (bag.position k + size - bag.guardoffset) bag.guardsize before.guards a
      (bag.guardsize == 0) (ap (λ g. is_guarded g a) (sym set) ∙ now)) [
        | inl was ↦ init_guards-Within size k bag mem a was
        | inr here ↦ inr (k, here)
      ]

module _ (p : Plan) where
  -- The address lies in the guard behind a usable bag of one of the threads.
  abbrev pub InGuard : Ptr → Type 0
  InGuard a =
      (t : ℕ) × (b : ℕ) × (j : ℕ) × (t < 128)
      × (b < p.num_usable_bags)
      × Within
          (p.heap_begin
            + (t * 32 + b) * p.bag_size
            + j * bibop_heap_size p.bag_size
            + p.bag_size
            - guardoffset_of p b (16 * 2 ^ b))
          (guardsize_of p b (16 * 2 ^ b)) a

  init_bags-InGuard :
      (t left b class_size shift : ℕ) (c : Cursor) (a : Ptr)
      → t < 128
      → b + left ≤ p.num_usable_bags
      → class_size ≡ 16 * 2 ^ b
      → c.offset_bag ≡ (t * 32 + b) * p.bag_size
      → is_guarded (init_bags p t left b class_size shift c).mem.guards a ≡ true
      → (is_guarded c.mem.guards a ≡ true) ⊎ InGuard a
  unfolding init_bags step_bag init_bag
  init_bags-InGuard t zero b class_size shift c a lt few cls off now = inl now
  init_bags-InGuard t (suc left) b class_size shift c a lt few cls off now =
      let bag = init_bag p t b class_size shift c.offset_bag c.offset_shadow_mem in
      elim (init_bags-InGuard t left (suc b) (class_size * 2) (shift + 1)
        (step_bag p t b class_size shift c) a lt (omega arith) (omega (arith, cls, pow_suc b))
        (omega (arith, off)) now) [
          | inr here ↦ inr here
          | inl was ↦ elim (init_guards-Within p.bag_size 4 bag c.mem a was) [
            | inl start ↦ inl start
            | inr (j, (above, below)) ↦
                let offset = ap (guardoffset_of p b) cls in
                let size = ap (guardsize_of p b) cls in
                inr (
                  t,
                  b,
                  j,
                  lt,
                  omega (arith, few),
                  (omega (arith, above, offset, off), omega (arith, below, offset, size, off)),
                )
          ]
        ]

  pub init_threads-InGuard :
      (left t : ℕ) (c : Cursor) (a : Ptr)
      → p.num_usable_bags ≡ 19
      → t + left ≤ 128
      → c.offset_bag ≡ t * 32 * p.bag_size
      → is_guarded (init_threads p left t c).mem.guards a ≡ true
      → (is_guarded c.mem.guards a ≡ true) ⊎ InGuard a
  unfolding init_threads skip_unusable
  init_threads-InGuard zero t c a usable few off now = inl now
  init_threads-InGuard (suc left) t c a usable few off now =
      let r = init_bags p t p.num_usable_bags 0 16 (log2 16) c in
      let (offset, shadow, total) = init_bags-totals p t p.num_usable_bags 0 16 (log2 16) c refl in
      let rows : p.num_usable_bags * p.bag_size + (32 - p.num_usable_bags) * p.bag_size
          ≡ 32 * p.bag_size =
        let e : p.num_usable_bags + (32 - p.num_usable_bags) ≡ 32 = omega (arith, usable) in
        omega arith ∙ ap (λ (k : ℕ). k * p.bag_size) e in
      elim (init_threads-InGuard left (suc t) (skip_unusable p r) a usable (omega (arith, few))
        (omega (arith, off, offset, rows)) now) [
          | inr here ↦ inr here
          | inl was ↦
              init_bags-InGuard t p.num_usable_bags 0 16 (log2 16) c a (omega (arith, few))
                (omega arith) refl (omega (arith, off)) was
        ]
