-- ===== src/Bibop/Object/Served/Start.antt =====
-- bibopheap.hh: each bag after `initialize`.
use free_guard.Base.{
  ◌+◌, Bool-cases, inl, inr, is_guarded, false, ℕ, ◌%◌, ◌<◌, ◌≡◌, ◌≢◌, refl, ap, arith, [],
}
use free_guard.Links.{Ptr}
use free_guard.Xdefines.{alloc_sentinel}
use free_guard.Bibop.Init.{initialize, initialize_with}
use free_guard.Bibop.Init.Sizes.{IsMapped}
use free_guard.Bibop.Init.Ready.{
  initialize-IsSized, initialize-IsLaidOut, initialize-AtObject, initialize-IsQueue,
  initialize-paged,
}
use free_guard.Bibop.Init.Contents.{initialize-links}
use free_guard.Bibop.Object.Served.{View, Object, object, IsPlaced, Served}
use free_guard.Bibop.Object.Served.Guarded.{end-apart}
use free_guard.Bibop.Init.Placed.{initialize-Mapped, initialize-GuardFits, initialize-InEnd}
use free_guard.Bibop.Object.Served.Change.{KeepsLayout-refl}

-- Nothing is freed, and the bump pointers stand at the first objects of the first four heaps.
abbrev pub start_view : View
start_view = record { free = λ j. []; bump = λ j. (j, 0) }

module _ (rand : ℕ) (heap_begin shadow_begin : Ptr) (mapped : IsMapped heap_begin shadow_begin)
    (page : heap_begin % 4096 ≡ 0) (above : 1 < shadow_begin) (t b : ℕ) (thread : t < 128)
    (usable : b < 19) where
  shadow_start : 1 < (initialize rand heap_begin shadow_begin).0.shadow_mem_begin
  unfolding initialize initialize_with
  shadow_start = above

  pub initialize-IsPlaced : IsPlaced (initialize rand heap_begin shadow_begin).0 t b
  initialize-IsPlaced = record {
    sized = initialize-IsSized rand heap_begin shadow_begin mapped;
    laid_out = initialize-IsLaidOut rand heap_begin shadow_begin mapped t b thread usable;
    usable = usable;
    marks = shadow_start;
    mapped = initialize-Mapped rand heap_begin shadow_begin mapped t b thread usable;
    guard = initialize-GuardFits rand heap_begin shadow_begin mapped t b thread usable;
    paged = λ n. initialize-paged rand heap_begin shadow_begin mapped t b thread usable n page;
  }

module _ (rand : ℕ) (heap_begin shadow_begin : Ptr) (mapped : IsMapped heap_begin shadow_begin)
    (page : heap_begin % 4096 ≡ 0) (above : 1 < shadow_begin) (t b : ℕ) (thread : t < 128)
    (usable : b < 19) where
  unmarked : (a : Ptr) → (initialize rand heap_begin shadow_begin).1.links a ≢ alloc_sentinel
  unmarked a e = absurd (
      omega (arith, ap (λ (f : Ptr → Ptr). f a) (initialize-links rand heap_begin shadow_begin), e))

  -- No guard covers a byte of an object.
  unguarded :
      (o : Object) (x : ℕ)
      → let r = initialize rand heap_begin shadow_begin in
        o.1 < (r.0.thread_bag t b).num_objects
        → x < (r.0.thread_bag t b).class_size
        → is_guarded r.1.guards (object r.0 t b o + x) ≡ false
  unguarded o x inside small =
      let r = initialize rand heap_begin shadow_begin in
      let placed = initialize-IsPlaced rand heap_begin shadow_begin mapped page above in
      elim (Bool-cases (is_guarded r.1.guards (object r.0 t b o + x))) [
        | inr e ↦ e
        | inl e ↦
            let (t', b', thread', usable', end) =
              initialize-InEnd rand heap_begin shadow_begin mapped _ e in
            absurd (
              end-apart r.0 t' b' t b (placed t' b' thread' usable') (placed t b thread usable) o x
                inside small end)
      ]

  -- After `initialize`, whatever it draws, with regions that end below 2^64, a heap that begins with
  -- a page and a shadow region that begins above the marks, each usable bag of each thread is ready
  -- to serve a program, with no object in use or freed and the four bump pointers at the first
  -- objects of the first four heaps.
  pub initialize-Served :
      let r = initialize rand heap_begin shadow_begin in Served r.0 t b start_view r.0 r.1
  initialize-Served = record {
    layout =
        KeepsLayout-refl (initialize rand heap_begin shadow_begin).0 t b
          (initialize-IsPlaced rand heap_begin shadow_begin mapped page above t b thread usable);
    queue = λ j. initialize-IsQueue rand heap_begin shadow_begin mapped t b thread usable j;
    passed = λ j. tt;
    place = λ j. initialize-AtObject rand heap_begin shadow_begin mapped t b thread usable j;
    turn = λ j. refl;
    untouched = λ o ino ahead. unmarked _;
    intact = λ n i lt lt' marked. absurd (unmarked _ marked);
    shown = λ o ino kept x small. unguarded o x ino.1 small;
  }
