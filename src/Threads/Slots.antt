-- ===== src/Threads/Slots.antt =====
-- xthread.hh: the slots in use, and `allocThreadIndex`.
use free_guard.Base.{
  ℕ, zero, suc, ◌+◌, ◌%◌, ◌^◌, ◌<◌, ◌≤◌, ◌≡◌, ◌≢◌, refl, sym, ap, ◌∙◌, true, false, arith, ◌==◌,
  ==_refl, ne→==_false, lt→ltb, Bool-cases, inl, inr, if◌then◌else◌, update, update-cases, some, ok,
  fault, out_of_bounds, Returns,
}
use free_guard.HashMap.{HashMap}
use free_guard.Xdefines.{max_alive_threads}
use free_guard.Threads.{Thread, Threads, taken, set_thread, scan, alloc_thread_index}

-- The number of slots in use among the first `k`.
abbrev pub busy : (ℕ → Thread) → ℕ → ℕ
busy threads zero = 0
busy threads (suc k) = (if (threads k).available then 0 else 1) + busy threads k

pub busy-le : (f : ℕ → Thread) (k : ℕ) → busy f k ≤ k
busy-le f zero = omega arith
busy-le f (suc k) = ground (arith, busy-le f k)

-- A write behind the first `k` slots.
pub busy-outside :
    (f : ℕ → Thread) (i : ℕ) (v : Thread) (k : ℕ) → k ≤ i → busy (update f i v) k ≡ busy f k
busy-outside f i v zero h = refl
busy-outside f i v (suc k) h =
    rw (ne→==_false k i (omega arith), busy-outside f i v k (omega arith))

-- A slot that is taken.
pub busy-take :
    (f : ℕ → Thread) (i : ℕ) (v : Thread) (k : ℕ)
    → i < k
    → (f i).available ≡ true
    → v.available ≡ false
    → busy (update f i v) k ≡ busy f k + 1
busy-take f i v zero h free used = absurd (omega arith)
busy-take f i v (suc k) h free used = elim (Bool-cases (k == i)) [
  | inl e ↦
      let same : k ≡ i = ground (arith, e) in
      rw (e, used, same, free, busy-outside f i v i (omega arith)) (omega arith)
  | inr e ↦ rw (e, busy-take f i v k (ground (arith, e, h)) free used) (omega arith)
]

-- A slot that is given back.
pub busy-give :
    (f : ℕ → Thread) (i : ℕ) (v : Thread) (k : ℕ)
    → i < k
    → (f i).available ≡ false
    → v.available ≡ true
    → busy (update f i v) k + 1 ≡ busy f k
busy-give f i v zero h used free = absurd (omega arith)
busy-give f i v (suc k) h used free = elim (Bool-cases (k == i)) [
  | inl e ↦
      let same : k ≡ i = ground (arith, e) in
      rw (e, free, same, used, busy-outside f i v i (omega arith)) (omega arith)
  | inr e ↦ rw e (omega (arith, busy-give f i v k (ground (arith, e, h)) used free))
]

-- A write that keeps the slot's state.
busy-same :
    (f : ℕ → Thread) (i : ℕ) (v : Thread) (k : ℕ)
    → v.available ≡ (f i).available
    → busy (update f i v) k ≡ busy f k
busy-same f i v zero h = refl
busy-same f i v (suc k) h = elim (Bool-cases (k == i)) [
  | inl e ↦ let same : k ≡ i = ground (arith, e) in rw (e, h, busy-same f i v k h, same)
  | inr e ↦ rw (e, busy-same f i v k h)
]

-- Where fewer than `k` are in use, one of the first `k` is available.
some_available :
    (f : ℕ → Thread) (k : ℕ) → busy f k < k → (a : ℕ) × (a < k) × ((f a).available ≡ true)
some_available f zero h = absurd (omega arith)
some_available f (suc k) h = elim (Bool-cases (f k).available) [
  | inl e ↦ (k, omega arith, e)
  | inr e ↦
      let fewer : busy f k < k = ground (arith, h, e) in
      let (a, lt, free) = some_available f k fewer in (a, omega (arith, lt), free)
]

-- The count of the threads that are alive is the number of the slots in use, and the slots from the
-- next index on are available.
pub record IsSlots (t : Threads) : Type 0 where
  pub bound : t.thread_index ≤ max_alive_threads
  pub counted : t.alive_threads ≡ busy t.threads t.thread_index
  pub rest : (i : ℕ) → t.thread_index ≤ i → (t.threads i).available ≡ true

-- A write to a slot that keeps it in use or available, and another map.
pub IsSlots-write :
    (t : Threads) (i : ℕ) (v : Thread) (xmap : HashMap ℕ)
    → v.available ≡ (t.threads i).available
    → IsSlots t
    → IsSlots (record t { threads = update t.threads i v; xmap = xmap })
IsSlots-write t i v xmap h s = record {
  bound = s.bound;
  counted = s.counted ∙ sym (busy-same t.threads i v t.thread_index h);
  rest =
      update-cases (λ j thread. t.thread_index ≤ j → thread.available ≡ true) t.threads i v
        (λ le. h ∙ s.rest i le) (λ j ne. s.rest j);
}

-- The state with slot `i` taken.
abbrev pub take_slot : ℕ → Threads → Threads
take_slot i t = record t { threads = update t.threads i (taken (t.threads i)) }

-- The scan takes a slot that is available, if there is one in its range.
scan_lem :
    (k i a : ℕ) (t : Threads)
    → i ≤ a
    → a < i + k
    → a < max_alive_threads
    → (t.threads a).available ≡ true
    → (j : ℕ) × (j ≤ a)
      × ((t.threads j).available ≡ true)
      × (scan k i t ≡ ok (some j, take_slot j t))
unfolding scan
scan_lem zero i a t h k m free = absurd (omega arith)
scan_lem (suc n) i a t h k m free = elim (Bool-cases (t.threads i).available) [
  | inl e ↦ (i, h, e, rw (lt→ltb i max_alive_threads (omega arith), e))
  | inr e ↦
      let ne : i ≢ a = λ q. cc (ap (λ v. (t.threads v).available) q, e, free) in
      let later : suc i ≤ a = omega arith in
      let (j, le, avail, run) = scan_lem n (suc i) a t later (omega arith) m free in
      (j, le, avail, rw (lt→ltb i max_alive_threads (omega arith), e, run))
]

-- With the slots in order and fewer than `MAX_ALIVE_THREADS` threads alive, `allocThreadIndex`
-- returns the index of a slot that was available; the slot is then in use, no other slot and no
-- map entry has changed, and the slots are in order.
pub alloc_thread_index-IsSlots :
    (t : Threads)
    → IsSlots t
    → t.alive_threads < max_alive_threads
    → Returns (alloc_thread_index t) (λ r.
      (i : ℕ) × (r.0 ≡ some i)
      × (i < max_alive_threads)
      × ((t.threads i).available ≡ true)
      × ((r.1.threads i).available ≡ false)
      × ((j : ℕ) → j ≢ i → r.1.threads j ≡ t.threads j)
      × (r.1.xmap ≡ t.xmap)
      × IsSlots r.1)
unfolding alloc_thread_index set_thread
alloc_thread_index-IsSlots t s few = elim (Bool-cases (t.alive_threads == t.thread_index)) [
  | inl e ↦
      let same : t.alive_threads ≡ t.thread_index = ground (arith, e) in
      let i = t.thread_index in
      let free = s.rest i (omega arith) in
      (
        (
          some i,
          take_slot i
              (record t { alive_threads = (t.alive_threads + 1) % 2 ^ 32; thread_index = suc i }),
        ),
        rw (e, lt→ltb i max_alive_threads (omega arith)),
        (
          i,
          refl,
          omega arith,
          free,
          rw ==_refl,
          λ j ne. rw (ne→==_false j i ne),
          refl,
          record {
            bound = omega arith;
            counted =
                rw (==_refl i, busy-outside t.threads i (taken (t.threads i)) i (omega arith))
                  (omega (arith, s.counted));
            rest = λ j h. rw (ne→==_false j i (omega arith)) (s.rest j (omega arith));
          },
        ),
      )
  | inr e ↦
      let fewer : busy t.threads t.thread_index < t.thread_index =
        ground (arith, e, s.counted, busy-le t.threads t.thread_index) in
      let (a, below, free) = some_available t.threads t.thread_index fewer in
      let counted = record t { alive_threads = (t.alive_threads + 1) % 2 ^ 32 } in
      let (i, le, avail, run) =
        scan_lem (suc t.thread_index) 0 a counted (omega arith) (omega arith)
          (omega (arith, s.bound)) free in
      (
        (some i, take_slot i counted),
        rw (e, run),
        (
          i,
          refl,
          omega (arith, s.bound),
          avail,
          rw ==_refl,
          λ j ne. rw (ne→==_false j i ne),
          refl,
          record {
            bound = s.bound;
            counted =
                rw
                  (busy-take t.threads i (taken (t.threads i)) t.thread_index (omega arith) avail
                    refl)
                  (omega (arith, s.counted));
            rest = λ j h. rw (ne→==_false j i (omega arith)) (s.rest j h);
          },
        ),
      )
]

-- With the slots in order and all `MAX_ALIVE_THREADS` of them in use, `allocThreadIndex` writes
-- to the slot behind the array.
pub alloc_thread_index-full :
    (t : Threads)
    → IsSlots t
    → t.alive_threads ≡ max_alive_threads
    → alloc_thread_index t ≡ fault out_of_bounds
unfolding alloc_thread_index set_thread
alloc_thread_index-full t s full =
    let last : t.thread_index ≡ max_alive_threads =
      omega (arith, s.counted, s.bound, busy-le t.threads t.thread_index) in
    rw (full, last)
