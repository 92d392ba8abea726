-- ===== src/Bibop/Whole.antt =====
-- bibopheap.hh: the heap with all its bags, of 128 threads and 19 size classes each.
pub mod Apart
pub mod Calls
pub mod Start
use free_guard.Base.{ℕ, ◌+◌, ◌*◌, ◌^◌, ◌≤◌, ◌<◌, ◌≡◌, ◌≢◌, ◌⊎◌}
use free_guard.Bibop.{BibopHeap, PerThreadBag, Memory}
use free_guard.Bibop.Object.Served.{View, IsPlaced, Served}

-- The bags are laid out, the shadow entries of two bags do not overlap, and bag `b` has the class
-- of 16 * 2^b bytes.
pub record IsWhole (h : BibopHeap) : Type 0 where
  pub placed : (t b : ℕ) → t < 128 → b < 19 → IsPlaced h t b
  pub apart :
      (t b t' b' : ℕ)
      → t < 128
      → b < 19
      → t' < 128
      → b' < 19
      → (t ≢ t') ⊎ (b ≢ b')
      → let s = (h.thread_bag t b).start_shadow_mem_offset in
        let s' = (h.thread_bag t' b').start_shadow_mem_offset in
        (s + (h.thread_bag t b).num_objects * 8 ≤ s')
        ⊎ (s' + (h.thread_bag t' b').num_objects * 8 ≤ s)
  pub classes : (t b : ℕ) → t < 128 → b < 19 → (h.thread_bag t b).class_size ≡ 16 * 2 ^ b
  pub power : h.first_bag_power ≡ 4
  pub nonnull : 0 < h.heap_begin

-- Every bag serves the program, and the heap differs from `h₀` in its bags only.
pub record AllServed (h₀ : BibopHeap) (views : ℕ → ℕ → View) (h : BibopHeap) (mem : Memory)
    : Type 0 where
  pub bags : (t b : ℕ) → t < 128 → b < 19 → Served h₀ t b (views t b) h mem
  pub header : (f : ℕ → ℕ → PerThreadBag) × (h ≡ record h₀ { thread_bag = f })
