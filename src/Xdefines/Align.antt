-- ===== src/Xdefines/Align.antt =====
-- Rounding up and down, and the index of a thread's stack.
use free_guard.Base.{
  ℕ, ◌+◌, ◌-◌, ◌*◌, ◌/◌, ◌%◌, ◌≤◌, ◌<◌, ◌≡◌, inl, inr, arith, ◌==◌, Bool-cases, bit_and,
  bit_and-high, word, add64, ◌∙◌,
}
use free_guard.Xdefines.{
  alignup, aligndown, page_size, stack_size, get_thread_index, max_alive_threads,
}

-- `x & ~(PageSize - 1)`
page_floor : (x : ℕ) → x < word → bit_and x (word - page_size) ≡ x - x % page_size
page_floor x h = bit_and-high 12 52 x (omega arith)

-- `aligndown` to a page is the start of the page.
pub aligndown_lem :
    (addr : ℕ) → addr < word → aligndown addr page_size ≡ addr / page_size * page_size
unfolding aligndown
aligndown_lem addr h = page_floor addr h ∙ omega arith

-- For a size that a page's padding does not push past 2^64, `alignup` to a page gives a
-- multiple of the page size that is at least the size and less than a page above it.
pub alignup_lem :
    (size : ℕ)
    → size + page_size ≤ word
    → (size ≤ alignup size page_size)
      × (alignup size page_size < size + page_size)
      × (alignup size page_size % page_size ≡ 0)
unfolding alignup
alignup_lem size h = elim (Bool-cases (size % page_size == 0)) [
  | inl e ↦ rw e (ground arith)
  | inr e ↦ rw (e, page_floor (add64 size (page_size - 1)) (omega arith)) (ground arith)
]

-- An address in the stack area of thread `i`, one of 128, gives back the index `i`.
pub get_thread_index_lem :
    (base i offset : ℕ)
    → i < max_alive_threads
    → offset < stack_size
    → get_thread_index base (base + i * stack_size + offset) ≡ i
unfolding get_thread_index
get_thread_index_lem base i offset h k = ground arith
