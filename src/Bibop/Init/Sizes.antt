-- ===== src/Bibop/Init/Sizes.antt =====
-- The numbers of `initialize` at the three bag sizes that it chooses from.
use free_guard.Base.{
  ℕ, zero, suc, ◌+◌, ◌-◌, ◌*◌, ◌%◌, ◌^◌, ◌≤◌, ◌<◌, ◌≡◌, refl, ap, ◌∙◌, arith, ◌==◌, ltb, leb, ◌⊎◌,
  ◌||◌, ◌&&◌, Bool, true, word, shl64, pow_pos,
}
use free_guard.Links.{Ptr}
use free_guard.Xdefines.{log2, bit_length, min_random_bag_size}
use free_guard.Xdefines.Log.{log2_pow}
use free_guard.Bibop.{bibop_heap_size}
use free_guard.Bibop.Layout.{IsSized}
use free_guard.Bibop.Init.{
  choose_bag_size, plan_of, guardoffset_of, guardsize_of, num_bag_objects, first_pass,
  initialize_with,
}
use free_guard.Bibop.Init.Loop.{objects, sum_objects, init_threads-total}

-- A test that holds at every number below a bound.
all_below : ℕ → (ℕ → Bool) → Bool
all_below zero test = true
all_below (suc n) test = test n && all_below n test

all_below_lem : (n : ℕ) (test : ℕ → Bool) (x : ℕ) → all_below n test ≡ true → x < n → test x ≡ true
unfolding all_below
all_below_lem zero test x h lt = absurd (omega arith)
all_below_lem (suc n) test x h lt = ground (arith, all_below_lem n test x)

-- The digits of the size of one heap's shadow entries.
abbrev pub ceil_bits_of : ℕ → ℕ
ceil_bits_of size = 64 - (64 - bit_length 64 (size - 1))

-- What holds of a bag size `size` for the layout to be right.
pub record IsBagSize (size : ℕ) : Type 0 where
  pub pos : 0 < size
  pub small : size ≤ 2 ^ 24
  pub bag_bits : 2 ^ log2 size ≡ size
  pub heap_bits : 2 ^ log2 (bibop_heap_size size) ≡ 4096 * size
  pub thread_bits : 2 ^ log2 (size * 32) ≡ 32 * size
  pub usable : (begin : Ptr) → (plan_of size begin).num_usable_bags ≡ 19
  pub share_fits :
      128 * sum_objects size 0 19 * 8 ≤ 2 ^ ceil_bits_of (128 * sum_objects size 0 19 * 8)
  pub ceil_small : 2 ^ ceil_bits_of (128 * sum_objects size 0 19 * 8) ≤ 2 ^ 31
  pub short :
      1024 * (128 * sum_objects size 0 19 * 8)
      ≤ 1023 * 2 ^ ceil_bits_of (128 * sum_objects size 0 19 * 8) + 127 * sum_objects size 0 19 * 8
  pub covered :
      1021 * 2 ^ ceil_bits_of (128 * sum_objects size 0 19 * 8)
      ≤ 1023 * (128 * sum_objects size 0 19 * 8)
  pub guards :
      (begin : Ptr) (b : ℕ)
      → b < 19
      → (objects size b * (16 * 2 ^ b) + guardsize_of (plan_of size begin) b (16 * 2 ^ b) ≤ size)
        ⊎ ((b ≡ 18)
            × (objects size b * (16 * 2 ^ b) + guardsize_of (plan_of size begin) b (16 * 2 ^ b)
                ≤ 14 * size))
  pub bags :
      (begin : Ptr) (b : ℕ)
      → b < 19
      → (0 < objects size b)
        × (objects size b * (16 * 2 ^ b) + guardoffset_of (plan_of size begin) b (16 * 2 ^ b)
            ≡ size)
  pub pages : size % 4096 ≡ 0
  pub paged : (b : ℕ) → b < 19 → objects size b * (16 * 2 ^ b) % 4096 ≡ 0

abbrev bag_test : ℕ → Ptr → ℕ → Bool
bag_test size begin b =
    ltb 0 (objects size b)
    && (objects size b * (16 * 2 ^ b) + guardoffset_of (plan_of size begin) b (16 * 2 ^ b) == size)

bags_of_test :
    (size : ℕ) (begin : Ptr) (b : ℕ)
    → all_below 19 (bag_test size begin) ≡ true
    → b < 19
    → (0 < objects size b)
      × (objects size b * (16 * 2 ^ b) + guardoffset_of (plan_of size begin) b (16 * 2 ^ b) ≡ size)
bags_of_test size begin b h lt =
    let t = all_below_lem 19 (bag_test size begin) b h lt in ground arith

abbrev guard_test : ℕ → Ptr → ℕ → Bool
guard_test size begin b =
    let stop = objects size b * (16 * 2 ^ b) + guardsize_of (plan_of size begin) b (16 * 2 ^ b) in
    leb stop size || (b == 18 && leb stop (14 * size))

guards_of_test :
    (size : ℕ) (begin : Ptr) (b : ℕ)
    → all_below 19 (guard_test size begin) ≡ true
    → b < 19
    → (objects size b * (16 * 2 ^ b) + guardsize_of (plan_of size begin) b (16 * 2 ^ b) ≤ size)
      ⊎ ((b ≡ 18)
          × (objects size b * (16 * 2 ^ b) + guardsize_of (plan_of size begin) b (16 * 2 ^ b)
              ≤ 14 * size))
guards_of_test size begin b h lt =
    let t = all_below_lem 19 (guard_test size begin) b h lt in ground arith

abbrev page_test : ℕ → ℕ → Bool
page_test size b = objects size b * (16 * 2 ^ b) % 4096 == 0

paged_of_test :
    (size b : ℕ)
    → all_below 19 (page_test size) ≡ true
    → b < 19
    → objects size b * (16 * 2 ^ b) % 4096 ≡ 0
paged_of_test size b h lt = let t = all_below_lem 19 (page_test size) b h lt in ground arith

numbers : Unit {0}
unfolding log2 bit_length plan_of sum_objects objects num_bag_objects guardoffset_of guardsize_of
    all_below
numbers = tt

IsBagSize-22 : IsBagSize (2 ^ 22)
unfolding numbers
IsBagSize-22 = record {
  pos = omega arith;
  small = omega arith;
  bag_bits = refl;
  heap_bits = refl;
  thread_bits = refl;
  usable = λ begin. refl;
  share_fits = omega arith;
  ceil_small = omega arith;
  short = omega arith;
  covered = omega arith;
  guards = λ begin b lt. guards_of_test (2 ^ 22) begin b refl lt;
  bags = λ begin b lt. bags_of_test (2 ^ 22) begin b refl lt;
  pages = refl;
  paged = λ b lt. paged_of_test (2 ^ 22) b refl lt;
}

IsBagSize-23 : IsBagSize (2 ^ 23)
unfolding numbers
IsBagSize-23 = record {
  pos = omega arith;
  small = omega arith;
  bag_bits = refl;
  heap_bits = refl;
  thread_bits = refl;
  usable = λ begin. refl;
  share_fits = omega arith;
  ceil_small = omega arith;
  short = omega arith;
  covered = omega arith;
  guards = λ begin b lt. guards_of_test (2 ^ 23) begin b refl lt;
  bags = λ begin b lt. bags_of_test (2 ^ 23) begin b refl lt;
  pages = refl;
  paged = λ b lt. paged_of_test (2 ^ 23) b refl lt;
}

IsBagSize-24 : IsBagSize (2 ^ 24)
unfolding numbers
IsBagSize-24 = record {
  pos = omega arith;
  small = omega arith;
  bag_bits = refl;
  heap_bits = refl;
  thread_bits = refl;
  usable = λ begin. refl;
  share_fits = omega arith;
  ceil_small = omega arith;
  short = omega arith;
  covered = omega arith;
  guards = λ begin b lt. guards_of_test (2 ^ 24) begin b refl lt;
  bags = λ begin b lt. bags_of_test (2 ^ 24) begin b refl lt;
  pages = refl;
  paged = λ b lt. paged_of_test (2 ^ 24) b refl lt;
}

choose : (r : ℕ) → r < 3 → IsBagSize (shl64 min_random_bag_size r)
choose zero h = IsBagSize-22
choose (suc zero) h = IsBagSize-23
choose (suc (suc zero)) h = IsBagSize-24
choose (suc (suc (suc r))) h = absurd (omega arith)

-- Whatever number is drawn, the bag size is one that the layout works for.
pub choose_bag_size-IsBagSize : (rand : ℕ) → IsBagSize (choose_bag_size rand)
unfolding choose_bag_size log2 bit_length
choose_bag_size-IsBagSize rand = choose (rand % 3) (omega arith)

-- The space above the two regions' starts: 2^46 bytes hold the heaps at the largest bag size, and
-- 2^41 the shadow entries.
pub record IsMapped (heap_begin shadow_begin : Ptr) : Type 0 where
  pub heap : heap_begin + 2 ^ 46 < word
  pub shadow : shadow_begin + 2 ^ 41 < word

module _ (size : ℕ) (s : IsBagSize size) (heap_begin shadow_begin : Ptr)
    (mapped : IsMapped heap_begin shadow_begin) where
  pub total_lem :
      (first_pass (plan_of size heap_begin)).num_cum_objects ≡ 128 * sum_objects size 0 19
  unfolding first_pass plan_of
  total_lem =
      let p = plan_of size heap_begin in
      init_threads-total p (omega (arith, s.usable heap_begin)) 128 0 _
      ∙ ap (λ k. 0 + 128 * sum_objects size 0 k) (s.usable heap_begin)
      ∙ omega arith

  pub ceil_lem :
      2 ^ ceil_bits_of ((first_pass (plan_of size heap_begin)).num_cum_objects * 8)
      ≡ 2 ^ ceil_bits_of (128 * sum_objects size 0 19 * 8)
  ceil_lem = ap (λ k. 2 ^ ceil_bits_of (k * 8)) total_lem

  pub initialize_with-IsSized : IsSized (initialize_with size heap_begin shadow_begin).0
  unfolding initialize_with
  initialize_with-IsSized = record {
    bag_pos = s.pos;
    bag_bits = s.bag_bits;
    bag_mask = refl;
    heap_bits = s.heap_bits;
    heap_mask = omega arith;
    thread_bits = s.thread_bits;
    per_heap_bits = log2_pow 12 (omega arith);
    sub_heap_mask = refl;
    info_size = refl;
    info_bits = log2_pow 3 (omega arith);
    ceil_bits = refl;
    ceil_pos = pow_pos _;
    shadow_mask = refl;
    heap_end = omega arith;
    heap_fits = omega (arith, s.small, mapped.heap);
    shadow_fits = omega (arith, ceil_lem, s.ceil_small, mapped.shadow);
  }
