-- ===== src/Bibop/SizeClass/Fit.antt =====
-- bibopheap.hh: the size class of a request with its canary, and the bag of the class.
use free_guard.Base.{
  ℕ, suc, ◌+◌, ◌-◌, ◌*◌, ◌/◌, ◌%◌, ◌^◌, ◌≤◌, ◌<◌, ◌≡◌, refl, inl, inr, ◌⊎◌, arith, pow_pos, pow_suc,
  pow_add, ap, ◌∙◌, sub64, lt→leb_false, le→leb, div_multiple,
}
use native.Mathlib.Decide.{dec_lt}
use native.Mathlib.Nat.{pow-le-pow_right}
use free_guard.Xdefines.{bit_length, log2}
use free_guard.Xdefines.Log.{bit_length_bounds, log2_pow}
use free_guard.Bibop.SizeClass.{class_size_of, get_bag_num}

-- Shifting 2^32 right by the zeros leaves one digit more than there are digits.
shift_by_clz : (n : ℕ) → n ≤ 32 → 2 ^ 32 / 2 ^ (32 - n) ≡ 2 ^ n
shift_by_clz n h =
    let e : 32 ≡ n + (32 - n) = omega arith in
    (ap (λ t. t / 2 ^ (32 - n)) (ap (λ t. 2 ^ t) e ∙ pow_add n (32 - n)))
    ∙ div_multiple (2 ^ n) (2 ^ (32 - n)) (pow_pos (32 - n))

class_size-pow : (sz : ℕ) → 16 < sz → sz ≤ 2 ^ 32 → class_size_of sz ≡ 2 ^ bit_length 32 (sz - 1)
unfolding class_size_of
class_size-pow sz lo hi =
    let e : sub64 sz 1 % 2 ^ 32 ≡ sz - 1 = omega arith in
    let b = bit_length_bounds 32 (sz - 1) (omega arith) (omega arith) in
    rw (lt→leb_false sz 16 lo, e) (shift_by_clz (bit_length 32 (sz - 1)) b.1)

exponent_lt : (j k : ℕ) → 2 ^ j < 2 ^ k → j < k
exponent_lt j k h = elim (dec_lt j k) [
  | yes p ↦ p
  | no p ↦
      absurd (omega (arith, pow-le-pow_right {n = 2} (omega arith) {i = k} {j = j} (omega arith)))
]

-- For a request that fits with its canary into the largest class, the class is 16 * 2^k for the
-- bag number k, one of the 19 usable bags; it holds the request; and no smaller class does.
pub record Fits (sz k : ℕ) : Type 0 where
  pub usable : k ≤ 18
  pub size : class_size_of sz ≡ 16 * 2 ^ k
  pub bag : get_bag_num 4 (class_size_of sz) ≡ k
  pub holds : sz ≤ class_size_of sz
  pub least : (k ≡ 0) ⊎ (class_size_of sz < 2 * sz)

class_size-Fits_small : (sz : ℕ) → sz ≤ 16 → Fits sz 0
unfolding class_size_of
class_size-Fits_small sz h =
    let e : class_size_of sz ≡ 16 = rw (le→leb sz 16 h) in
    record {
      usable = omega arith;
      size = e;
      bag = ap (get_bag_num 4) e ∙ unfold get_bag_num log2 bit_length in refl;
      holds = omega arith;
      least = inl refl;
    }

class_size-Fits_large : (sz : ℕ) → 16 < sz → sz ≤ 2 ^ 22 → (k : ℕ) × Fits sz k
unfolding get_bag_num
class_size-Fits_large sz lo hi =
    let n = bit_length 32 (sz - 1) in
    let b = bit_length_bounds 32 (sz - 1) (omega arith) (omega arith) in
    let c = class_size-pow sz lo (omega arith) in
    let top : n - 1 < 22 = exponent_lt (n - 1) 22 (omega (arith, b.3)) in
    let low : 4 < n = exponent_lt 4 n (omega (arith, b.2)) in
    let sum : n ≡ 4 + (n - 4) = omega arith in
    let split : 2 ^ n ≡ 16 * 2 ^ (n - 4) = ap (λ t. 2 ^ t) sum ∙ pow_add 4 (n - 4) in
    let twice : 2 ^ n ≡ 2 ^ (n - 1) * 2 =
      let e : n ≡ suc (n - 1) = omega arith in ap (λ t. 2 ^ t) e ∙ pow_suc (n - 1) in
    (
      n - 4,
      record {
        usable = omega arith;
        size = c ∙ split;
        bag = rw (c, log2_pow n (omega arith));
        holds = omega (arith, c, b.2);
        least = inr (omega (arith, c, b.3, twice));
      },
    )

-- The size class of a request up to 2^22 is 16 * 2^k for one of the 19 usable bag numbers k,
-- `getBagNum` gives that k, the class holds the request, and no smaller class does.
pub class_size-Fits : (sz : ℕ) → sz ≤ 2 ^ 22 → (k : ℕ) × Fits sz k
class_size-Fits sz hi = elim (dec_lt 16 sz) [
  | yes p ↦ class_size-Fits_large sz p hi
  | no p ↦ (0, class_size-Fits_small sz (omega arith))
]
