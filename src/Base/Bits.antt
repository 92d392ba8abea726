-- ===== src/Base/Bits.antt =====
-- A mask of low ones is a remainder, and a mask of high ones clears the remainder.
use Prim.Native.Nat.{
  ℕ, zero, suc, ◌+◌, ◌-◌, ◌*◌, ◌/◌, ◌%◌, ◌^◌, ◌≤◌, ◌<◌, min, bit_and, digits, bit_and-bitwise,
}
use mathlib.Core.Path.{◌≡◌, refl, ap, ◌∙◌}
use native.Mathlib.Omega.{arith}
use native.Mathlib.Nat.{mod-eq_of_lt}
use free_guard.Base.Arith.{pow_pos, pow_suc, mod_double}

abbrev by_digits : ℕ → ℕ → ℕ → ℕ
by_digits fuel a b = digits (λ b. zero) min fuel a b

-- The recursion's first argument is fuel: any that reaches the number gives one result.
by_digits_stable : (j k a b : ℕ) → a ≤ j → a ≤ k → by_digits j a b ≡ by_digits k a b
by_digits_stable zero zero a b p q = refl
by_digits_stable zero (suc k) zero b p q = refl
by_digits_stable zero (suc k) (suc a) b p q = absurd (omega arith)
by_digits_stable (suc j) zero zero b p q = refl
by_digits_stable (suc j) zero (suc a) b p q = absurd (omega arith)
by_digits_stable (suc j) (suc k) zero b p q = refl
by_digits_stable (suc j) (suc k) (suc a) b p q =
    omega (arith, by_digits_stable j k (suc a / 2) (b / 2) (omega arith) (omega arith))

-- The lowest digit of a conjunction, and the rest of it.
pub bit_and-halves : (a b : ℕ) → bit_and a b ≡ bit_and (a / 2) (b / 2) * 2 + min (a % 2) (b % 2)
bit_and-halves zero b = omega (arith, bit_and-bitwise 0 b, bit_and-bitwise 0 (b / 2))
bit_and-halves (suc a) b = omega (
  arith,
  bit_and-bitwise (suc a) b,
  bit_and-bitwise (suc a / 2) (b / 2),
  by_digits_stable a (suc a / 2) (suc a / 2) (b / 2) (omega arith) (omega arith),
)

bit_and-zero_below : (n a : ℕ) → a ≤ n → bit_and a 0 ≡ 0
bit_and-zero_below n zero h = refl
bit_and-zero_below zero (suc a) h = absurd (omega arith)
bit_and-zero_below (suc n) (suc a) h =
    omega (arith, bit_and-halves (suc a) 0, bit_and-zero_below n (suc a / 2) (omega arith))

pub bit_and-zero : (a : ℕ) → bit_and a 0 ≡ 0
bit_and-zero a = bit_and-zero_below a a (omega arith)

-- `x & (2^k - 1)`.
pub bit_and-mask : (k x : ℕ) → bit_and x (2 ^ k - 1) ≡ x % 2 ^ k
bit_and-mask zero x = omega (arith, bit_and-zero x)
bit_and-mask (suc k) x =
    let m = 2 ^ k in
    let e : (m * 2 - 1) / 2 ≡ m - 1 = omega (arith, pow_pos k) in
    let f : (m * 2 - 1) % 2 ≡ 1 = omega (arith, pow_pos k) in
    rw (pow_suc k) (
      bit_and-halves x (m * 2 - 1)
      ∙ omega (arith, ap (bit_and (x / 2)) e, bit_and-mask k (x / 2), mod_double x m (pow_pos k)))

-- `x & ~(2^k - 1)` where the complement has `m` ones above the `k` zeros.
pub bit_and-high : (k m x : ℕ) → x < 2 ^ k * 2 ^ m → bit_and x (2 ^ k * (2 ^ m - 1)) ≡ x - x % 2 ^ k
bit_and-high zero m x h =
    let e : 2 ^ 0 * (2 ^ m - 1) ≡ 2 ^ m - 1 = omega arith in
    rw e (bit_and-mask m x ∙ mod-eq_of_lt (omega arith) ∙ omega arith)
bit_and-high (suc k) m x h =
    let a = 2 ^ k in
    let n = 2 ^ m - 1 in
    let e : (a * 2 * n) / 2 ≡ a * n = omega arith in
    let f : (a * 2 * n) % 2 ≡ 0 = omega arith in
    let half_lt : x / 2 < a * 2 ^ m =
      omega (arith, pow_suc k, ap (λ (t : ℕ). t * 2 ^ m) (pow_suc k)) in
    rw (pow_suc k) (
      bit_and-halves x (a * 2 * n)
      ∙ omega (
        arith,
        ap (bit_and (x / 2)) e,
        bit_and-high k m (x / 2) half_lt,
        mod_double x a (pow_pos k),
      ))
