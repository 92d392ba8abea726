-- ===== src/Xdefines/Log.antt =====
-- The number of digits and the logarithm that the compiler's `clz` gives.
use free_guard.Base.{
  ℕ, zero, suc, ◌-◌, ◌/◌, ◌^◌, ◌≤◌, ◌<◌, ◌≡◌, refl, arith, pow_pos, pow_suc, ◌∙◌, ap, ne→==_false,
}
use native.Mathlib.Decide.{dec_lt}
use free_guard.Xdefines.{bit_length, log2}

bit_length_zero : (k : ℕ) → bit_length k 0 ≡ 0
unfolding bit_length
bit_length_zero zero = refl
bit_length_zero (suc k) = refl

-- One digit more than the half has.
bit_length_half : (k x : ℕ) → 0 < x → bit_length (suc k) x ≡ suc (bit_length k (x / 2))
unfolding bit_length
bit_length_half k x pos = rw (ne→==_false x 0 (omega arith))

bit_length_step :
    (n k x : ℕ)
    → 0 < n
    → n ≤ k
    → x / 2 < 2 ^ n
    → 2 ^ (n - 1) ≤ x / 2
    → (0 < suc n) × (suc n ≤ suc k) × (x < 2 ^ suc n) × (2 ^ (suc n - 1) ≤ x)
bit_length_step zero k x lo hi above below = absurd (omega arith)
bit_length_step (suc n) k x lo hi above below =
    let e : suc n - 1 ≡ n = omega arith in
    let f : suc (suc n) - 1 ≡ suc n = omega arith in
    let below' : 2 ^ n ≤ x / 2 = rw e at below in rw f (omega (arith, pow_suc n, pow_suc (suc n)))

-- A number with `n` digits lies between 2^(n-1) and 2^n.
pub bit_length_bounds :
    (k x : ℕ)
    → 0 < x
    → x < 2 ^ k
    → (0 < bit_length k x)
      × (bit_length k x ≤ k)
      × (x < 2 ^ bit_length k x)
      × (2 ^ (bit_length k x - 1) ≤ x)
bit_length_bounds zero x pos h = absurd (omega arith)
bit_length_bounds (suc k) x pos h = elim (dec_lt 1 x) [
  | no p ↦
      let one : x ≡ 1 = omega arith in
      rw (bit_length_half k x pos) (rw one (rw (bit_length_zero k) (omega arith)))
  | yes p ↦
      let (lo, hi, above, below) =
        bit_length_bounds k (x / 2) (omega arith) (omega (arith, pow_suc k)) in
      rw (bit_length_half k x pos) (bit_length_step (bit_length k (x / 2)) k x lo hi above below)
]

pub bit_length_pow : (k j : ℕ) → j < k → bit_length k (2 ^ j) ≡ suc j
unfolding bit_length
bit_length_pow zero j h = absurd (omega arith)
bit_length_pow (suc k) zero h = ap suc (bit_length_zero k)
bit_length_pow (suc k) (suc j) h =
    let half : 2 ^ suc j / 2 ≡ 2 ^ j = omega (arith, pow_suc j) in
    bit_length_half k (2 ^ suc j) (pow_pos (suc j))
    ∙ ap suc (ap (bit_length k) half ∙ bit_length_pow k j (omega arith))

pub log2_pow : (j : ℕ) → j < 64 → log2 (2 ^ j) ≡ j
unfolding log2
log2_pow j h = rw (bit_length_pow 64 j h) (omega arith)
