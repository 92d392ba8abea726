-- ===== src/Base/Arith.antt =====
-- Division by a number that need not be a numeral, and arithmetic on 64-bit words.
use Prim.Native.Nat.{ℕ, zero, suc, ◌+◌, ◌-◌, ◌*◌, ◌/◌, ◌%◌, ◌^◌, ◌≤◌, ◌<◌}
use mathlib.Core.Path.{◌≡◌, ap, ◌∙◌}
use native.Mathlib.Omega.{arith}
use native.Mathlib.Nat.{
  mul-add-div_right, mul-add-mod_self_right, mod-eq_of_lt, div-eq_of_lt, pow-suc, mul-div_left,
  div-add-mod', mod-lt,
}

pub div_block : (q d r : ℕ) → r < d → (q * d + r) / d ≡ q
div_block q d r h = mul-add-div_right (omega arith) q r ∙ omega (arith, div-eq_of_lt h)

pub mod_block : (q d r : ℕ) → r < d → (q * d + r) % d ≡ r
mod_block q d r h = mul-add-mod_self_right q d r ∙ mod-eq_of_lt h

pub div_multiple : (q d : ℕ) → 0 < d → (q * d) / d ≡ q
div_multiple q d h = mul-div_left q h

-- A row of blocks of `d` stays below the next block.
pub block-lt : (q n d r : ℕ) → q < n → r < d → q * d + r < n * d
block-lt q n d r h k = grind arith

pub pow_pos : (k : ℕ) → 0 < 2 ^ k
pow_pos zero = omega arith
pow_pos (suc k) = omega (arith, pow-suc 2 k, pow_pos k)

pub pow_suc : (k : ℕ) → 2 ^ suc k ≡ 2 ^ k * 2
pow_suc k = pow-suc 2 k

pub pow_add : (j k : ℕ) → 2 ^ (j + k) ≡ 2 ^ j * 2 ^ k
pow_add zero k = let e : zero + k ≡ k = omega arith in rw e (omega arith)
pow_add (suc j) k =
    let e : suc j + k ≡ suc (j + k) = omega arith in
    rw (e, pow_suc j, pow_suc (j + k), pow_add j k) (grind arith)

-- The remainder by an even number is that of the half, doubled, and the lowest digit.
pub mod_double : (x m : ℕ) → 0 < m → x % (m * 2) ≡ (x / 2) % m * 2 + x % 2
mod_double x m h =
    let e : x ≡ (x / 2 / m) * (m * 2) + ((x / 2) % m * 2 + x % 2) =
      omega (arith, div-add-mod' (x / 2) m) in
    ap (λ t. t % (m * 2)) e ∙ mod_block (x / 2 / m) (m * 2) _ (omega (arith, mod-lt (x / 2) h))

-- The number of 64-bit words.
abbrev pub word : ℕ
word = 2 ^ 64

-- Unsigned 64-bit arithmetic, with its wrap-around. `-` on ℕ stops at 0, so the modulus is added.
abbrev pub add64 : ℕ → ℕ → ℕ
add64 a b = (a + b) % word

abbrev pub sub64 : ℕ → ℕ → ℕ
sub64 a b = (a + (word - b % word)) % word

abbrev pub mul64 : ℕ → ℕ → ℕ
mul64 a b = (a * b) % word

-- `x << k` and `x >> k` on an unsigned long.
abbrev pub shl64 : ℕ → ℕ → ℕ
shl64 x k = (x * 2 ^ k) % word

abbrev pub shr : ℕ → ℕ → ℕ
shr x k = x / 2 ^ k

pub sub64-eq-sub : (a b : ℕ) → a < word → b ≤ a → sub64 a b ≡ a - b
sub64-eq-sub a b h k = omega arith

pub mul64-eq-mul : (a b : ℕ) → a * b < word → mul64 a b ≡ a * b
mul64-eq-mul a b h = mod-eq_of_lt h

pub shl64-eq-mul : (a k : ℕ) → a * 2 ^ k < word → shl64 a k ≡ a * 2 ^ k
shl64-eq-mul a k h = mod-eq_of_lt h
