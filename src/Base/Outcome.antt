-- ===== src/Base/Outcome.antt =====
-- The outcome of code that can fail: a value, or the reason why the process does not go on.
use mathlib.Core.Bool.{Bool, true, false, false≢true}
use mathlib.Core.Path.{◌≡◌, sym, ap, subst, ◌∙◌}

pub data Fault : Type 0 where
  -- undefined behaviour: a read or a write through NULL, or outside an array
  null_pointer out_of_bounds : Fault
  -- a read or a write outside of a mapping, or of memory that `mprotect` made inaccessible
  access_violation : Fault
  -- `exit` after a report, by `freeSmallObject`, `getShadowObjectInfo`, `deallocateToBigHeap`
  double_free invalid_object unknown_object canary_broken : Fault
  -- `exit` or `abort` for want of a resource
  no_memory thread_create_failure aborted : Fault
  -- the processor traps
  division_by_zero : Fault
  -- a loop that does not end
  hang : Fault

pub data Run {ℓ} (A : Type ℓ) : Type ℓ where
  fault : Fault → Run A
  ok : A → Run A

infixl 5 ◌>>=◌ ◌>>◌
abbrev pub ◌>>=◌ {ℓ₁ ℓ₂} : {A : Type ℓ₁} → {B : Type ℓ₂} → Run A → (A → Run B) → Run B
fault reason >>= next = fault reason
ok value >>= next = next value

abbrev pub ◌>>◌ {ℓ₁} : {B : Type ℓ₁} → Run (Unit {0}) → Run B → Run B
first >> rest = first >>= λ _. rest

-- The run ends normally, in a value that satisfies `P`.
abbrev pub Returns {ℓ₁ ℓ₂} : {A : Type ℓ₁} → Run A → (A → Type ℓ₂) → Type (ℓ₁ ⊔ ℓ₂)
Returns {A} run P = (result : A) × (run ≡ ok result) × P result

value_or {ℓ} : {A : Type ℓ} → A → Run A → A
value_or a (ok v) = v
value_or a (fault e) = a

-- What holds of the value that a call returns holds of the value that it is known to return.
pub Returns-at {ℓ κ} :
    {A : Type ℓ} (r : Run A) (P : A → Type κ) (a : A) → Returns r P → r ≡ ok a → P a
unfolding value_or
Returns-at r P a (b, run, p) e = subst P (ap (value_or a) (sym run ∙ e)) p

is_ok {ℓ} : {A : Type ℓ} → Run A → Bool
is_ok (ok v) = true
is_ok (fault e) = false

pub ok-injective {ℓ} : {A : Type ℓ} {a b : A} → ok a ≡ ok b → a ≡ b
unfolding value_or
ok-injective {a = a} e = ap (value_or a) e

-- A chain of calls that returns is one of which the first call returns.
pub bind-ok {ℓ κ} :
    {A : Type ℓ} {B : Type κ} (run : Run A) (next : A → Run B) (b : B)
    → (run >>= next) ≡ ok b
    → (a : A) × (next a ≡ ok b)
unfolding is_ok
bind-ok (ok a) next b e = (a, e)
bind-ok (fault f) next b e = absurd (false≢true (ap is_ok e))
