-- ===== src/Base/Ranges.antt =====
-- Ranges of addresses, as `mprotect` gets them: the first address and the size.
use Prim.Native.Nat.{ℕ, ◌+◌}
use mathlib.Core.Bool.{Bool, false, ◌&&◌, ◌||◌}
use mathlib.Core.List.{List, [], ◌∷◌}
use free_guard.Base.Tests.{ltb, leb}

-- The address lies in the range.
abbrev pub in_range : ℕ → ℕ × ℕ → Bool
in_range addr range = leb range.0 addr && ltb addr (range.0 + range.1)

-- The address lies in one of the protected ranges.
unfoldable pub is_guarded : List (ℕ × ℕ) → ℕ → Bool
is_guarded [] addr = false
is_guarded (range ∷ ranges) addr = in_range addr range || is_guarded ranges addr
