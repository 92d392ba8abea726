-- ===== src/Bibop/SizeClass.antt =====
-- bibopheap.hh: the size class that `allocateSmallObject` chooses, and the number of its bag.
pub mod Fit
use free_guard.Base.{ℕ, ◌-◌, ◌/◌, ◌%◌, ◌^◌, leb, if◌then◌else◌, add64, sub64, shr}
use free_guard.Xdefines.{bibop_min_block_size, clz, log2}

-- Room for the canary.
unfoldable pub with_canary : ℕ → ℕ
with_canary sz = add64 sz 1

-- `__builtin_clz` takes an unsigned int.
unfoldable pub class_size_of : ℕ → ℕ
class_size_of sz =
    if leb sz bibop_min_block_size
    then bibop_min_block_size
    else shr (2 ^ 32) (clz (sub64 sz 1 % 2 ^ 32))

-- `getBagNum`
unfoldable pub get_bag_num : ℕ → ℕ → ℕ
get_bag_num first_bag_power class_size = log2 class_size - first_bag_power
