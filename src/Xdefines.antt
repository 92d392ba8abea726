-- ===== src/Xdefines.antt =====
-- xdefines.hh: the constants of the default build (the Makefile's -DMANYBAGS -DCUSTOMIZED_STACK
-- -DSSE2RNG -DENABLE_GUARDPAGE -DRANDOM_GUARD -DUSE_CANARY -DFIFO_FREELIST), rounding to an
-- alignment, logarithms, and the index of a thread from an address on its stack.
pub mod Align
pub mod Log
use free_guard.Base.{
  ℕ, zero, suc, ◌+◌, ◌-◌, ◌*◌, ◌/◌, ◌%◌, ◌^◌, ◌==◌, ltb, leb, ◌||◌, if◌then◌else◌, Bool, true,
  false, bit_and, word, add64, sub64, shr,
}

abbrev pub page_size : ℕ
page_size = 4096

abbrev pub max_alive_threads : ℕ
max_alive_threads = 128

abbrev pub bibop_num_heaps : ℕ
bibop_num_heaps = 1024

abbrev pub bibop_num_bags : ℕ
bibop_num_bags = 32

abbrev pub bibop_bag_set_size : ℕ
bibop_bag_set_size = 4

-- `BIBOP_BAG_SET_SIZE * BIBOP_BAG_SET_WEIGHT - 1`
abbrev pub bibop_bag_set_randomizer_mask : ℕ
bibop_bag_set_randomizer_mask = 31

abbrev pub bibop_min_block_size : ℕ
bibop_min_block_size = 16

abbrev pub min_random_bag_size : ℕ
min_random_bag_size = 0x400000

abbrev pub max_random_bag_size : ℕ
max_random_bag_size = 0x1000000

abbrev pub large_object_threshold : ℕ
large_object_threshold = min_random_bag_size

abbrev pub canary_sentinel : ℕ
canary_sentinel = 0x7B

abbrev pub alloc_sentinel : ℕ
alloc_sentinel = 1

abbrev pub stack_size : ℕ
stack_size = 0x800000

abbrev pub thread_map_size : ℕ
thread_map_size = 1280

-- `~(alignto - 1)` on a 64-bit word
abbrev complement : ℕ → ℕ
complement x = word - 1 - x

unfoldable pub alignup : ℕ → ℕ → ℕ
alignup size alignto =
    if size % alignto == 0
    then size
    else bit_and (add64 size (sub64 alignto 1)) (complement (sub64 alignto 1))

unfoldable pub aligndown : ℕ → ℕ → ℕ
aligndown addr alignto = bit_and addr (complement (sub64 alignto 1))

-- The number of binary digits of `x`, of at most `k`.
unfoldable pub bit_length : ℕ → ℕ → ℕ
bit_length zero x = 0
bit_length (suc k) x = let rest = bit_length k (x / 2) in if x == 0 then 0 else suc rest

-- The compiler's `__builtin_clz` and `__builtin_clzll`, which count leading zeros.
abbrev pub clz : ℕ → ℕ
clz x = 32 - bit_length 32 x

abbrev pub clzll : ℕ → ℕ
clzll x = 64 - bit_length 64 x

unfoldable pub log2 : ℕ → ℕ
log2 x = 8 * 8 - clzll x - 1

-- `IF_CANARY_CONDITION`, with the wrap-around of `size + 1`.
unfoldable pub if_canary_condition : ℕ → Bool
if_canary_condition size = ltb large_object_threshold (add64 size 1)

-- Below the stack area the shifted difference is negative, and the index is 0. The conversion of
-- the index to `int` keeps it, as addresses are below 2^47.
unfoldable pub get_thread_index : ℕ → ℕ → ℕ
get_thread_index global_stack_addr stack_var =
    if ltb stack_var global_stack_addr
    then 0
    else let index = shr (stack_var - global_stack_addr) 23 in
      if leb max_alive_threads index || index == 0 then 0 else index
