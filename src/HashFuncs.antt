-- ===== src/HashFuncs.antt =====
-- hashfuncs.hh: the hash and the comparison of addresses that every map of FreeGuard uses.
use free_guard.Base.{ℕ, ◌==◌, Bool, bit_xor, add64, shl64, shr}

-- `hashAddr`, the key as an unsigned long of 64 bits; the second argument is not read.
unfoldable pub hash_addr : ℕ → ℕ → ℕ
hash_addr addr len =
    let a = bit_xor addr (bit_xor (shl64 addr 15) 0xcd7dcd7d) in
    let b = bit_xor a (shr a 10) in
    let c = bit_xor b (shl64 b 3) in
    let d = bit_xor c (shr c 6) in
    let e = bit_xor d (add64 (shl64 d 2) (shl64 d 14)) in bit_xor e (shr e 16)

-- `compareAddr`
unfoldable pub compare_addr : ℕ → ℕ → ℕ → Bool
compare_addr addr1 addr2 len = addr1 == addr2
