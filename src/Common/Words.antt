-- ===== src/Common/Words.antt =====
-- Words of 8, 32 and 64 bits as native numbers, with their wrap-around.
use Prim.Native.Nat.{ℕ, ◌+◌, ◌-◌, ◌*◌, ◌%◌, ◌^◌}

abbrev pub u8_mod : ℕ
u8_mod = 256

abbrev pub u32_mod : ℕ
u32_mod = 2 ^ 32

abbrev pub u64_mod : ℕ
u64_mod = 2 ^ 64

-- `uint64_t` and `size_t` arithmetic.
abbrev pub add64 : ℕ → ℕ → ℕ
add64 a b = (a + b) % u64_mod

abbrev pub sub64 : ℕ → ℕ → ℕ
sub64 a b = (a + u64_mod - b) % u64_mod

abbrev pub mul64 : ℕ → ℕ → ℕ
mul64 a b = (a * b) % u64_mod

abbrev pub shl64 : ℕ → ℕ → ℕ
shl64 a k = (a * 2 ^ k) % u64_mod

-- `~x` on a 64-bit word.
abbrev pub not64 : ℕ → ℕ
not64 a = u64_mod - 1 - a

-- `x++` on 64-bit and 32-bit counters.
abbrev pub inc64 : ℕ → ℕ
inc64 a = add64 a 1

abbrev pub inc32 : ℕ → ℕ
inc32 a = (a + 1) % u32_mod

abbrev pub dec32 : ℕ → ℕ
dec32 a = (a + u32_mod - 1) % u32_mod
