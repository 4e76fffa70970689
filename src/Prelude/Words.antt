-- ===== src/Prelude/Words.antt =====
-- Machine integers: values are natural numbers and the wrap-around is written out.
use Prim.Native.Nat.{ℕ, ◌%◌, ◌^◌}

abbrev pub u32_mod : ℕ
u32_mod = 2 ^ 32

abbrev pub u64_mod : ℕ
u64_mod = 2 ^ 64

-- uint32(n)
abbrev pub u32 : ℕ → ℕ
u32 n = n % u32_mod

-- uint64(n)
abbrev pub u64 : ℕ → ℕ
u64 n = n % u64_mod

-- time.Second, in nanoseconds
abbrev pub second : ℕ
second = 1000000000
