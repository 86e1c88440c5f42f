-- ===== src/Prelude/Words.antt =====
-- Machine words as natural numbers: the shifts of u64 as a release build makes them, which keeps
-- the low six bits of the shift count and drops the bits that leave the word.
use Prim.Native.Nat.{ℕ, ◌*◌, ◌/◌, ◌%◌, ◌^◌}

abbrev pub u64_max : ℕ
u64_max = 18446744073709551615

abbrev pub shl64 : ℕ → ℕ → ℕ
shl64 x k = x * 2 ^ (k % 64) % 2 ^ 64

abbrev pub shr64 : ℕ → ℕ → ℕ
shr64 x k = x / 2 ^ (k % 64)
