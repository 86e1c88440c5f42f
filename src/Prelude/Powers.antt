-- ===== src/Prelude/Powers.antt =====
-- Powers of two, in the forms that sizes and depths of the tree need.
use Prim.Native.Nat.{ℕ, zero, suc, ◌+◌, ◌-◌, ◌*◌, ◌%◌, ◌^◌, ◌≤◌, ◌<◌}
use mathlib.Core.Path.{◌≡◌, ap, ◌∙◌}
use native.Mathlib.Nat.{pow-suc, one-le-pow, pow-le-pow_right, mod-lt, mul_assoc, add-zero, add-suc}
use native.Mathlib.Numerals.{add-one}
use native.Mathlib.Omega.{arith}

pub two_pow_pos : (k : ℕ) → 1 ≤ 2 ^ k
two_pow_pos k = one-le-pow k 2 (omega arith)

pub two_pow_succ : (k : ℕ) → 2 ^ (k + 1) ≡ 2 ^ k * 2
two_pow_succ k = rw add-one (pow-suc 2 k)

pub two_pow_le : (i j : ℕ) → i ≤ j → 2 ^ i ≤ 2 ^ j
two_pow_le i j h = pow-le-pow_right (omega arith) {i = i} {j = j} h

pub two_pow_lt : (i j : ℕ) → i < j → 2 ^ i * 2 ≤ 2 ^ j
two_pow_lt i j h = rw (← pow-suc 2 i) (two_pow_le (suc i) j h)

pub two_pow_pred : (k : ℕ) → 0 < k → 2 ^ k ≡ 2 ^ (k - 1) * 2
two_pow_pred k h =
    let e : k ≡ suc (k - 1) = omega arith in ap (λ (t : ℕ). 2 ^ t) e ∙ pow-suc 2 (k - 1)

pub two_pow_add : (i j : ℕ) → 2 ^ (i + j) ≡ 2 ^ i * 2 ^ j
two_pow_add i zero = rw add-zero (omega arith)
two_pow_add i (suc j) =
    rw (add-suc, pow-suc 2 (i + j), pow-suc 2 j, two_pow_add i j) (mul_assoc (2 ^ i) (2 ^ j) 2)

pub mod-two_pow-lt : (k a : ℕ) → a % 2 ^ k < 2 ^ k
mod-two_pow-lt k a = mod-lt a (two_pow_pos k)
