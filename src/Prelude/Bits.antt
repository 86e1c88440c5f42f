-- ===== src/Prelude/Bits.antt =====
-- The bit operations of Rust's integers at variables: `&` with a mask of low ones is a remainder,
-- and `| 1` on an even number sets the lowest digit. The native operations compute at numerals only,
-- so both are proved from the recursion on binary digits that they stand for.
use Prim.Native.Nat.{
  ℕ, zero, suc, ◌+◌, ◌-◌, ◌*◌, ◌/◌, ◌%◌, ◌^◌, ◌≤◌, ◌<◌, min, max, digits, bit_and, bit_or,
  bit_and-bitwise, bit_or-bitwise,
}
use mathlib.Core.Path.{◌≡◌, refl, sym, ap, ◌∙◌}
use native.Mathlib.Nat.{
  pow-suc, one-le-pow, div-add-mod, le_refl, mod-lt, mod-eq_of_lt, add-mul-mod_self_right,
}
use native.Mathlib.Omega.{arith}

-- The digits of `a & b` and `a | b`, for at most `fuel` digits of `a`.
abbrev and_fuel : ℕ → ℕ → ℕ → ℕ
and_fuel fuel a b = digits (λ b. 0) min fuel a b

abbrev or_fuel : ℕ → ℕ → ℕ → ℕ
or_fuel fuel a b = digits (λ b. b) max fuel a b

and_fuel-zero : (n a : ℕ) → and_fuel n a 0 ≡ 0
and_fuel-zero zero a = refl
and_fuel-zero (suc n) zero = refl
and_fuel-zero (suc n) (suc a) = omega (arith, and_fuel-zero n (suc a / 2))

or_fuel-zero : (n a : ℕ) → a ≤ n → or_fuel n a 0 ≡ a
or_fuel-zero zero zero h = refl
or_fuel-zero zero (suc a) h = absurd (omega arith)
or_fuel-zero (suc n) zero h = refl
or_fuel-zero (suc n) (suc a) h = omega (arith, or_fuel-zero n (suc a / 2) (omega arith))

-- The remainder by `2 * m`, from the remainder of the half by `m`.
pub mod_double : (a m : ℕ) → 1 ≤ m → a / 2 % m * 2 + a % 2 ≡ a % (m * 2)
mod_double a m h =
    let q = a / 2 / m in
    let r = a / 2 % m * 2 + a % 2 in
    let below : r < m * 2 = omega (arith, mod-lt (a / 2) h) in
    let whole : r + q * (m * 2) ≡ a = omega (arith, div-add-mod (a / 2) m) in
    sym (mod-eq_of_lt below)
    ∙ sym (add-mul-mod_self_right r q (m * 2))
    ∙ ap (λ (t : ℕ). t % (m * 2)) whole

-- `b` is a mask of `k` ones.
and_fuel_mask : (n k a b : ℕ) → a ≤ n → b + 1 ≡ 2 ^ k → and_fuel n a b ≡ a % 2 ^ k
and_fuel_mask zero k zero b h e = omega arith
and_fuel_mask zero k (suc a) b h e = absurd (omega arith)
and_fuel_mask (suc n) k zero b h e = omega arith
and_fuel_mask (suc n) zero (suc a) b h e =
    let none_set : b ≡ 0 = omega arith in rw none_set (omega (arith, and_fuel-zero n (suc a / 2)))
and_fuel_mask (suc n) (suc k) (suc a) b h e =
    let half : b + 1 ≡ 2 ^ k * 2 = e ∙ pow-suc 2 k in
    rw (pow-suc 2 k) (
      omega (
        arith,
        and_fuel_mask n k (suc a / 2) (b / 2) (omega arith) (omega arith),
        mod_double (suc a) (2 ^ k) (one-le-pow k 2 (omega arith)),
      ))

-- A mask of `k` low ones keeps the remainder by `2 ^ k`.
pub bit_and_mask : (k a : ℕ) → bit_and a (2 ^ k - 1) ≡ a % 2 ^ k
bit_and_mask k a =
    simp bit_and-bitwise
      (and_fuel_mask a k a (2 ^ k - 1) (le_refl a) (omega (arith, one-le-pow k 2 (omega arith))))

or_fuel-double : (n x a : ℕ) → a ≤ n → a ≡ x * 2 → or_fuel n a 1 ≡ x * 2 + 1
or_fuel-double zero x zero h e = omega arith
or_fuel-double zero x (suc a) h e = absurd (omega arith)
or_fuel-double (suc n) x zero h e = omega arith
or_fuel-double (suc n) x (suc a) h e = omega (arith, or_fuel-zero n (suc a / 2) (omega arith))

-- `(x << 1) | 1`
pub bit_or-double : (x : ℕ) → bit_or (x * 2) 1 ≡ x * 2 + 1
bit_or-double x = simp bit_or-bitwise (or_fuel-double (x * 2) x (x * 2) (le_refl _) refl)
