-- ===== src/Sample/Numbers.antt =====
-- Numbers in little endian for the sample parameters, and the laws that Crypto.AreLittleEndian wants.
use aimless_onions.Prelude.{
  ℕ, zero, suc, ◌+◌, ◌*◌, ◌/◌, ◌%◌, ◌^◌, ◌≤◌, ◌<◌, ◌≡◌, refl, ap, ◌∙◌, arith, [], ◌∷◌, ◌++◌, length,
  replicate, dec_lt, ltb, lt→ltb, true, false,
}
use native.Mathlib.Nat.{
  mod-add-div, div-eq_of_lt, add-mul-div_left, add-mul-mod_self_left, mod-eq_of_lt, pow-suc,
}
use aimless_onions.Wire.{Bytes, to_le_bytes}
use aimless_onions.Crypto.{AreBytes}

unfoldable pub from_bytes : Bytes → ℕ
from_bytes [] = 0
from_bytes (b ∷ bs) = b + 256 * from_bytes bs

-- At least one digit, and no more than the fuel and one.
unfoldable pub digits : ℕ → ℕ → Bytes
digits zero n = n ∷ []
digits (suc fuel) n = elim (ltb n 256) [ true ↦ n ∷ [] | false ↦ n % 256 ∷ digits fuel (n / 256) ]

unfoldable pub to_bytes : ℕ → Bytes
to_bytes n = digits n n

not_small : (n : ℕ) → 256 ≤ n → ltb n 256 ≡ false
not_small n h = ground arith

digits-one : (fuel n : ℕ) → n < 256 → digits fuel n ≡ n ∷ []
unfolding digits
digits-one zero n h = refl
digits-one (suc fuel) n h = rw (lt→ltb n 256 h, digits)

digits-more : (fuel n : ℕ) → 256 ≤ n → digits (suc fuel) n ≡ n % 256 ∷ digits fuel (n / 256)
unfolding digits
digits-more fuel n h = rw (not_small n h, digits)

pub from_bytes-digits : (fuel n : ℕ) → from_bytes (digits fuel n) ≡ n
unfolding from_bytes digits
from_bytes-digits zero n = omega arith
from_bytes-digits (suc fuel) n = elim (dec_lt n 256) [
  | yes h ↦ rw (digits-one (suc fuel) n h) (omega arith)
  | no h ↦
      rw (digits-more fuel n (omega (arith, h)))
        (omega (arith, from_bytes-digits fuel (n / 256), mod-add-div n 256))
]

pub from_bytes-padded : (bs : Bytes) (k : ℕ) → from_bytes (bs ++ replicate k 0) ≡ from_bytes bs
unfolding from_bytes
from_bytes-padded [] zero = refl
from_bytes-padded [] (suc k) = omega (arith, from_bytes-padded [] k)
from_bytes-padded (b ∷ bs) k = rw (from_bytes-padded bs k)

pub digits-short : (fuel n k : ℕ) → n < 256 ^ suc k → length (digits fuel n) ≤ suc k
unfolding digits
digits-short zero n k h = omega arith
digits-short (suc fuel) n zero h = rw (digits-one (suc fuel) n h) (omega arith)
digits-short (suc fuel) n (suc k) h = elim (dec_lt n 256) [
  | yes h' ↦ rw (digits-one (suc fuel) n h') (omega arith)
  | no h' ↦ rw (digits-more fuel n (omega (arith, h'))) (
      omega (
        arith,
        digits-short fuel (n / 256) k (omega (arith, h, pow-suc 256 (suc k), mod-add-div n 256)),
      ))
]

pub from_bytes-bounded : (bs : Bytes) → AreBytes bs → from_bytes bs < 256 ^ length bs
unfolding from_bytes
from_bytes-bounded [] h = omega arith
from_bytes-bounded (b ∷ bs) h =
    omega (arith, h.0, from_bytes-bounded bs h.1, pow-suc 256 (length bs))

from_bytes_zero : (bs : Bytes) → from_bytes bs ≡ 0 → replicate (length bs) 0 ≡ bs
unfolding from_bytes
from_bytes_zero [] e = refl
from_bytes_zero (b ∷ bs) e =
    let here : 0 ≡ b = omega (arith, e) in rw (from_bytes_zero bs (omega (arith, e)), here)

from_bytes_positive : (bs : Bytes) → 0 < from_bytes bs → 0 < length bs
unfolding from_bytes
from_bytes_positive [] h = absurd (omega (arith, h))
from_bytes_positive (b ∷ bs) h = omega arith

pub digits-stripped :
    (fuel : ℕ) (bs : Bytes)
    → AreBytes bs
    → 0 < length bs
    → from_bytes bs ≤ fuel
    → (k : ℕ) × (digits fuel (from_bytes bs) ++ replicate k 0 ≡ bs)
unfolding from_bytes
digits-stripped fuel [] h some_bytes enough = absurd (omega (arith, some_bytes))
digits-stripped zero (b ∷ bs) h some_bytes enough =
    let here : b + 256 * from_bytes bs ≡ b = omega (arith, enough) in
    (length bs, rw (here, digits-one zero b h.0, from_bytes_zero bs (omega (arith, enough))))
digits-stripped (suc fuel) (b ∷ bs) h some_bytes enough = elim (dec_lt 0 (from_bytes bs)) [
  | yes more ↦
      let (k, e) =
        digits-stripped fuel bs h.1 (from_bytes_positive bs more) (omega (arith, enough, more)) in
      let byte : (b + 256 * from_bytes bs) % 256 ≡ b =
        add-mul-mod_self_left b 256 (from_bytes bs) ∙ mod-eq_of_lt h.0 in
      let rest : (b + 256 * from_bytes bs) / 256 ≡ from_bytes bs =
        add-mul-div_left b (from_bytes bs) (omega arith)
        ∙ ap (λ (x : ℕ). x + from_bytes bs) (div-eq_of_lt h.0)
        ∙ omega arith in
      (
        k,
        rw (digits-more fuel (b + 256 * from_bytes bs) (omega (arith, more)), byte, rest)
            (ap (◌∷◌ b) e),
      )
  | no none_left ↦
      let here : b + 256 * from_bytes bs ≡ b = omega (arith, none_left) in
      (
        length bs,
        rw (here, digits-one (suc fuel) b h.0, from_bytes_zero bs (omega (arith, none_left))),
      )
]

pub length-to_le_bytes : (n x : ℕ) → length (to_le_bytes n x) ≡ n
unfolding to_le_bytes
length-to_le_bytes zero x = refl
length-to_le_bytes (suc n) x = ap suc (length-to_le_bytes n (x / 256))

pub from_bytes-to_le_bytes : (n x : ℕ) → x < 256 ^ n → from_bytes (to_le_bytes n x) ≡ x
unfolding from_bytes to_le_bytes
from_bytes-to_le_bytes zero x h = omega (arith, h)
from_bytes-to_le_bytes (suc n) x h = omega (
  arith,
  mod-add-div x 256,
  from_bytes-to_le_bytes n (x / 256) (omega (arith, h, pow-suc 256 n, mod-add-div x 256)),
)
