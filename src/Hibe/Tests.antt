-- ===== src/Hibe/Tests.antt =====
-- Runs of the functions of aimless-onions/src/hibe.rs, with numbers for the groups.
use aimless_onions.Prelude.{ℕ, ◌+◌, ◌*◌, ◌≡◌, refl, replicate, arith, [], ◌∷◌}
use aimless_onions.Outcome.{ok, ◌>>=◌}
use aimless_onions.Wire.{bytes_eq}
use native.Mathlib.Nat.{add-mul, mul_right_comm, mul-add}
use aimless_onions.Hibe.{
  Curve, IsCurve, PublicKey, CachedBbgKeygen, generate, generate_key, add_products, sum_products,
  derive_key, product, get_product, insert_product, insert_level, insert_levels,
}
use aimless_onions.Hibe.Scheme.{key_of}
use aimless_onions.Hibe.Keys.{scheme_key, generate_key_lem, derive_key_lem}

abbrev pub numbers : Curve
numbers = record {
  Scalar = ℕ;
  G1 = ℕ;
  G2 = ℕ;
  add_scalar = λ a b. a + b;
  add1 = λ a b. a + b;
  mul1 = λ a s. a * s;
  zero2 = 0;
  add2 = λ a b. a + b;
  mul2 = λ a s. a * s;
  to_raw = λ s. s ∷ [];
}

pub numbers-IsCurve : IsCurve numbers
numbers-IsCurve = record {
  zero-add = λ a. omega arith;
  add_assoc = λ x y z. omega arith;
  add_comm = λ x y. omega arith;
  mul-add = λ x y s. add-mul x y s;
  mul-add_scalar = λ x s t. mul-add x s t;
  mul_comm = λ x s t. mul_right_comm x s t;
  mul1-add_scalar = λ x s t. mul-add x s t;
  raw_injective = λ s t e. cc;
}

abbrev small_key : PublicKey numbers
small_key = record { generator = 3; offset = 5; elements = 2 ∷ 7 ∷ 11 ∷ [] }

abbrev small : CachedBbgKeygen numbers
small = record {
  max_depth = 3;
  products = ((0, 1 ∷ []), 2) ∷ ((1, 2 ∷ []), 14) ∷ [];
  public_key = small_key;
}

small_made : generate numbers 3 small_key ((1 ∷ []) ∷ (2 ∷ []) ∷ [] ∷ []) ≡ ok small
unfolding generate insert_levels insert_level insert_product
small_made = refl

-- The sum of the products is 1 * 2 + 2 * 7 + 3 * 11 = 49.
three_digits :
    generate_key numbers small 10 100 (1 ∷ 2 ∷ 3 ∷ [])
    ≡ ok (record { main = 640; blind = 30; rest = [] })
unfolding generate_key sum_products product get_product bytes_eq
three_digits = refl

-- From the key of the first two digits, with 4 and then 6 as random scalars.
derived_digit :
    (generate_key numbers small 4 100 (1 ∷ 2 ∷ []) >>= λ k.
    derive_key numbers small 6 k (1 ∷ 2 ∷ []) 3)
    ≡ ok (record { main = 640; blind = 30; rest = [] })
unfolding generate_key derive_key add_products sum_products product get_product bytes_eq
derived_digit = refl

generate_key_lem_example :
    generate_key numbers small 10 100 (1 ∷ 2 ∷ 3 ∷ 4 ∷ [])
    ≡ scheme_key numbers numbers-IsCurve 3 small_key 100 10 (1 ∷ 2 ∷ 3 ∷ 4 ∷ [])
generate_key_lem_example =
    generate_key_lem numbers numbers-IsCurve 3 small_key ((1 ∷ []) ∷ (2 ∷ []) ∷ [] ∷ []) small 10
      100 (1 ∷ 2 ∷ 3 ∷ 4 ∷ []) (omega arith) (omega arith) small_made

derive_key_lem_example :
    derive_key numbers small 6
      (key_of numbers numbers-IsCurve small_key 100 4 (1 ∷ 2 ∷ []))
      (1 ∷ 2 ∷ [])
      3
    ≡ ok (key_of numbers numbers-IsCurve small_key 100 10 (1 ∷ 2 ∷ 3 ∷ []))
derive_key_lem_example =
    derive_key_lem numbers numbers-IsCurve 3 small_key ((1 ∷ []) ∷ (2 ∷ []) ∷ [] ∷ []) small 4 6 100
      (1 ∷ 2 ∷ []) 3 (omega arith) (omega arith) small_made (omega arith)

-- A key for 32 digits.
abbrev pub deep_key : PublicKey numbers
deep_key = record { generator = 3; offset = 5; elements = replicate 32 2 }
