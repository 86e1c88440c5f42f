-- ===== src/NodeName/Matrix.antt =====
-- The matrix of the digits of aimless-onions/src/nodename.rs, for which products are computed.
use aimless_onions.Prelude.{ℕ, ◌≡◌, refl, some, [], ◌∷◌, map, replicate, u64_max}
use aimless_onions.Outcome.{ok}
use aimless_onions.NodeName.{
  number, level_bits, path_bits, map_identity, zip_pairs, identity_matrix,
}
use aimless_onions.NodeName.Canonical.{number_lem}

first_digits : path_bits (number 0) ≡ replicate 32 0
unfolding path_bits level_bits
first_digits = rw (number_lem 0) refl

last_digits : path_bits (number u64_max) ≡ replicate 32 1
unfolding path_bits level_bits
last_digits = rw (number_lem u64_max) refl

-- When the mapper hashes each digit by itself, the matrix has for each of the 32 levels the hashes
-- of both digits.
pub identity_matrix_lem :
    {A : Type 0} (hash : ℕ → A)
    → identity_matrix (λ ds. some (map hash ds)) ≡ ok (replicate 32 (hash 0 ∷ hash 1 ∷ []))
unfolding identity_matrix map_identity zip_pairs
identity_matrix_lem hash = rw (first_digits, last_digits) refl
