-- ===== src/Relay/SchemeTests.antt =====
-- A run of `get_private_key` of aimless-onions/src/bin/relay.rs with the keys of
-- aimless-onions/src/hibe.rs.
use aimless_onions.Prelude.{map, none, replicate, arith, ℕ, ◌≡◌, refl, ap, Option, List, [], ◌∷◌}
use aimless_onions.Outcome.{Outcome, ok, ◌>>=◌}
use aimless_onions.NodeName.{number, path_bits}
use aimless_onions.Sample.{sample}
use aimless_onions.Relay.{Keygen, LiveAuthority, get_private_key}
use aimless_onions.Crypto.{Crypto}
use aimless_onions.NodeName.Matrix.{identity_matrix_lem}
use aimless_onions.Hibe.{PrivateKey, Products, CachedBbgKeygen, generate, insert_levels}
use aimless_onions.Hibe.Scheme.{key_of}
use aimless_onions.Hibe.Tests.{numbers, numbers-IsCurve, deep_key}
use aimless_onions.Relay.Derivation.{
  cached_keygen, cached_keygen-IsKeygen, KeyFor, IsCache, made_cache, get_private_key-scheme,
}
use aimless_onions.Relay.Keys.{IsKeygen, IsAnswer}

-- Keys of the scheme over numbers; hibe's digits are hashed to themselves, and 7 is always drawn.
abbrev scheme_crypto : Crypto
scheme_crypto = record sample { PrivateKey = PrivateKey numbers; decrypt = λ pk sk bytes. none }

abbrev draw_seven : ℕ → ℕ × ℕ
draw_seven rng = (7, rng)

abbrev scheme_keygen : Keygen (PrivateKey numbers) ℕ
scheme_keygen =
    cached_keygen scheme_crypto numbers numbers-IsCurve draw_seven (λ d. d) (λ k. k) (λ k. k)
      (λ k. refl)

-- The generator with the products of the matrix.
abbrev deep_products : Products numbers
deep_products = insert_levels numbers 0 (replicate 32 2) (replicate 32 (0 ∷ 1 ∷ [])) []

abbrev deep : CachedBbgKeygen numbers
deep = record { max_depth = 32; products = deep_products; public_key = deep_key }

deep_made :
    made_cache scheme_crypto numbers numbers-IsCurve draw_seven
      (λ d. d)
      (λ k. k)
      (λ k. k)
      (λ k. refl)
      deep_key
      100
    ≡ ok deep
unfolding generate
deep_made =
    ap (λ (m : Outcome (List (List ℕ))). m >>= generate numbers 32 deep_key)
      (identity_matrix_lem (λ (d : ℕ). d))

abbrev left_key : PrivateKey numbers
left_key =
    key_of numbers numbers-IsCurve deep_key 100 4
      (map (λ (d : ℕ). d) (path_bits (record { path = 0; len = 1 })))

abbrev scheme_left : LiveAuthority scheme_crypto scheme_keygen
scheme_left = record {
  config = record { address = []; cert = [] };
  used_key = 1 ∷ [];
  public_key = 11;
  received_keys = (record { path = 0; len = 1 }, (deep, left_key)) ∷ [];
}

abbrev scheme_IsKeygen :
    IsKeygen scheme_crypto scheme_keygen
      (KeyFor scheme_crypto numbers numbers-IsCurve draw_seven
        (λ d. d)
        (λ k. k)
        (λ k. k)
        (λ k. refl)
        deep_key
        100)
      (IsCache scheme_crypto numbers numbers-IsCurve draw_seven
        (λ d. d)
        (λ k. k)
        (λ k. k)
        (λ k. refl)
        deep_key
        100)
scheme_IsKeygen =
    cached_keygen-IsKeygen scheme_crypto numbers numbers-IsCurve draw_seven (λ d. d) (λ k. k)
      (λ k. k) (λ k. refl) deep_key 100

get_private_key-scheme_example :
    (answer : Option (PrivateKey numbers)) × (rng' : ℕ) × (get_private_key scheme_crypto
        scheme_keygen 0 scheme_left 5
      ≡ ok (answer, rng'))
    × IsAnswer scheme_crypto scheme_keygen
        (KeyFor scheme_crypto numbers numbers-IsCurve draw_seven
          (λ d. d)
          (λ k. k)
          (λ k. k)
          (λ k. refl)
          deep_key
          100)
        (IsCache scheme_crypto numbers numbers-IsCurve draw_seven
          (λ d. d)
          (λ k. k)
          (λ k. k)
          (λ k. refl)
          deep_key
          100)
        scheme_IsKeygen
        (number 5)
        scheme_left.received_keys
        answer
get_private_key-scheme_example =
    get_private_key-scheme scheme_crypto numbers numbers-IsCurve draw_seven (λ d. d) (λ k. k)
      (λ k. k) (λ k. refl) deep_key 100 0 scheme_left 5 (omega arith) ((deep_made, (4, refl)), tt)
