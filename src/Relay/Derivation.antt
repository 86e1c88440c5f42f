-- ===== src/Relay/Derivation.antt =====
-- The key derivation of a relay of aimless-onions/src/bin/relay.rs when it is made with the cached
-- generators of src/hibe.rs.
use aimless_onions.Prelude.{
  ℕ, ◌≤◌, ◌<◌, ◌≡◌, refl, ap, sym, ◌∙◌, arith, Option, none, some, List, [], ◌∷◌, ◌++◌, length,
  length-map, replicate, All, map, bit_and,
}
use aimless_onions.Outcome.{Outcome, ok, err, panic, ◌>>=◌}
use aimless_onions.NodeName.{NodeName, number, path_bits, identity_matrix}
use aimless_onions.NodeName.Matrix.{identity_matrix_lem}
use aimless_onions.NodeName.Digits.{length-path_bits, path_bits-child}
use aimless_onions.Crypto.{Crypto}
use aimless_onions.Hibe.{
  Curve, IsCurve, PublicKey, PrivateKey, CachedBbgKeygen, generate, derive_key,
}
use aimless_onions.Hibe.Cache.{generate-made}
use aimless_onions.Hibe.Scheme.{key_of, IsKeygenState}
use aimless_onions.Hibe.Keys.{generate-IsKeygenState, derive_key-key_of}
use aimless_onions.Relay.{Keygen, LiveAuthority, split_last, get_private_key}
use aimless_onions.Relay.Keys.{IsKeygen, IsAnswer, AreKeys, get_private_key-IsAnswer}

-- What is left of a result for `unwrap`, to which an `Err` is like a panic.
abbrev pub unwrapped : {A B : Type 0} → (A → B) → Outcome A → Option B
unwrapped f (ok a) = some (f a)
unwrapped f (err e) = none
unwrapped f panic = none

some_injective : {A : Type 0} {a b : A} → some a ≡ some b → a ≡ b
some_injective e = cc

split_last-append : (ds : List ℕ) (d : ℕ) → split_last (ds ++ d ∷ []) ≡ some (d, ds)
unfolding split_last
split_last-append [] d = refl
split_last-append (e ∷ ds) d = rw (split_last-append ds d)

map_append : {A B : Type 0} (f : A → B) (xs ys : List A) → map f (xs ++ ys) ≡ map f xs ++ map f ys
map_append f [] ys = refl
map_append f (x ∷ xs) ys = ap (◌∷◌ (f x)) (map_append f xs ys)

-- The conversions between the keys of hohibe's `kem` and `hibe` are `into` and `from`. `random` draws
-- a scalar, and `hash` makes one of a digit.
module _ (crypto : Crypto) (c : Curve) (curve : IsCurve c)
    (random : crypto.Rng → c.Scalar × crypto.Rng) (hash : ℕ → c.Scalar)
    (into : crypto.PrivateKey → PrivateKey c) (from : PrivateKey c → crypto.PrivateKey)
    (into-from : (k : PrivateKey c) → into (from k) ≡ k) where
  open c use {Scalar, G2, add_scalar}

  abbrev pub cached_keygen : Keygen crypto.PrivateKey crypto.Rng
  cached_keygen = record {
    Cache = CachedBbgKeygen c;
    derive_key = λ rng cache key digits child. (
      unwrapped from (derive_key c cache (random rng).0 (into key) (map hash digits) (hash child)),
      (random rng).1,
    );
  }

  module _ (pk : PublicKey c) (master : G2) where
    -- A key of the scheme for the digits of a name, made with some scalar.
    abbrev pub KeyFor : crypto.PrivateKey → NodeName → Type 0
    KeyFor key n = (r : Scalar) × (into key ≡ key_of c curve pk master r (map hash (path_bits n)))

    -- A generator for the public key and names of 32 digits.
    abbrev pub IsCache : CachedBbgKeygen c → Type 0
    IsCache g = IsKeygenState c curve g × (g.public_key ≡ pk) × (g.max_depth ≡ 32)

    -- The derivation of the cached generators keeps to the scheme.
    pub cached_keygen-IsKeygen : IsKeygen crypto cached_keygen KeyFor IsCache
    cached_keygen-IsKeygen = record {
      derives = λ rng cache key parent child digits deeper within above parts cached has.
          let (state, same_pk, depth) = cached in
          let (r, is) = has in
          let t = (random rng).0 in
          let bits = path_bits-child parent child deeper within above in
          let split : digits ≡ (bit_and child.path 1, path_bits parent) = some_injective (
            sym parts
            ∙ ap split_last bits
            ∙ split_last-append (path_bits parent) (bit_and child.path 1)) in
          let d : ℕ = bit_and child.path 1 in
          let ss : List Scalar = map hash (path_bits parent) in
          let key' : PrivateKey c =
            key_of c curve cache.public_key master (add_scalar r t) (ss ++ hash d ∷ []) in
          let is' : into key ≡ key_of c curve cache.public_key master r ss =
            is ∙ ap (λ (q : PublicKey c). key_of c curve q master r ss) (sym same_pk) in
          let shorter : length ss < cache.max_depth = omega (
            arith,
            depth,
            deeper,
            within,
            length-map (path_bits parent) hash,
            length-path_bits parent,
          ) in
          let derived : derive_key c cache t (into key) (map hash digits.1) (hash digits.0)
              ≡ ok key' =
            (λ i. derive_key c cache t (is' i) (map hash (split i).1) (hash (split i).0))
            ∙ derive_key-key_of c curve cache r t master ss (hash d) state shorter in
          let names : ss ++ hash d ∷ [] ≡ map hash (path_bits child) =
            sym (ap (map hash) bits ∙ map_append hash (path_bits parent) (d ∷ [])) in
          let for_child : key'
              ≡ key_of c curve pk master (add_scalar r t) (map hash (path_bits child)) =
            λ i. key_of c curve (same_pk i) master (add_scalar r t) (names i) in
          (from key', ap (unwrapped from) derived, (add_scalar r t, into-from key' ∙ for_child));
    }

    -- The generator that a turn of the relay's loop makes for the public key, with the products of
    -- the matrix of digits.
    abbrev pub made_cache : Outcome (CachedBbgKeygen c)
    made_cache = identity_matrix (λ ds. some (map hash ds)) >>= generate c 32 pk

    made_cache-IsCache :
        (g : CachedBbgKeygen c) → 32 ≤ length pk.elements → made_cache ≡ ok g → IsCache g
    made_cache-IsCache g deep made =
        let matrix : List (List Scalar) = replicate 32 (hash 0 ∷ hash 1 ∷ []) in
        let generated : generate c 32 pk matrix ≡ ok g =
          sym (
            ap (λ (m : Outcome (List (List Scalar))). m >>= generate c 32 pk)
              (identity_matrix_lem hash))
          ∙ made in
        let (depth, same_pk, cached) = generate-made c curve 32 pk matrix g generated in
        (generate-IsKeygenState c curve 32 pk matrix g deep (omega arith) generated, same_pk, depth)

    -- What a relay received: keys of the scheme for the digits of their names, each with the generator
    -- that is made for the public key.
    abbrev pub AreReceived : List (NodeName × (CachedBbgKeygen c × crypto.PrivateKey)) → Type 0
    AreReceived = All (λ (e : NodeName × (CachedBbgKeygen c × crypto.PrivateKey)).
        (made_cache ≡ ok e.1.0) × KeyFor e.1.1 e.0)

    received-AreKeys :
        (received : List (NodeName × (CachedBbgKeygen c × crypto.PrivateKey)))
        → 32 ≤ length pk.elements
        → AreReceived received
        → AreKeys crypto cached_keygen KeyFor IsCache cached_keygen-IsKeygen received
    received-AreKeys [] deep good = tt
    received-AreKeys ((name, (g, key)) ∷ rest) deep good =
        ((made_cache-IsCache g deep good.0.0, good.0.1), received-AreKeys rest deep good.1)

    -- With groups as IsCurve describes them, conversions of keys that undo each other, and a public
    -- key for 32 digits or more: when the received keys are keys of the scheme for the digits of their
    -- names, with the generators that are made for the public key, get_private_key does not panic for
    -- any identity. It returns a key of the scheme for the digits of the identity's leaf if a received
    -- name contains it, and none if no name does.
    pub get_private_key-scheme :
        (rng : crypto.Rng) (a : LiveAuthority crypto cached_keygen) (identity : ℕ)
        → 32 ≤ length pk.elements
        → AreReceived a.received_keys
        → (answer : Option crypto.PrivateKey) × (rng' : crypto.Rng) × (get_private_key crypto
              cached_keygen rng a identity
            ≡ ok (answer, rng'))
          × IsAnswer crypto cached_keygen KeyFor IsCache cached_keygen-IsKeygen
              (number identity)
              a.received_keys
              answer
    get_private_key-scheme rng a identity deep good =
        get_private_key-IsAnswer crypto cached_keygen KeyFor IsCache cached_keygen-IsKeygen rng a
          identity (received-AreKeys a.received_keys deep good)
