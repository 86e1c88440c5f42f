-- ===== src/Onion/Ready.antt =====
-- An onion that is ready for a layer of aimless-onions/src/format.rs, and what a layer is.
use aimless_onions.Prelude.{
  ℕ, ◌+◌, ◌-◌, ◌^◌, ◌<◌, ◌≡◌, ap, subst, arith, List, ◌++◌, length, length-append, length-replicate,
  All,
}
use aimless_onions.Outcome.{ok}
use aimless_onions.NodeName.{NodeName}
use aimless_onions.Wire.{Bytes, HopInfo, Onion, prime, share_size, per_hop_size}
use aimless_onions.Crypto.{Crypto, IsSound, AreBytes}
use aimless_onions.Onion.{zeros, unwrap, pad_nonce}
use aimless_onions.Onion.Shares.{HasKeys}

module _ (c : Crypto) (HasKey : c.PublicKey → NodeName → c.PrivateKey → Type 0)
    (sound : IsSound c HasKey) where
  open c use {
    Rng, PublicKey, PrivateKey, apply_keystream, hmac, to_bytes_le, from_bytes_le, serialize,
    deserialize,
  }
  open sound use {cipher, numbers, sharing, serialisation, tag_length}

  -- The number of a nonce has lost its zeros at the end; they are put back.
  pub pad_nonce-from :
      (nonce : Bytes)
      → length nonce ≡ 16
      → AreBytes nonce
      → pad_nonce c (to_bytes_le (from_bytes_le nonce)) ≡ nonce
  unfolding pad_nonce
  pad_nonce-from nonce l16 bytes =
      let (k, e) = numbers.stripped nonce bytes (omega arith) in
      let digits = to_bytes_le (from_bytes_le nonce) in
      let lost : 16 - length digits ≡ k =
        omega (arith, ap length e, length-append digits (zeros k), length-replicate {A = ℕ} k 0) in
      rw (lost, e)

  -- An onion of `wrap`, as far as it was made: `below` and zeros are hidden in its header under the
  -- key stream of the nonce, behind `front`.
  pub record IsReady (pks : List PublicKey) (nonce front below : Bytes) (o : Onion) : Type 0 where
    pub header_is :
        o.header
        ≡ front
          ++ apply_keystream nonce
              (per_hop_size (length pks) + length front)
              (below ++ zeros (per_hop_size (length pks)))
    pub count : length o.shares ≡ length pks
    pub sizes : All (λ s. length s.bytes ≡ share_size) o.shares
    pub identity_fits : o.identity < 2 ^ 64

  -- What one layer makes.
  pub record IsLayer (pks : List PublicKey) (identity delay : ℕ) (below : Bytes) (o layered : Onion)
      : Type 0 where
    pub front : Bytes
    pub header_is : layered.header ≡ front ++ below
    pub same_length : length layered.header ≡ length o.header
    pub identity_is : layered.identity ≡ identity
    pub count : length layered.shares ≡ length pks
    pub sizes : All (λ s. length s.bytes ≡ share_size) layered.shares
    pub unwraps :
        (sks : List PrivateKey)
        → HasKeys c HasKey sound identity pks sks
        → (hop : HopInfo) × (unwrap c layered pks sks ≡ ok (hop, o)) × (hop.delay ≡ delay)

  pub nonce_small :
      (nonce : Bytes) → length nonce ≡ 16 → AreBytes nonce → from_bytes_le nonce < prime
  nonce_small nonce l16 bytes =
      let bound : from_bytes_le nonce < 256 ^ 16 =
        subst (λ (n : ℕ). from_bytes_le nonce < 256 ^ n) l16 (numbers.bounded nonce bytes) in
      omega (arith, bound)
