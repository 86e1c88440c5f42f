-- ===== src/Onion/Shares.antt =====
-- The shares of a nonce, from `Share::wrap` and `Share::unwrap` of aimless-onions/src/format.rs.
use aimless_onions.Prelude.{
  ℕ, suc, ◌+◌, ◌-◌, ◌≤◌, ◌<◌, ◌≡◌, refl, ap, arith, List, [], ◌∷◌, ◌++◌, length, take, All, some,
  le→leb, length-append, length-replicate, ==_iff,
}
use aimless_onions.Outcome.{ok}
use aimless_onions.NodeName.{NodeName, number}
use aimless_onions.Wire.{Bytes, Share, prime, int_size, share_size}
use aimless_onions.Crypto.{Crypto, IsSound, enumerate_from}
use aimless_onions.Onion.{wrap_share, unwrap_share, wrap_shares, unwrap_shares, zeros}

module _ (c : Crypto) (HasKey : c.PublicKey → NodeName → c.PrivateKey → Type 0)
    (sound : IsSound c HasKey) where
  open c use {Rng, PublicKey, PrivateKey, to_bytes_le, from_bytes_le, encrypt, decrypt}
  open sound use {numbers, identity_based}

  -- One private key for each public key, for the leaf of the identity.
  abbrev pub HasKeys : ℕ → List PublicKey → List PrivateKey → Type 0
  HasKeys identity [] [] = Unit {0}
  HasKeys identity [] (sk ∷ sks) = ⊥
  HasKeys identity (pk ∷ pks) [] = ⊥
  HasKeys identity (pk ∷ pks) (sk ∷ sks) = HasKey pk (number identity) sk × HasKeys identity pks sks

  -- A share that was made and that the right key turns back into the number.
  pub record IsShareOf (identity : ℕ) (pk : PublicKey) (value : ℕ) (s : Share) : Type 0 where
    pub size : length s.bytes ≡ share_size
    pub opens :
        (sk : PrivateKey) → HasKey pk (number identity) sk → unwrap_share c s pk sk ≡ ok value

  abbrev padded : ℕ → Bytes
  padded value = to_bytes_le value ++ zeros (int_size - length (to_bytes_le value))

  wrap_share_steps :
      (rng : Rng) (identity : ℕ) (pk : PublicKey) (value : ℕ) (e : Bytes)
      → length (to_bytes_le value) ≤ int_size
      → (encrypt rng pk (number identity) (padded value)).0 ≡ some e
      → length e ≡ share_size
      → wrap_share c rng identity pk value
        ≡ ok (record { bytes = e }, (encrypt rng pk (number identity) (padded value)).1)
  unfolding wrap_share
  wrap_share_steps rng identity pk value e short made size =
      rw (le→leb (length (to_bytes_le value)) int_size short, made)
        (rw ((==_iff (length e) share_size).1 size))

  length-padded :
      (value : ℕ)
      → value < prime
      → (length (to_bytes_le value) ≤ int_size) × (length (padded value) ≡ int_size)
  length-padded value small =
      let encoded = to_bytes_le value in
      let short : length encoded ≤ int_size =
        numbers.shortest value 20 (omega arith) (omega arith) in
      (
        short,
        omega (
          arith,
          length-append encoded (zeros (int_size - length encoded)),
          length-replicate {A = ℕ} (int_size - length encoded) 0,
        ),
      )

  pub wrap_share-IsShareOf :
      (rng : Rng) (identity : ℕ) (pk : PublicKey) (value : ℕ)
      → value < prime
      → (s : Share) × (rng' : Rng) × (wrap_share c rng identity pk value ≡ ok (s, rng'))
        × IsShareOf identity pk value s
  unfolding unwrap_share
  wrap_share-IsShareOf rng identity pk value small =
      let (short, full) = length-padded value small in
      let (e, made, size) = identity_based.encrypts rng pk (number identity) (padded value) full in
      (
        record { bytes = e },
        (encrypt rng pk (number identity) (padded value)).1,
        wrap_share_steps rng identity pk value e short made size,
        record {
          size = size;
          opens = λ sk has. rw (
            identity_based.decrypts rng pk (number identity) sk (padded value) e has made,
            numbers.padded (to_bytes_le value) (int_size - length (to_bytes_le value)),
            numbers.from-to value,
          );
        },
      )

  -- The shares of a list of values, one for each public key.
  pub record AreSharesOf (identity : ℕ) (pks : List PublicKey) (values : List ℕ) (ss : List Share)
      : Type 0 where
    pub count : length ss ≡ length pks
    pub sizes : All (λ s. length s.bytes ≡ share_size) ss
    pub opens :
        (sks : List PrivateKey)
        → HasKeys identity pks sks
        → unwrap_shares c ss pks sks ≡ ok (take (length pks) values)

  opens_all :
      (identity : ℕ) (pk : PublicKey) (pks : List PublicKey) (v : ℕ) (vs : List ℕ) (s : Share)
      (ss : List Share)
      → IsShareOf identity pk v s
      → AreSharesOf identity pks vs ss
      → (sks : List PrivateKey) → HasKeys identity (pk ∷ pks) sks
      → unwrap_shares c (s ∷ ss) (pk ∷ pks) sks ≡ ok (take (length (pk ∷ pks)) (v ∷ vs))
  unfolding unwrap_shares
  opens_all identity pk pks v vs s ss one rest [] has = absurd has
  opens_all identity pk pks v vs s ss one rest (sk ∷ sks) has =
      rw (one.opens sk has.0, rest.opens sks has.1)

  pub wrap_shares-AreSharesOf :
      (rng : Rng) (identity i : ℕ) (pks : List PublicKey) (values : List ℕ)
      → length pks ≤ length values
      → All (λ v. v < prime) values
      → (ss : List Share) × (rng' : Rng) × (wrap_shares c rng identity (enumerate_from i values) pks
          ≡ ok (ss, rng'))
        × AreSharesOf identity pks values ss
  unfolding wrap_shares unwrap_shares
  wrap_shares-AreSharesOf rng identity i [] [] enough small =
      ([], rng, refl, record { count = refl; sizes = tt; opens = λ sks has. refl })
  wrap_shares-AreSharesOf rng identity i [] (v ∷ vs) enough small =
      ([], rng, refl, record { count = refl; sizes = tt; opens = λ sks has. refl })
  wrap_shares-AreSharesOf rng identity i (pk ∷ pks) [] enough small = absurd (omega arith)
  wrap_shares-AreSharesOf rng identity i (pk ∷ pks) (v ∷ vs) enough small =
      let (s, r1, made, one) = wrap_share-IsShareOf rng identity pk v small.0 in
      let (ss, r2, rest_made, rest) =
        wrap_shares-AreSharesOf r1 identity (i + 1) pks vs (omega arith) small.1 in
      (
        s ∷ ss,
        r2,
        rw (made, rest_made),
        record {
          count = ap suc rest.count;
          sizes = (one.size, rest.sizes);
          opens = opens_all identity pk pks v vs s ss one rest;
        },
      )
