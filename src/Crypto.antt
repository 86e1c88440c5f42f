-- ===== src/Crypto.antt =====
-- What aimless-onions/src/format.rs takes from other crates: the stream cipher (aes, ctr), the MAC
-- (hmac, sha3), identity-based encryption (hohibe), secret sharing with its big integers
-- (shamir_secret_sharing) and the serialisation (bincode). These are parameters of the model; the
-- record IsSound states the documented behaviour that the format relies on.
use aimless_onions.Prelude.{
  ℕ, ◌+◌, ◌*◌, ◌≤◌, ◌<◌, ◌^◌, ◌≡◌, List, [], ◌∷◌, ◌++◌, Option, some, length, replicate, take, All,
  suc,
}
use aimless_onions.NodeName.{NodeName}
use aimless_onions.Wire.{Bytes, Share, HopHeader, share_size, int_size, tag_size, prime}

-- `enumerate` with numbers from `i` on.
abbrev pub enumerate_from {ℓ} : {A : Type ℓ} → ℕ → List A → List (ℕ × A)
enumerate_from i [] = []
enumerate_from i (x ∷ xs) = (i, x) ∷ enumerate_from (i + 1) xs

pub record Crypto : Type 1 where
  pub Rng : Type 0
  pub PublicKey : Type 0
  pub PrivateKey : Type 0
  -- `rng.gen::<[u8; 16]>()`
  pub gen_nonce : Rng → Bytes × Rng
  -- A cipher with this key, at this position of its key stream, is applied to the bytes.
  pub apply_keystream : (key : Bytes) (position : ℕ) → Bytes → Bytes
  -- The MAC under a key of the bytes that were fed in.
  pub hmac : (key : Bytes) → Bytes → Bytes
  -- `HybridKem::encrypt` and `decrypt`; `none` is an `Err`.
  pub encrypt : Rng → PublicKey → NodeName → Bytes → Option Bytes × Rng
  pub decrypt : PublicKey → PrivateKey → Bytes → Option Bytes
  -- `BigInt::from_bytes_le(Sign::Plus, _)` and `to_bytes_le().1`
  pub from_bytes_le : Bytes → ℕ
  pub to_bytes_le : ℕ → Bytes
  -- `ShamirSecretSharing { threshold, share_amount, prime }`: `split` draws its coefficients from
  -- the state that it is given; `none` is a panic of `recover`.
  pub split : Rng → (threshold share_amount prime : ℕ) → ℕ → List (ℕ × ℕ)
  pub recover : (threshold share_amount prime : ℕ) → List (ℕ × ℕ) → Option ℕ
  -- `bincode::serialize` and `deserialize` of a hop's header; `none` is an `Err`.
  pub serialize : HopHeader → Bytes
  pub deserialize : Bytes → Option HopHeader

-- Numbers that are bytes.
abbrev pub AreBytes : Bytes → Type 0
AreBytes = All (λ b. b < 256)

-- The documented behaviour of a stream cipher that adds a key stream to the bytes.
pub record IsStreamCipher (c : Crypto) : Type 0 where
  pub keeps_length :
      (k : Bytes) (p : ℕ) (xs : Bytes) → length (c.apply_keystream k p xs) ≡ length xs
  pub in_order :
      (k : Bytes) (p : ℕ) (xs ys : Bytes)
      → c.apply_keystream k p (xs ++ ys)
        ≡ c.apply_keystream k p xs ++ c.apply_keystream k (p + length xs) ys
  pub undoes_itself :
      (k : Bytes) (p : ℕ) (xs : Bytes) → c.apply_keystream k p (c.apply_keystream k p xs) ≡ xs

-- Numbers in little endian: the bytes of a number have no zeros at the end (0 has one byte), and
-- zeros at the end do not count.
pub record AreLittleEndian (c : Crypto) : Type 0 where
  pub from-to : (n : ℕ) → c.from_bytes_le (c.to_bytes_le n) ≡ n
  pub padded : (bs : Bytes) (k : ℕ) → c.from_bytes_le (bs ++ replicate k 0) ≡ c.from_bytes_le bs
  pub shortest : (n k : ℕ) → 0 < k → n < 256 ^ k → length (c.to_bytes_le n) ≤ k
  pub bounded : (bs : Bytes) → AreBytes bs → c.from_bytes_le bs < 256 ^ length bs
  pub stripped :
      (bs : Bytes)
      → AreBytes bs
      → 0 < length bs
      → (k : ℕ) × (c.to_bytes_le (c.from_bytes_le bs) ++ replicate k 0 ≡ bs)

-- Secret sharing: as many shares as asked for, numbered from 1, and any secret below the prime is
-- recovered from the first of them, as many as the threshold.
pub record IsSecretSharing (c : Crypto) : Type 0 where
  pub numbered :
      (r : c.Rng) (t s : ℕ)
      → 0 < t
      → (values : List ℕ) × (c.split r t (suc t) prime s ≡ enumerate_from 1 values)
        × (length values ≡ suc t)
        × All (λ v. v < prime) values
  pub recovers :
      (r : c.Rng) (t s : ℕ) (values : List ℕ)
      → 0 < t
      → s < prime
      → c.split r t (suc t) prime s ≡ enumerate_from 1 values
      → c.recover t (suc t) prime (enumerate_from 1 (take t values)) ≡ some s

-- Identity-based encryption: a message of `int_size` bytes gets a ciphertext of `share_size` bytes,
-- and a key that belongs to the node decrypts it. `HasKey` says which keys belong to a node.
pub record IsIdentityBased (c : Crypto) (HasKey : c.PublicKey → NodeName → c.PrivateKey → Type 0)
    : Type 0 where
  pub encrypts :
      (r : c.Rng) (pk : c.PublicKey) (node : NodeName) (m : Bytes)
      → length m ≡ int_size
      → (e : Bytes) × ((c.encrypt r pk node m).0 ≡ some e) × (length e ≡ share_size)
  pub decrypts :
      (r : c.Rng) (pk : c.PublicKey) (node : NodeName) (sk : c.PrivateKey) (m e : Bytes)
      → HasKey pk node sk
      → (c.encrypt r pk node m).0 ≡ some e
      → c.decrypt pk sk e ≡ some m

-- What the fixed-size integers and arrays of the header can hold.
pub record IsHopHeader (h : HopHeader) : Type 0 where
  pub delay_fits : h.hop.delay < 2 ^ 32
  pub tag_fits : length h.hop.tag ≡ tag_size
  pub identity_fits : h.identity < 2 ^ 64
  pub shares_fit : All (λ s. length s.bytes ≡ share_size) h.shares

-- The serialisation writes the fields in order, the tag as it is, and reads back what it wrote.
pub record IsSerialisation (c : Crypto) : Type 0 where
  pub prefix : ℕ → Bytes
  pub suffix : ℕ → List Share → Bytes
  pub layout :
      (h : HopHeader)
      → c.serialize h ≡ prefix h.hop.delay ++ (h.hop.tag ++ suffix h.identity h.shares)
  pub prefix_length : (d : ℕ) → length (prefix d) ≡ 4
  pub suffix_length :
      (i : ℕ) (ss : List Share)
      → All (λ s. length s.bytes ≡ share_size) ss
      → length (suffix i ss) ≡ 8 + 8 + length ss * share_size
  pub reads_back : (h : HopHeader) → IsHopHeader h → c.deserialize (c.serialize h) ≡ some h

-- A MAC is a tag of 32 bytes.
pub record IsSound (c : Crypto) (HasKey : c.PublicKey → NodeName → c.PrivateKey → Type 0)
    : Type 0 where
  pub cipher : IsStreamCipher c
  pub numbers : AreLittleEndian c
  pub sharing : IsSecretSharing c
  pub identity_based : IsIdentityBased c HasKey
  pub serialisation : IsSerialisation c
  pub tag_length : (k m : Bytes) → length (c.hmac k m) ≡ tag_size
  pub nonce_length : (r : c.Rng) → length (c.gen_nonce r).0 ≡ 16
  pub nonce_bytes : (r : c.Rng) → AreBytes (c.gen_nonce r).0
