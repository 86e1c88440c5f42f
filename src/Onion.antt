-- ===== src/Onion.antt =====
-- aimless-onions/src/format.rs: wrapping an onion in layers and unwrapping one layer.
-- The cryptography comes from the parameter `c`. A random number generator is a state that is
-- passed on; `split`, which the crate seeds by itself, reads the state without changing it.
pub mod Shares
pub mod Header
pub mod Ready
pub mod Layer
pub mod Sealing
pub mod Filler
pub mod Route
pub mod Path
pub mod Delivery
pub mod Refusal
pub mod Sizes
pub mod Tests
use aimless_onions.Prelude.{
  ℕ, zero, suc, ◌+◌, ◌-◌, ◌*◌, Bool, true, false, Option, some, none, List, [], ◌∷◌, ◌++◌, map,
  length, take, drop, replicate, leb, ◌==◌, if◌then◌else◌, not,
}
use mathlib.Core.List.{reverse}
use aimless_onions.Outcome.{
  Outcome, ok, err, panic, Error, mismatched_delays, mac_mismatch, decryption_failed,
  deserialization_failed, ◌>>=◌, or_panic, or_err, assert, ensure,
}
use aimless_onions.NodeName.{number}
use aimless_onions.Wire.{
  Bytes, Share, HopInfo, HopHeader, Onion, prime, int_size, share_size, tag_size,
  hop_macced_prefix_len, hop_info_size, per_hop_size, empty_share, bytes_eq, to_le_bytes,
}
use aimless_onions.Crypto.{Crypto, enumerate_from}

abbrev pub zeros : ℕ → Bytes
zeros n = replicate n 0

-- `&header[HOP_MACCED_PREFIX_LEN..HOP_MACCED_PREFIX_LEN + size_of::<Tag>()]`, read and written.
pub get_tag : Bytes → Bytes
get_tag header = take tag_size (drop hop_macced_prefix_len header)

pub set_tag : Bytes → Bytes → Bytes
set_tag header tag =
    take hop_macced_prefix_len header ++ (tag ++ drop (hop_macced_prefix_len + tag_size) header)

abbrev pub share_bytes : List Share → Bytes
share_bytes [] = []
share_bytes (s ∷ ss) = s.bytes ++ share_bytes ss

-- The bytes that `tag_onion` feeds to the MAC, which leave out those of the tag.
abbrev pub mac_input : ℕ → List Share → Bytes → Bytes → Bytes
mac_input identity shares header payload =
    to_le_bytes 8 identity
    ++ (to_le_bytes 8 (length shares)
        ++ (share_bytes shares
            ++ (take hop_macced_prefix_len header ++ (drop hop_info_size header ++ payload))))

pub fresh : ℕ → ℕ → Bytes → Onion
fresh num_authorities path_length content = record {
  identity = 0;
  shares = replicate num_authorities empty_share;
  header = zeros (path_length * per_hop_size num_authorities);
  payload = content;
}

module _ (c : Crypto) where
  open c use {
    Rng, PublicKey, PrivateKey, gen_nonce, apply_keystream, hmac, encrypt, decrypt, from_bytes_le,
    to_bytes_le, split, recover, serialize, deserialize,
  }

  -- Both slices of the header panic if it is too short.
  pub tag_onion : Bytes → ℕ → List Share → Bytes → Bytes → Outcome Bytes
  tag_onion key identity shares header payload =
      assert (leb hop_info_size (length header))
        (ok (hmac key (mac_input identity shares header payload)))

  -- `Share::wrap`: the number is padded with zeros and encrypted for the identity's leaf.
  pub wrap_share : Rng → ℕ → PublicKey → ℕ → Outcome (Share × Rng)
  wrap_share rng identity public_key share =
      let encoded = to_bytes_le share in
      assert (leb (length encoded) int_size) (do
        let padded = encoded ++ zeros (int_size - length encoded)
        let (encrypted, rng') = encrypt rng public_key (number identity) padded
        ciphertext ← or_panic encrypted
        assert (length ciphertext == share_size) (ok (record { bytes = ciphertext }, rng')))

  -- The shares in order, as long as there are public keys.
  pub wrap_shares : Rng → ℕ → List (ℕ × ℕ) → List PublicKey → Outcome (List Share × Rng)
  wrap_shares rng identity [] pks = ok ([], rng)
  wrap_shares rng identity (v ∷ vs) [] = ok ([], rng)
  wrap_shares rng identity ((i, v) ∷ vs) (pk ∷ pks) = do
    (share, rng') ← wrap_share rng identity pk v
    (rest, rng'') ← wrap_shares rng' identity vs pks
    ok (share ∷ rest, rng'')

  -- `Share::unwrap`
  pub unwrap_share : Share → PublicKey → PrivateKey → Outcome ℕ
  unwrap_share share public_key private_key = do
    decrypted ← or_err decryption_failed (decrypt public_key private_key share.bytes)
    ok (from_bytes_le decrypted)

  -- The shares, keys and keys in step, as far as the shortest of the three; the first error ends it.
  pub unwrap_shares : List Share → List PublicKey → List PrivateKey → Outcome (List ℕ)
  unwrap_shares [] pks sks = ok []
  unwrap_shares (s ∷ ss) [] sks = ok []
  unwrap_shares (s ∷ ss) (pk ∷ pks) [] = ok []
  unwrap_shares (s ∷ ss) (pk ∷ pks) (sk ∷ sks) = do
    value ← unwrap_share s pk sk
    rest ← unwrap_shares ss pks sks
    ok (value ∷ rest)

  pub compute_filler : Bytes → Onion → Onion
  compute_filler nonce o =
      let phs = per_hop_size (length o.shares) in
      record o { header = drop phs (apply_keystream nonce 0 (o.header ++ zeros phs)) }

  pub wrap_with_nonce : Rng → Bytes → ℕ → List PublicKey → ℕ → Onion → Outcome (Onion × Rng)
  wrap_with_nonce rng nonce identity public_keys delay o = do
    let n = length public_keys
    (shares, rng') ←
        wrap_shares rng identity (split rng n (suc n) prime (from_bytes_le nonce)) public_keys
    let hop : HopInfo = record { delay = delay; tag = zeros tag_size }
    let head = serialize (record { hop = hop; identity = o.identity; shares = o.shares })
    assert (length head == per_hop_size n) (do
      let header = take (length o.header) (apply_keystream nonce 0 (head ++ o.header))
      assert (length header == length o.header) (do
        let payload = apply_keystream nonce (length head + length o.header) o.payload
        tag ← tag_onion nonce identity shares header payload
        ok (
          record {
            identity = identity;
            shares = shares;
            header = set_tag header tag;
            payload = payload;
          },
          rng',
        )))

  abbrev pub random_nonce : Rng → Bytes × Rng
  random_nonce rng = gen_nonce rng

  -- `Onion::wrap`
  pub wrap_onion : Rng → ℕ → List PublicKey → ℕ → Onion → Outcome (Onion × Rng)
  wrap_onion rng identity public_keys delay o =
      let (nonce, rng') = random_nonce rng in
      wrap_with_nonce rng' nonce identity public_keys delay o

  -- The zeros at the end of the nonce, which the number has lost.
  pub pad_nonce : Bytes → Bytes
  pad_nonce bs = bs ++ zeros (16 - length bs)

  -- The second half of `Onion::unwrap`, from the cipher on.
  pub decipher : Bytes → Onion → List PublicKey → Outcome (HopInfo × Onion)
  decipher nonce o public_keys = do
    let key = take 16 nonce
    let phs = per_hop_size (length public_keys)
    let header = apply_keystream key 0 (o.header ++ zeros phs)
    let payload = apply_keystream key (length o.header + phs) o.payload
    h ← or_err deserialization_failed (deserialize (take phs header))
    ok (
      h.hop,
      record {
        identity = h.identity;
        shares = h.shares;
        header = drop phs header;
        payload = payload;
      },
    )

  -- `Onion::unwrap` with the nonce known: the check of the tag and what follows.
  pub unwrap_with_nonce : Bytes → Onion → List PublicKey → Outcome (HopInfo × Onion)
  unwrap_with_nonce nonce o public_keys = do
    tag ← tag_onion nonce o.identity o.shares o.header o.payload
    ensure (bytes_eq tag (get_tag o.header)) mac_mismatch (decipher nonce o public_keys)

  -- `Onion::unwrap`
  pub unwrap : Onion → List PublicKey → List PrivateKey → Outcome (HopInfo × Onion)
  unwrap o public_keys private_keys = do
    let n = length o.shares
    values ← unwrap_shares o.shares public_keys private_keys
    secret ← or_panic (recover n (suc n) prime (enumerate_from 1 values))
    unwrap_with_nonce (pad_nonce (to_bytes_le secret)) o public_keys

  pub gen_nonces : Rng → List ℕ → List Bytes × Rng
  gen_nonces rng [] = ([], rng)
  gen_nonces rng (i ∷ is) =
      let (nonce, rng') = random_nonce rng in
      let (rest, rng'') = gen_nonces rng' is in (nonce ∷ rest, rng'')

  pub compute_fillers : List Bytes → Onion → Onion
  compute_fillers [] o = o
  compute_fillers (nonce ∷ ns) o = compute_fillers ns (compute_filler nonce o)

  -- The loop of `wrap` over identities, delays and nonces, each from the last one.
  pub wrap_layers :
      Rng → List PublicKey → List ℕ → List ℕ → List Bytes → Onion → Outcome (Onion × Rng)
  wrap_layers rng pks [] ds ns o = ok (o, rng)
  wrap_layers rng pks (i ∷ is) [] ns o = ok (o, rng)
  wrap_layers rng pks (i ∷ is) (d ∷ ds) [] o = ok (o, rng)
  wrap_layers rng pks (i ∷ is) (d ∷ ds) (n ∷ ns) o = do
    (o', rng') ← wrap_with_nonce rng n i pks d o
    wrap_layers rng' pks is ds ns o'

  pub wrap : Rng → List ℕ → List ℕ → List PublicKey → Bytes → Outcome (Onion × Rng)
  wrap rng identities delays public_keys content =
      ensure (length identities == length delays) mismatched_delays (
        let (nonces, rng') = gen_nonces rng identities in
        let start = fresh (length public_keys) (length identities) content in
        wrap_layers rng' public_keys (reverse identities) (reverse delays) (reverse nonces)
          (compute_fillers nonces start))
