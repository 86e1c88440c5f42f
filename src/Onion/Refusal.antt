-- ===== src/Onion/Refusal.antt =====
-- What `Onion::unwrap` of aimless-onions/src/format.rs accepts and what it refuses.
use aimless_onions.Prelude.{
  ℕ, suc, ◌+◌, ◌≤◌, ◌≡◌, sym, ◌∙◌, arith, some, List, ◌++◌, length, take, drop, length-append,
  length-drop, length-replicate, leb, leb→le,
}
use aimless_onions.Outcome.{
  ok, or_panic, or_err, mac_mismatch, deserialization_failed, bind-ok, or_panic-ok, assert-ok,
  ensure-ok,
}
use aimless_onions.Wire.{
  Bytes, HopInfo, Onion, prime, hop_info_size, per_hop_size, bytes_eq, bytes_eq→≡,
}
use aimless_onions.Crypto.{Crypto, IsStreamCipher, enumerate_from}
use aimless_onions.Onion.{
  zeros, get_tag, mac_input, tag_onion, unwrap_shares, unwrap, unwrap_with_nonce, decipher,
  pad_nonce,
}

module _ (c : Crypto) (cipher : IsStreamCipher c) where
  open c use {PublicKey, PrivateKey}

  -- The nonce that `unwrap` finds.
  abbrev pub nonce_of : ℕ → Bytes
  nonce_of secret = pad_nonce c (c.to_bytes_le secret)

  -- An onion that `unwrap` took, and what it left of it.
  pub record IsAuthentic (o : Onion) (pks : List PublicKey) (sks : List PrivateKey) (inner : Onion)
      : Type 0 where
    pub values : List ℕ
    pub secret : ℕ
    pub opened : unwrap_shares c o.shares pks sks ≡ ok values
    pub recovered :
        c.recover (length o.shares) (suc (length o.shares)) prime (enumerate_from 1 values)
        ≡ some secret
    pub long_enough : hop_info_size ≤ length o.header
    pub tag_is :
        get_tag o.header
        ≡ c.hmac (nonce_of secret) (mac_input o.identity o.shares o.header o.payload)
    pub header_size : length inner.header ≡ length o.header
    pub payload_size : length inner.payload ≡ length o.payload

  decipher_sizes :
      (nonce : Bytes) (o : Onion) (pks : List PublicKey) (hop : HopInfo) (inner : Onion)
      → decipher c nonce o pks ≡ ok (hop, inner)
      → (length inner.header ≡ length o.header) × (length inner.payload ≡ length o.payload)
  unfolding decipher
  decipher_sizes nonce o pks hop inner e =
      let phs = per_hop_size (length pks) in
      let header = c.apply_keystream (take 16 nonce) 0 (o.header ++ zeros phs) in
      let payload = c.apply_keystream (take 16 nonce) (length o.header + phs) o.payload in
      let (h, read, e') =
        bind-ok (or_err deserialization_failed (c.deserialize (take phs header))) _ (hop, inner)
          e in
      let inner_is : record {
        identity = h.identity;
        shares = h.shares;
        header = drop phs header;
        payload = payload;
      }
          ≡ inner =
        cc in
      rw (← inner_is) (
        omega (
          arith,
          length-drop phs header,
          cipher.keeps_length (take 16 nonce) 0 (o.header ++ zeros phs),
          length-append o.header (zeros phs),
          length-replicate {A = ℕ} phs 0,
        ),
        cipher.keeps_length (take 16 nonce) (length o.header + phs) o.payload,
      )

  unwrap_with_nonce_cases :
      (nonce : Bytes) (o : Onion) (pks : List PublicKey) (hop : HopInfo) (inner : Onion)
      → unwrap_with_nonce c nonce o pks ≡ ok (hop, inner)
      → (hop_info_size ≤ length o.header)
        × (get_tag o.header ≡ c.hmac nonce (mac_input o.identity o.shares o.header o.payload))
        × (decipher c nonce o pks ≡ ok (hop, inner))
  unfolding unwrap_with_nonce tag_onion
  unwrap_with_nonce_cases nonce o pks hop inner e =
      let (tag, tagged, e1) =
        bind-ok (tag_onion c nonce o.identity o.shares o.header o.payload) _ (hop, inner) e in
      let (long, mac_is) = assert-ok (leb hop_info_size (length o.header)) _ tag tagged in
      let (same, e2) =
        ensure-ok (bytes_eq tag (get_tag o.header)) mac_mismatch (decipher c nonce o pks)
          (hop, inner) e1 in
      let tag_is : c.hmac nonce (mac_input o.identity o.shares o.header o.payload) ≡ tag = cc in
      (
        leb→le hop_info_size (length o.header) long,
        sym (tag_is ∙ bytes_eq→≡ tag (get_tag o.header) same),
        e2,
      )

  -- With a stream cipher as IsStreamCipher describes it, whenever unwrap returns a hop and an
  -- onion, the tag in the header was the MAC, under the nonce recovered from the shares, of the
  -- identity, the shares, the header without the tag and the payload, and the new header and
  -- payload have the sizes of the old ones.
  pub unwrap-IsAuthentic :
      (o : Onion) (pks : List PublicKey) (sks : List PrivateKey) (hop : HopInfo) (inner : Onion)
      → unwrap c o pks sks ≡ ok (hop, inner)
      → IsAuthentic o pks sks inner
  unfolding unwrap
  unwrap-IsAuthentic o pks sks hop inner accepted =
      let n = length o.shares in
      let (values, opened, e1) =
        bind-ok (unwrap_shares c o.shares pks sks) _ (hop, inner) accepted in
      let (secret, found, e2) =
        bind-ok (or_panic (c.recover n (suc n) prime (enumerate_from 1 values))) _ (hop, inner)
          e1 in
      let (long, tag_is, e3) = unwrap_with_nonce_cases (nonce_of secret) o pks hop inner e2 in
      let sizes = decipher_sizes (nonce_of secret) o pks hop inner e3 in
      record {
        values = values;
        secret = secret;
        opened = opened;
        recovered = or_panic-ok (c.recover n (suc n) prime (enumerate_from 1 values)) secret found;
        long_enough = long;
        tag_is = tag_is;
        header_size = sizes.0;
        payload_size = sizes.1;
      }
