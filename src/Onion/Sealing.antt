-- ===== src/Onion/Sealing.antt =====
-- One layer of aimless-onions/src/format.rs: what `wrap_with_nonce` makes of an onion, and that
-- `unwrap` with the keys of the identity gives the onion back.
use aimless_onions.Prelude.{ℕ, ◌^◌, ◌<◌, ◌≡◌, refl, ap, ◌∙◌, arith, List, ◌++◌, length}
use mathlib.Core.List.{append_assoc}
use aimless_onions.Outcome.{ok}
use aimless_onions.NodeName.{NodeName}
use aimless_onions.Wire.{Bytes, Onion}
use aimless_onions.Crypto.{Crypto, IsSound, AreBytes}
use aimless_onions.Onion.{wrap_shares, wrap_with_nonce}
use aimless_onions.Onion.Header.{marked}
use aimless_onions.Onion.Shares.{wrap_shares-AreSharesOf}
use aimless_onions.Onion.Ready.{IsReady, IsLayer, nonce_small}
use aimless_onions.Onion.Layer.{
  mac, layered, hop, wrap_steps, unwrap_steps, length-header, length-mac,
}

module _ (c : Crypto) (HasKey : c.PublicKey → NodeName → c.PrivateKey → Type 0)
    (sound : IsSound c HasKey) where
  open c use {
    Rng, PublicKey, PrivateKey, apply_keystream, hmac, to_bytes_le, from_bytes_le, serialize,
    deserialize,
  }
  open sound use {cipher, numbers, sharing, serialisation, tag_length}

  -- A layer over an onion that is ready for it.
  pub wrap_with_nonce-IsLayer :
      (rng : Rng) (nonce : Bytes) (identity : ℕ) (pks : List PublicKey) (delay : ℕ) (o : Onion)
      (front below : Bytes)
      → IsReady c HasKey sound pks nonce front below o
      → length nonce ≡ 16
      → AreBytes nonce
      → delay < 2 ^ 32
      → 0 < length pks
      → (layered : Onion) × (rng' : Rng) × (wrap_with_nonce c rng nonce identity pks delay o
          ≡ ok (layered, rng'))
        × IsLayer c HasKey sound pks identity delay below o layered
  wrap_with_nonce-IsLayer rng nonce identity pks delay o front below ready l16 bytes fits
        some_keys =
      let n = length pks in
      let secret = from_bytes_le nonce in
      let (values, split_is, enough, small) = sharing.numbered rng n secret some_keys in
      let (ss, rng', made, shs) =
        wrap_shares-AreSharesOf c HasKey sound rng identity 1 pks values (omega (arith, enough))
          small in
      let recovered =
        sharing.recovers rng n secret values some_keys (nonce_small c HasKey sound nonce l16 bytes)
          split_is in
      let mac' = mac c HasKey sound nonce identity pks delay o front below ready ss in
      (
        layered c HasKey sound nonce identity pks delay o front below ready ss,
        rng',
        wrap_steps c HasKey sound nonce identity pks delay o front below ready ss rng rng'
            (ap (λ (vs : List (ℕ × ℕ)). wrap_shares c rng identity vs pks) split_is ∙ made),
        record {
          front =
              marked (apply_keystream nonce 0 (serialisation.prefix delay)) mac'
                (apply_keystream nonce 36 (serialisation.suffix o.identity o.shares ++ front));
          header_is = simp append_assoc;
          same_length =
              length-header c HasKey sound nonce identity pks delay o front below ready ss mac'
                (length-mac c HasKey sound nonce identity pks delay o front below ready ss);
          identity_is = refl;
          count = shs.count;
          sizes = shs.sizes;
          unwraps = λ sks has. (
            hop c HasKey sound nonce identity pks delay o front below ready ss,
            unwrap_steps c HasKey sound nonce identity pks delay o front below ready ss sks values
                (shs.opens sks has) (rw shs.count recovered) l16 bytes fits,
            refl,
          );
        },
      )
