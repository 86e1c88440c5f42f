-- ===== src/Onion/Layer.antt =====
-- The steps of `wrap_with_nonce` and `unwrap` of aimless-onions/src/format.rs for one layer.
use aimless_onions.Prelude.{
  ℕ, suc, ◌+◌, ◌*◌, ◌^◌, ◌<◌, ◌≡◌, refl, ap, sym, ◌∙◌, arith, List, ◌++◌, length, take,
  length-append, length-replicate, true, some, ==_iff, leb, le→leb,
}
use aimless_onions.Prelude.Splice.{take-append_exact, drop-append_exact, take-all}
use mathlib.Core.List.{append_assoc}
use mathlib.Core.Path.{ap₂}
use aimless_onions.Outcome.{ok}
use aimless_onions.NodeName.{NodeName}
use aimless_onions.Wire.{
  Bytes, Share, HopInfo, HopHeader, Onion, prime, share_size, tag_size, hop_info_size, per_hop_size,
  bytes_eq_refl,
}
use aimless_onions.Crypto.{Crypto, IsSound, IsHopHeader, AreBytes, enumerate_from}
use aimless_onions.Onion.{
  zeros, mac_input, tag_onion, wrap_shares, unwrap_shares, wrap_with_nonce, unwrap,
  unwrap_with_nonce, decipher,
}
use aimless_onions.Onion.Header.{
  marked, take-marked, drop-marked, set_tag-marked, get_tag-marked, enc-wrapped, enc-unwrapped,
  sealed, position, hidden,
}
use aimless_onions.Onion.Ready.{IsReady, pad_nonce-from}

-- The MAC does not read the place of the tag.
mac_input-marked :
    (identity : ℕ) (shares : List Share) (d t u r payload : Bytes)
    → length d ≡ 4
    → length t ≡ 32
    → length u ≡ 32
    → mac_input identity shares (marked d t r) payload
      ≡ mac_input identity shares (marked d u r) payload
mac_input-marked identity shares d t u r payload ld lt lu =
    rw
      (take-marked d r ld t, take-marked d r ld u, drop-marked d r ld t lt, drop-marked d r ld u lu)

module _ (c : Crypto) (HasKey : c.PublicKey → NodeName → c.PrivateKey → Type 0)
    (sound : IsSound c HasKey) where
  open c use {
    Rng, PublicKey, PrivateKey, apply_keystream, hmac, to_bytes_le, from_bytes_le, serialize,
    deserialize,
  }
  open sound use {cipher, numbers, sharing, serialisation, tag_length}

  module _ (nonce : Bytes) (identity : ℕ) (pks : List PublicKey) (delay : ℕ) (o : Onion)
      (front below : Bytes) (ready : IsReady c HasKey sound pks nonce front below o)
      (ss : List Share) where
    abbrev pub phs : ℕ
    phs = per_hop_size (length pks)

    abbrev pub d : Bytes
    d = serialisation.prefix delay

    abbrev pub r : Bytes
    r = serialisation.suffix o.identity o.shares

    abbrev pub blank : Bytes
    blank = zeros tag_size

    -- The header of the layer with `t` in the place of the tag.
    abbrev pub header : Bytes → Bytes
    header t = marked (apply_keystream nonce 0 d) t (apply_keystream nonce 36 (r ++ front) ++ below)

    abbrev pub payload : Bytes
    payload = apply_keystream nonce (phs + length o.header) o.payload

    abbrev pub mac : Bytes
    mac = hmac nonce (mac_input identity ss (header (apply_keystream nonce 4 blank)) payload)

    abbrev pub layered : Onion
    layered = record { identity = identity; shares = ss; header = header mac; payload = payload }

    abbrev pub hop_header : Bytes → HopHeader
    hop_header t = record {
      hop = record { delay = delay; tag = t };
      identity = o.identity;
      shares = o.shares;
    }

    length-r : length r ≡ 16 + length pks * share_size
    length-r =
        serialisation.suffix_length o.identity o.shares ready.sizes
        ∙ ap (λ (t : ℕ). 8 + 8 + t * share_size) ready.count

    place : position c cipher nonce d r front below phs ≡ phs + length front
    place = omega (arith, length-r, serialisation.prefix_length delay)

    inner_is : o.header ≡ front ++ hidden c cipher nonce d r front below phs
    inner_is =
        ready.header_is
        ∙ ap (λ (p : ℕ). front ++ apply_keystream nonce p (below ++ zeros phs)) (sym place)

    length-inner : length o.header ≡ length front + (length below + phs)
    length-inner = omega (
      arith,
      ap length inner_is,
      length-append front (hidden c cipher nonce d r front below phs),
      cipher.keeps_length nonce (position c cipher nonce d r front below phs) (below ++ zeros phs),
      length-append below (zeros phs),
      length-replicate {A = ℕ} phs 0,
    )

    sealed_is : (t : Bytes) → sealed c cipher nonce d r front below phs t ++ below ≡ header t
    sealed_is t = simp append_assoc

    pub length-header : (t : Bytes) → length t ≡ 32 → length (header t) ≡ length o.header
    length-header t h = omega (
      arith,
      length-append (apply_keystream nonce 0 d)
          (t ++ (apply_keystream nonce 36 (r ++ front) ++ below)),
      length-append t (apply_keystream nonce 36 (r ++ front) ++ below),
      length-append (apply_keystream nonce 36 (r ++ front)) below,
      length-append r front,
      cipher.keeps_length nonce 0 d,
      cipher.keeps_length nonce 36 (r ++ front),
      serialisation.prefix_length delay,
      length-r,
      length-inner,
    )

    layout : (t : Bytes) → serialize (hop_header t) ≡ marked d t r
    layout t = serialisation.layout (hop_header t)

    length-head : (t : Bytes) → length t ≡ 32 → length (serialize (hop_header t)) ≡ phs
    length-head t h = omega (
      arith,
      ap length (layout t),
      length-append d (t ++ r),
      length-append t r,
      serialisation.prefix_length delay,
      length-r,
    )

    -- What `wrap_with_nonce` enciphers and cuts.
    wrapped_header :
        take (length o.header) (apply_keystream nonce 0 (serialize (hop_header blank) ++ o.header))
        ≡ header (apply_keystream nonce 4 blank)
    wrapped_header =
        ap (take (length o.header)) (
          ap (apply_keystream nonce 0) (ap₂ ◌++◌ (layout blank) inner_is)
          ∙ enc-wrapped c cipher nonce d r front below phs blank (serialisation.prefix_length delay)
              refl
          ∙ sym (
              append_assoc (sealed c cipher nonce d r front below phs enciphered) below (zeros phs))
          ∙ ap (λ (t : Bytes). t ++ zeros phs) (sealed_is enciphered))
        ∙ take-append_exact (length o.header) (header enciphered) (zeros phs)
            (length-header enciphered (cipher.keeps_length nonce 4 blank))
      where
        enciphered : Bytes
        enciphered = apply_keystream nonce 4 blank

    -- What `unwrap` deciphers.
    unwrapped_header :
        (t : Bytes)
        → length t ≡ 32
        → apply_keystream nonce 0 (header t ++ zeros phs)
          ≡ serialize (hop_header (apply_keystream nonce 4 t)) ++ o.header
    unwrapped_header t h =
        ap (λ (x : Bytes). apply_keystream nonce 0 (x ++ zeros phs)) (sym (sealed_is t))
        ∙ enc-unwrapped c cipher nonce d r front below phs t (serialisation.prefix_length delay) h
        ∙ ap₂ ◌++◌ (sym (layout (apply_keystream nonce 4 t))) (sym inner_is)

    -- The header of a layer holds more than a hop's delay and tag.
    long_enough : (t : Bytes) → length t ≡ 32 → leb hop_info_size (length (header t)) ≡ true
    long_enough t h = le→leb 36 (length (header t)) (
        omega (
          arith,
          length-append (apply_keystream nonce 0 d)
              (t ++ (apply_keystream nonce 36 (r ++ front) ++ below)),
          length-append t (apply_keystream nonce 36 (r ++ front) ++ below),
          cipher.keeps_length nonce 0 d,
          serialisation.prefix_length delay,
        ))

    tag_onion-header :
        (t : Bytes) → length t ≡ 32 → tag_onion c nonce identity ss (header t) payload ≡ ok mac
    unfolding tag_onion
    tag_onion-header t h = rw (long_enough t h) (
        ap (λ (x : Bytes). ok (hmac nonce x))
          (mac_input-marked identity ss (apply_keystream nonce 0 d) t
            (apply_keystream nonce 4 blank) (apply_keystream nonce 36 (r ++ front) ++ below) payload
            (cipher.keeps_length nonce 0 d ∙ serialisation.prefix_length delay) h
            (cipher.keeps_length nonce 4 blank)))

    length-d : length (apply_keystream nonce 0 d) ≡ 4
    length-d = cipher.keeps_length nonce 0 d ∙ serialisation.prefix_length delay

    pub wrap_steps :
        (rng rng' : Rng)
        → wrap_shares c rng identity
            (c.split rng (length pks) (suc (length pks)) prime (from_bytes_le nonce))
            pks
          ≡ ok (ss, rng')
        → wrap_with_nonce c rng nonce identity pks delay o ≡ ok (layered, rng')
    unfolding wrap_with_nonce
    wrap_steps rng rng' made =
        let enciphered = apply_keystream nonce 4 blank in
        let size = cipher.keeps_length nonce 4 blank in
        rw (made, (==_iff (length (serialize (hop_header blank))) phs).1 (length-head blank refl))
          (rw wrapped_header (
            rw
              ((==_iff (length (header enciphered)) (length o.header)).1
                (length-header enciphered size))
              (rw (length-head blank refl) (
                rw (tag_onion-header enciphered size) (
                  ap
                    (λ (h : Bytes). ok (
                      record { identity = identity; shares = ss; header = h; payload = payload },
                      rng',
                    ))
                    (set_tag-marked (apply_keystream nonce 0 d)
                      (apply_keystream nonce 36 (r ++ front) ++ below) length-d enciphered mac
                      size))))))

    pub length-mac : length mac ≡ 32
    length-mac =
        tag_length nonce (mac_input identity ss (header (apply_keystream nonce 4 blank)) payload)

    abbrev pub hop : HopInfo
    hop = record { delay = delay; tag = apply_keystream nonce 4 mac }

    hop_header-IsHopHeader :
        (t : Bytes) → length t ≡ 32 → delay < 2 ^ 32 → IsHopHeader (hop_header t)
    hop_header-IsHopHeader t h fits = record {
      delay_fits = fits;
      tag_fits = h;
      identity_fits = ready.identity_fits;
      shares_fit = ready.sizes;
    }

    payload_back : apply_keystream nonce (length (header mac) + phs) payload ≡ o.payload
    payload_back =
        let place : length (header mac) + phs ≡ phs + length o.header =
          omega (arith, length-header mac length-mac) in
        rw place (cipher.undoes_itself nonce (phs + length o.header) o.payload)

    -- `unwrap` from the nonce on, with the shares opened.
    pub unwrap_steps :
        (sks : List PrivateKey) (values : List ℕ)
        → unwrap_shares c ss pks sks ≡ ok (take (length pks) values)
        → c.recover
            (length ss)
            (suc (length ss))
            prime
            (enumerate_from 1 (take (length pks) values))
          ≡ some (from_bytes_le nonce)
        → length nonce ≡ 16
        → AreBytes nonce
        → delay < 2 ^ 32
        → unwrap c layered pks sks ≡ ok (hop, o)
    unfolding unwrap unwrap_with_nonce decipher
    unwrap_steps sks values opened recovered l16 bytes fits =
        rw (opened, recovered, pad_nonce-from c HasKey sound nonce l16 bytes)
          (rw (tag_onion-header mac length-mac) (
            rw
              (get_tag-marked (apply_keystream nonce 0 d)
                (apply_keystream nonce 36 (r ++ front) ++ below) length-d mac length-mac)
              (rw (bytes_eq_refl mac) (
                rw (take-all 16 nonce l16, unwrapped_header mac length-mac)
                  (rw
                    (
                      take-append_exact phs (serialize (hop_header deciphered)) o.header
                          (length-head deciphered size),
                      drop-append_exact phs (serialize (hop_header deciphered)) o.header
                          (length-head deciphered size),
                      serialisation.reads_back (hop_header deciphered)
                          (hop_header-IsHopHeader deciphered size fits),
                    )
                    (ap
                      (λ (p : Bytes). ok (
                        hop,
                        record {
                          identity = o.identity;
                          shares = o.shares;
                          header = o.header;
                          payload = p;
                        },
                      ))
                      payload_back))))))
      where
        deciphered : Bytes
        deciphered = apply_keystream nonce 4 mac

        size : length deciphered ≡ 32
        size = cipher.keeps_length nonce 4 mac ∙ length-mac
