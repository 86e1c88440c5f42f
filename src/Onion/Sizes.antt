-- ===== src/Onion/Sizes.antt =====
-- The sizes of the onions that `wrap` of aimless-onions/src/format.rs makes.
use aimless_onions.Prelude.{
  ℕ, zero, suc, ◌+◌, ◌-◌, ◌*◌, ◌≤◌, ◌<◌, ◌≡◌, refl, ap, sym, subst, ◌∙◌, arith, List, [], ◌∷◌, ◌++◌,
  length, length-append, length-take, length-drop, length-replicate, replicate, take, drop, All,
  ◌==◌, ==_iff, leb, leb→le,
}
use mathlib.Core.List.{reverse}
use aimless_onions.Outcome.{
  ok, ok_injective, bind-ok, or_panic, assert-ok, ensure-ok, mismatched_delays,
}
use aimless_onions.NodeName.{NodeName, number}
use aimless_onions.Wire.{
  Bytes, Share, HopInfo, Onion, prime, int_size, share_size, tag_size, hop_info_size, per_hop_size,
  empty_share,
}
use aimless_onions.Crypto.{Crypto, IsSound, enumerate_from}
use aimless_onions.Onion.{
  zeros, set_tag, mac_input, fresh, tag_onion, wrap_share, wrap_shares, compute_filler,
  compute_fillers, wrap_with_nonce, wrap_layers, gen_nonces, wrap,
}

length-enumerate_from {ℓ} :
    {A : Type ℓ} (i : ℕ) (xs : List A) → length (enumerate_from i xs) ≡ length xs
length-enumerate_from i [] = refl
length-enumerate_from i (x ∷ xs) = ap suc (length-enumerate_from (i + 1) xs)

module _ (c : Crypto) (HasKey : c.PublicKey → NodeName → c.PrivateKey → Type 0)
    (sound : IsSound c HasKey) where
  open c use {
    Rng, PublicKey, apply_keystream, hmac, split, serialize, from_bytes_le, encrypt, to_bytes_le,
  }
  open sound use {cipher, sharing, tag_length}

  -- An onion for `k` authorities with these numbers of bytes in the header and the payload.
  pub record HasSizes (k header_size payload_size : ℕ) (o : Onion) : Type 0 where
    pub header : length o.header ≡ header_size
    pub count : length o.shares ≡ k
    pub sizes : All (λ s. length s.bytes ≡ share_size) o.shares
    pub payload : length o.payload ≡ payload_size

  All-replicate_share : (k : ℕ) → All (λ s. length s.bytes ≡ share_size) (replicate k empty_share)
  All-replicate_share zero = tt
  All-replicate_share (suc k) = (length-replicate {A = ℕ} share_size 0, All-replicate_share k)

  fresh-HasSizes :
      (k hops : ℕ) (content : Bytes)
      → HasSizes k (hops * per_hop_size k) (length content) (fresh k hops content)
  unfolding fresh
  fresh-HasSizes k hops content = record {
    header = length-replicate {A = ℕ} (hops * per_hop_size k) 0;
    count = length-replicate k empty_share;
    sizes = All-replicate_share k;
    payload = refl;
  }

  compute_filler-HasSizes :
      (k n p : ℕ) (nonce : Bytes) (o : Onion)
      → HasSizes k n p o
      → HasSizes k n p (compute_filler c nonce o)
  unfolding compute_filler
  compute_filler-HasSizes k n p nonce o has =
      let phs = per_hop_size (length o.shares) in
      let long = o.header ++ zeros phs in
      record {
        header = omega (
          arith,
          length-drop phs (apply_keystream nonce 0 long),
          cipher.keeps_length nonce 0 long,
          length-append o.header (zeros phs),
          length-replicate {A = ℕ} phs 0,
          has.header,
        );
        count = has.count;
        sizes = has.sizes;
        payload = has.payload;
      }

  compute_fillers-HasSizes :
      (k n p : ℕ) (nonces : List Bytes) (o : Onion)
      → HasSizes k n p o
      → HasSizes k n p (compute_fillers c nonces o)
  unfolding compute_fillers
  compute_fillers-HasSizes k n p [] o has = has
  compute_fillers-HasSizes k n p (nonce ∷ ns) o has =
      compute_fillers-HasSizes k n p ns (compute_filler c nonce o)
        (compute_filler-HasSizes k n p nonce o has)

  wrap_share-size :
      (rng : Rng) (identity : ℕ) (pk : PublicKey) (v : ℕ) (r : Share × Rng)
      → wrap_share c rng identity pk v ≡ ok r
      → length r.0.bytes ≡ share_size
  unfolding wrap_share
  wrap_share-size rng identity pk v r e =
      let encoded = to_bytes_le v in
      let (fits, e1) = assert-ok (leb (length encoded) int_size) _ r e in
      let encrypted =
        encrypt rng pk (number identity) (encoded ++ zeros (int_size - length encoded)) in
      let (ciphertext, made, e2) = bind-ok (or_panic encrypted.0) _ r e1 in
      let (sized, e3) = assert-ok (length ciphertext == share_size) _ r e2 in
      let result : (record { bytes = ciphertext }, encrypted.1) ≡ r = ok_injective e3 in
      sym (ap (λ (t : Share × Rng). length t.0.bytes) result)
      ∙ (==_iff (length ciphertext) share_size).0 sized

  wrap_shares-sizes :
      (rng : Rng) (identity : ℕ) (vs : List (ℕ × ℕ)) (pks : List PublicKey) (r : List Share × Rng)
      → length pks ≤ length vs
      → wrap_shares c rng identity vs pks ≡ ok r
      → (length r.0 ≡ length pks) × All (λ s. length s.bytes ≡ share_size) r.0
  unfolding wrap_shares
  wrap_shares-sizes rng identity [] [] r enough e =
      let result : ([], rng) ≡ r = ok_injective e in
      subst
        (λ (t : List Share × Rng). (length t.0 ≡ 0) × All (λ s. length s.bytes ≡ share_size) t.0)
        result (refl, tt)
  wrap_shares-sizes rng identity [] (pk ∷ pks) r enough e = absurd (omega (arith, enough))
  wrap_shares-sizes rng identity (v ∷ vs) [] r enough e =
      let result : ([], rng) ≡ r = ok_injective e in
      subst
        (λ (t : List Share × Rng). (length t.0 ≡ 0) × All (λ s. length s.bytes ≡ share_size) t.0)
        result (refl, tt)
  wrap_shares-sizes rng identity ((i, v) ∷ vs) (pk ∷ pks) r enough e =
      let (first, made, e1) = bind-ok (wrap_share c rng identity pk v) _ r e in
      let (rest, others, e2) = bind-ok (wrap_shares c first.1 identity vs pks) _ r e1 in
      let (count, sizes) =
        wrap_shares-sizes first.1 identity vs pks rest (omega (arith, enough)) others in
      let result : (first.0 ∷ rest.0, rest.1) ≡ r = ok_injective e2 in
      subst
        (λ (t : List Share × Rng).
          (length t.0 ≡ suc (length pks)) × All (λ s. length s.bytes ≡ share_size) t.0)
        result (ap suc count, (wrap_share-size rng identity pk v first made, sizes))

  set_tag-length :
      (header tag : Bytes)
      → hop_info_size ≤ length header
      → length tag ≡ tag_size
      → length (set_tag header tag) ≡ length header
  unfolding set_tag
  set_tag-length header tag long size = omega (
    arith,
    long,
    size,
    length-append (take 4 header) (tag ++ drop 36 header),
    length-append tag (drop 36 header),
    length-take 4 header,
    length-drop 36 header,
  )

  tag_onion-ok :
      (nonce : Bytes) (i : ℕ) (shares : List Share) (header payload tag : Bytes)
      → tag_onion c nonce i shares header payload ≡ ok tag
      → (hop_info_size ≤ length header) × (length tag ≡ tag_size)
  unfolding tag_onion
  tag_onion-ok nonce i shares header payload tag e =
      let (long, made) = assert-ok (leb hop_info_size (length header)) _ tag e in
      (
        leb→le hop_info_size (length header) long,
        sym (ap (λ (t : Bytes). length t) (ok_injective made))
            ∙ tag_length nonce (mac_input i shares header payload),
      )

  wrap_with_nonce-HasSizes :
      (k n p : ℕ) (rng : Rng) (nonce : Bytes) (i d : ℕ) (pks : List PublicKey) (o : Onion)
      (r : Onion × Rng)
      → 0 < k
      → length pks ≡ k
      → HasSizes k n p o
      → wrap_with_nonce c rng nonce i pks d o ≡ ok r
      → HasSizes k n p r.0
  unfolding wrap_with_nonce
  wrap_with_nonce-HasSizes k n p rng nonce i d pks o r some_keys counted has e =
      let amount = length pks in
      let secret = from_bytes_le nonce in
      let (values, numbered, many, below) =
        sharing.numbered rng amount secret (omega (arith, some_keys, counted)) in
      let enough : amount ≤ length (split rng amount (suc amount) prime secret) = omega (
        arith,
        ap (λ (vs : List (ℕ × ℕ)). length vs) numbered,
        length-enumerate_from 1 values,
        many,
      ) in
      let (shares, shared, e1) =
        bind-ok (wrap_shares c rng i (split rng amount (suc amount) prime secret) pks) _ r e in
      let (count, sizes) =
        wrap_shares-sizes rng i (split rng amount (suc amount) prime secret) pks shares enough
          shared in
      let hop : HopInfo = record { delay = d; tag = zeros tag_size } in
      let head = serialize (record { hop = hop; identity = o.identity; shares = o.shares }) in
      let (headed, e2) = assert-ok (length head == per_hop_size amount) _ r e1 in
      let header = take (length o.header) (apply_keystream nonce 0 (head ++ o.header)) in
      let (same, e3) = assert-ok (length header == length o.header) _ r e2 in
      let payload = apply_keystream nonce (length head + length o.header) o.payload in
      let (tag, tagged, e4) = bind-ok (tag_onion c nonce i shares.0 header payload) _ r e3 in
      let (long, mac) = tag_onion-ok nonce i shares.0 header payload tag tagged in
      let kept : length header ≡ length o.header =
        (==_iff (length header) (length o.header)).0 same in
      subst (λ (t : Onion × Rng). HasSizes k n p t.0) (ok_injective e4)
        (record {
          header = set_tag-length header tag long mac ∙ kept ∙ has.header;
          count = count ∙ counted;
          sizes = sizes;
          payload =
              cipher.keeps_length nonce (length head + length o.header) o.payload ∙ has.payload;
        })

  wrap_layers-HasSizes :
      (k n p : ℕ) (rng : Rng) (pks : List PublicKey) (ids ds : List ℕ) (ns : List Bytes) (o : Onion)
      (r : Onion × Rng)
      → 0 < k
      → length pks ≡ k
      → HasSizes k n p o
      → wrap_layers c rng pks ids ds ns o ≡ ok r
      → HasSizes k n p r.0
  unfolding wrap_layers
  wrap_layers-HasSizes k n p rng pks [] ds ns o r some_keys counted has e =
      subst (λ (t : Onion × Rng). HasSizes k n p t.0) (ok_injective e) has
  wrap_layers-HasSizes k n p rng pks (i ∷ ids) [] ns o r some_keys counted has e =
      subst (λ (t : Onion × Rng). HasSizes k n p t.0) (ok_injective e) has
  wrap_layers-HasSizes k n p rng pks (i ∷ ids) (d ∷ ds) [] o r some_keys counted has e =
      subst (λ (t : Onion × Rng). HasSizes k n p t.0) (ok_injective e) has
  wrap_layers-HasSizes k n p rng pks (i ∷ ids) (d ∷ ds) (nonce ∷ ns) o r some_keys counted has e =
      let (layer, made, e1) = bind-ok (wrap_with_nonce c rng nonce i pks d o) _ r e in
      wrap_layers-HasSizes k n p layer.1 pks ids ds ns layer.0 r some_keys counted
        (wrap_with_nonce-HasSizes k n p rng nonce i d pks o layer some_keys counted has made) e1

  -- Whatever `wrap` returns for some keys has the header of all hops, a share for each key and a
  -- payload as long as the content.
  pub wrap-HasSizes :
      (rng : Rng) (ids delays : List ℕ) (pks : List PublicKey) (content : Bytes) (r : Onion × Rng)
      → 0 < length pks
      → wrap c rng ids delays pks content ≡ ok r
      → HasSizes (length pks) (length ids * per_hop_size (length pks)) (length content) r.0
  unfolding wrap
  wrap-HasSizes rng ids delays pks content r some_keys e =
      let (same, e1) = ensure-ok (length ids == length delays) mismatched_delays _ r e in
      let (nonces, rng1) = gen_nonces c rng ids in
      let start = fresh (length pks) (length ids) content in
      let n = length ids * per_hop_size (length pks) in
      wrap_layers-HasSizes (length pks) n (length content) rng1 pks (reverse ids) (reverse delays)
        (reverse nonces) (compute_fillers c nonces start) r some_keys refl
        (compute_fillers-HasSizes (length pks) n (length content) nonces start
          (fresh-HasSizes (length pks) (length ids) content))
        e1
