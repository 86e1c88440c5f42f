-- ===== src/Tools/OnionSizes/Exact.antt =====
-- The sizes that aimless-onions/src/bin/onion_sizes.rs prints follow a formula.
use aimless_onions.Prelude.{
  ℕ, zero, suc, ◌+◌, ◌*◌, ◌≤◌, ◌<◌, ◌≡◌, ap, subst, ◌∙◌, arith, List, [], ◌∷◌, All, All-append,
  length, length-take, take,
}
use aimless_onions.Outcome.{ok, ok_injective, bind-ok}
use aimless_onions.NodeName.{NodeName}
use aimless_onions.Wire.{Bytes, Onion, share_size, per_hop_size}
use aimless_onions.Crypto.{Crypto, IsSound}
use aimless_onions.Onion.{wrap}
use aimless_onions.Onion.Sizes.{wrap-HasSizes}
use aimless_onions.Tools.OnionSizes.{
  Row, max_authorities, max_path, up_to, payload_sizes, row, rows_for, rows_of_path, rows, main,
}

-- The layout of bincode: 8 bytes for an identity and for the length of a vector, shares as arrays.
pub record IsBincode (serialized_size : Onion → ℕ) : Type 0 where
  pub layout :
      (o : Onion)
      → All (λ s. length s.bytes ≡ share_size) o.shares
      → serialized_size o
        ≡ 8 + (8 + length o.shares * share_size) + (8 + length o.header) + (8 + length o.payload)

-- The size of an onion for a path, a number of authorities and a size of the payload.
abbrev pub onion_size : ℕ → ℕ → ℕ → ℕ
onion_size hops authorities payload =
    8 + (8 + authorities * share_size) + (8 + hops * per_hop_size authorities) + (8 + payload)

abbrev pub IsExact : Row → Type 0
IsExact r = r.size ≡ onion_size r.path_length r.authority_count r.payload_size

up_to-All : (P : ℕ → Type 0) (n : ℕ) → ((k : ℕ) → 0 < k → k ≤ n → P k) → All P (up_to n)
unfolding up_to
up_to-All P zero each = tt
up_to-All P (suc n) each =
    All-append P (up_to n) (suc n ∷ [])
      (up_to-All P n (λ k pos most. each k pos (omega (arith, most))))
      (each (suc n) (omega arith) (omega arith), tt)

module _ (c : Crypto) (HasKey : c.PublicKey → NodeName → c.PrivateKey → Type 0)
    (sound : IsSound c HasKey) (serialized_size : Onion → ℕ) (bincode : IsBincode serialized_size)
    (public_keys : List c.PublicKey) (path delays : List ℕ) (payload : Bytes) where
  open c use {Rng, PublicKey}

  taken : {A : Type 0} (n : ℕ) (xs : List A) → n ≤ length xs → length (take n xs) ≡ n
  taken n xs enough = omega (arith, enough, length-take n xs)

  -- With cryptography as IsSound and bincode as IsBincode describe them, when the path, the keys and
  -- the payload are long enough: the size in a row that the tool gives for a length of the path, a
  -- positive number of authorities and a size of the payload is that of the formula, 8 bytes for the
  -- identity, the shares, the hops' parts of the header and the payload, each with 8 bytes for its
  -- length.
  pub row-IsExact :
      (rng : Rng) (hops count size : ℕ) (r : Row × Rng)
      → hops ≤ length path
      → 0 < count
      → count ≤ length public_keys
      → size ≤ length payload
      → row c serialized_size public_keys path delays payload rng hops count size ≡ ok r
      → IsExact r.0
  unfolding row
  row-IsExact rng hops count size r long some_keys keys big e =
      let (made, wrapped, e1) =
        bind-ok
          (wrap c rng (take hops path) (take hops delays) (take count public_keys)
            (take size payload))
          _ r e in
      let keys_are = taken count public_keys keys in
      let has =
        wrap-HasSizes c HasKey sound rng (take hops path) (take hops delays)
          (take count public_keys) (take size payload) made (omega (arith, some_keys, keys_are))
          wrapped in
      let header : length made.0.header ≡ hops * per_hop_size count =
        has.header ∙ (λ i. taken hops path long i * per_hop_size (keys_are i)) in
      let shares : length made.0.shares * share_size ≡ count * share_size =
        ap (λ (k : ℕ). k * share_size) (has.count ∙ keys_are) in
      let content : length made.0.payload ≡ size = has.payload ∙ taken size payload big in
      let exact : serialized_size made.0 ≡ onion_size hops count size =
        bincode.layout made.0 has.sizes
        ∙ (λ i. 8 + (8 + shares i) + (8 + header i) + (8 + content i)) in
      subst (λ (t : Row × Rng). IsExact t.0) (ok_injective e1) exact

  rows_for-IsExact :
      (rng : Rng) (hops count : ℕ) (sizes : List ℕ) (r : List Row × Rng)
      → hops ≤ length path
      → 0 < count
      → count ≤ length public_keys
      → All (λ s. s ≤ length payload) sizes
      → rows_for c serialized_size public_keys path delays payload rng hops count sizes ≡ ok r
      → All IsExact r.0
  unfolding rows_for
  rows_for-IsExact rng hops count [] r long some_keys keys big e =
      subst (λ (t : List Row × Rng). All IsExact t.0) (ok_injective e) tt
  rows_for-IsExact rng hops count (size ∷ sizes) r long some_keys keys big e =
      let (first, made, e1) =
        bind-ok (row c serialized_size public_keys path delays payload rng hops count size) _ r e in
      let (rest, others, e2) =
        bind-ok
          (rows_for c serialized_size public_keys path delays payload first.1 hops count sizes) _ r
          e1 in
      subst (λ (t : List Row × Rng). All IsExact t.0) (ok_injective e2)
        (
          row-IsExact rng hops count size first long some_keys keys big.0 made,
          rows_for-IsExact first.1 hops count sizes rest long some_keys keys big.1 others,
        )

  abbrev IsCount : ℕ → Type 0
  IsCount n = (0 < n) × (n ≤ length public_keys)

  rows_of_path-IsExact :
      (rng : Rng) (hops : ℕ) (counts : List ℕ) (r : List Row × Rng)
      → hops ≤ length path
      → All IsCount counts
      → All (λ s. s ≤ length payload) payload_sizes
      → rows_of_path c serialized_size public_keys path delays payload rng hops counts ≡ ok r
      → All IsExact r.0
  unfolding rows_of_path
  rows_of_path-IsExact rng hops [] r long keys big e =
      subst (λ (t : List Row × Rng). All IsExact t.0) (ok_injective e) tt
  rows_of_path-IsExact rng hops (count ∷ counts) r long keys big e =
      let (first, made, e1) =
        bind-ok
          (rows_for c serialized_size public_keys path delays payload rng hops count payload_sizes)
          _ r e in
      let (rest, others, e2) =
        bind-ok (rows_of_path c serialized_size public_keys path delays payload first.1 hops counts)
          _ r e1 in
      subst (λ (t : List Row × Rng). All IsExact t.0) (ok_injective e2)
        (All-append IsExact first.0 rest.0
          (rows_for-IsExact rng hops count payload_sizes first long keys.0.0 keys.0.1 big made)
          (rows_of_path-IsExact first.1 hops counts rest long keys.1 big others))

  rows-IsExact :
      (rng : Rng) (lens : List ℕ) (r : List Row × Rng)
      → All (λ l. l ≤ length path) lens
      → All IsCount (up_to max_authorities)
      → All (λ s. s ≤ length payload) payload_sizes
      → rows c serialized_size public_keys path delays payload rng lens ≡ ok r
      → All IsExact r.0
  unfolding rows
  rows-IsExact rng [] r long keys big e =
      subst (λ (t : List Row × Rng). All IsExact t.0) (ok_injective e) tt
  rows-IsExact rng (len ∷ lens) r long keys big e =
      let (first, made, e1) =
        bind-ok
          (rows_of_path c serialized_size public_keys path delays payload rng len
            (up_to max_authorities))
          _ r e in
      let (rest, others, e2) =
        bind-ok (rows c serialized_size public_keys path delays payload first.1 lens) _ r e1 in
      subst (λ (t : List Row × Rng). All IsExact t.0) (ok_injective e2)
        (All-append IsExact first.0 rest.0
          (rows_of_path-IsExact rng len (up_to max_authorities) first long.0 keys big made)
          (rows-IsExact first.1 lens rest long.1 keys big others))

  -- So it is in all rows.
  pub main-IsExact :
      (rng : Rng) (r : List Row × Rng)
      → max_path ≤ length path
      → max_authorities ≤ length public_keys
      → 4069 ≤ length payload
      → main c serialized_size public_keys path delays payload rng ≡ ok r
      → All IsExact r.0
  unfolding main
  main-IsExact rng r long keys big e =
      rows-IsExact rng (up_to max_path) r
        (up_to-All (λ l. l ≤ length path) max_path (λ k pos most. omega (arith, most, long)))
        (up_to-All IsCount max_authorities (λ k pos most. (pos, omega (arith, most, keys))))
        (
          omega (arith, big),
          (
            omega (arith, big),
            (omega (arith, big), (omega (arith, big), (omega (arith, big), tt))),
          ),
        )
        e
