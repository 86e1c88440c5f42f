-- ===== src/Hibe/Keys.antt =====
-- The keys that aimless-onions/src/hibe.rs generates and derives are those of the scheme of Boneh,
-- Boyen and Goh.
use aimless_onions.Prelude.{
  ℕ, suc, ◌+◌, ◌-◌, ◌%◌, ◌^◌, ◌≤◌, ◌<◌, ◌≡◌, refl, ap, sym, ◌∙◌, arith, true, false, List, [], ◌∷◌,
  ◌++◌, map, length, length-append, drop, drop-get_elem?, leb, le→leb, dec_le,
}
use aimless_onions.Outcome.{Outcome, ok, ensure, identity_too_long}
use aimless_onions.Hibe.{
  Curve, IsCurve, PublicKey, PrivateKey, CachedBbgKeygen, generate, sum_products, generate_key,
  derive_key,
}
use aimless_onions.Hibe.Cache.{generate-made}
use aimless_onions.Hibe.Scheme.{
  inner_product, key_of, IsKeygenState, sum_products_lem, slice_from-drop, inner_product-append,
  add_products-map, main_part,
}

module _ (c : Curve) (curve : IsCurve c) where
  open c use {Scalar, G1, G2, add_scalar, add1, mul1, zero2, add2, mul2}
  open curve use {zero-add, add_assoc, add_comm, mul-add, mul-add_scalar, mul_comm, mul1-add_scalar}

  pub generate_key-short :
      (g : CachedBbgKeygen c) (r : Scalar) (master : G2) (identity : List Scalar)
      → IsKeygenState c curve g
      → length identity ≤ g.max_depth
      → generate_key c g r master identity ≡ ok (key_of c curve g.public_key master r identity)
  unfolding generate_key
  generate_key-short g r master identity state short =
      let deep = state.deep_enough in
      let total : sum_products c g 0 zero2 identity
          ≡ ok (inner_product c curve g.public_key.elements identity) =
        sum_products_lem c curve g 0 zero2 identity state (omega (arith, deep, short))
        ∙ ap ok (zero-add _) in
      rw (
        le→leb (length identity) g.max_depth short,
        total,
        slice_from-drop c curve (length identity) g.public_key.elements
            (omega (arith, deep, short)),
      )

  pub derive_key-key_of :
      (g : CachedBbgKeygen c) (r t : Scalar) (master : G2) (parent : List Scalar) (child : Scalar)
      → IsKeygenState c curve g
      → length parent < g.max_depth
      → derive_key c g t (key_of c curve g.public_key master r parent) parent child
        ≡ ok (key_of c curve g.public_key master (add_scalar r t) (parent ++ child ∷ []))
  unfolding derive_key
  derive_key-key_of g r t master parent child state deeper =
      let elements : List G2 = g.public_key.elements in
      let deep = state.deep_enough in
      let sized = state.sized in
      let (h, at, from) = drop-get_elem? elements (length parent) (omega (arith, deep, deeper)) in
      let long : length (parent ++ child ∷ []) ≡ suc (length parent) =
        omega (arith, length-append parent (child ∷ [])) in
      let bound : leb (length parent) ((g.max_depth + 2 ^ 64 - 1) % 2 ^ 64) ≡ true =
        le→leb (length parent) ((g.max_depth + 2 ^ 64 - 1) % 2 ^ 64)
          (omega (arith, sized, deeper)) in
      let sum : sum_products c g 0 zero2 (parent ++ child ∷ [])
          ≡ ok (add2 (inner_product c curve elements parent) (mul2 h child)) =
        sum_products_lem c curve g 0 zero2 (parent ++ child ∷ []) state
          (omega (arith, deep, deeper, long))
        ∙ ap ok (zero-add _ ∙ inner_product-append c curve elements parent h child at) in
      let more : add2 (inner_product c curve elements parent) (mul2 h child)
          ≡ inner_product c curve elements (parent ++ child ∷ []) =
        sym (inner_product-append c curve elements parent h child at) in
      let main_is =
        main_part c curve master (inner_product c curve elements parent) g.public_key.offset h child
          r t
        ∙ ap (λ (y : G2). add2 master (mul2 (add2 y g.public_key.offset) (add_scalar r t))) more in
      let rest_is =
        add_products-map c curve r t (drop (suc (length parent)) elements)
        ∙ ap (λ (n : ℕ). map (λ (k : G2). mul2 k (add_scalar r t)) (drop n elements)) (sym long) in
      let blind_is = sym (mul1-add_scalar g.public_key.generator r t) in
      rw
        (
          bound,
          from,
          slice_from-drop c curve (suc (length parent)) elements (omega (arith, deep, deeper)),
          sum,
        )
        (λ i. ok (record { main = main_is i; blind = blind_is i; rest = rest_is i }))

  -- A generator made by `generate` for a key with a long enough list of elements.
  pub generate-IsKeygenState :
      (max_depth : ℕ) (public_key : PublicKey c) (identities : List (List Scalar))
      (g : CachedBbgKeygen c)
      → max_depth ≤ length public_key.elements
      → max_depth < 2 ^ 64
      → generate c max_depth public_key identities ≡ ok g
      → IsKeygenState c curve g
  generate-IsKeygenState max_depth public_key identities g deep sized made =
      let (depth, same_key, cached) =
        generate-made c curve max_depth public_key identities g made in
      let elements = ap (λ (k : PublicKey c). length k.elements) same_key in
      record {
        cached = cached;
        deep_enough = omega (arith, depth, elements, deep);
        sized = omega (arith, depth, sized);
      }

  -- What the scheme gives for a name of at most `max_depth` scalars.
  abbrev pub scheme_key : ℕ → PublicKey c → G2 → Scalar → List Scalar → Outcome (PrivateKey c)
  scheme_key max_depth pk master r identity =
      ensure (leb (length identity) max_depth) identity_too_long
        (ok (key_of c curve pk master r identity))

  -- With groups as IsCurve describes them, and a public key with at least `max_depth` elements:
  -- generate_key of the generator that `generate` returns gives the key that the scheme defines for
  -- the identity and the drawn scalar, whatever products are cached, and an error if the identity
  -- is longer than `max_depth`.
  pub generate_key_lem :
      (max_depth : ℕ) (pk : PublicKey c) (identities : List (List Scalar)) (g : CachedBbgKeygen c)
      (r : Scalar) (master : G2) (identity : List Scalar)
      → max_depth ≤ length pk.elements
      → max_depth < 2 ^ 64
      → generate c max_depth pk identities ≡ ok g
      → generate_key c g r master identity ≡ scheme_key max_depth pk master r identity
  unfolding generate_key
  generate_key_lem max_depth pk identities g r master identity deep sized made =
      let (depth, same_pk, cached) = generate-made c curve max_depth pk identities g made in
      let state = generate-IsKeygenState max_depth pk identities g deep sized made in
      elim (dec_le (length identity) max_depth) [
        | yes short ↦
            generate_key-short g r master identity state (omega (arith, depth, short))
            ∙ ap (λ (q : PublicKey c). ok (key_of c curve q master r identity)) same_pk
            ∙ rw (le→leb (length identity) max_depth short) refl
        | no long ↦
            let refused : leb (length identity) max_depth ≡ false = ground (arith, long) in
            rw (depth, refused) refl
      ]

  -- With groups as IsCurve describes them, a public key with at least `max_depth` elements and a
  -- generator that `generate` returned for it: derive_key with the scalar `t` makes from the
  -- scheme's key with the scalar `r` of a name of fewer than `max_depth` scalars the scheme's key of
  -- the child with the scalar `r + t`.
  pub derive_key_lem :
      (max_depth : ℕ) (pk : PublicKey c) (identities : List (List Scalar)) (g : CachedBbgKeygen c)
      (r t : Scalar) (master : G2) (parent : List Scalar) (child : Scalar)
      → max_depth ≤ length pk.elements
      → max_depth < 2 ^ 64
      → generate c max_depth pk identities ≡ ok g
      → length parent < max_depth
      → derive_key c g t (key_of c curve pk master r parent) parent child
        ≡ ok (key_of c curve pk master (add_scalar r t) (parent ++ child ∷ []))
  derive_key_lem max_depth pk identities g r t master parent child deep sized made shorter =
      let (depth, same_pk, cached) = generate-made c curve max_depth pk identities g made in
      let state = generate-IsKeygenState max_depth pk identities g deep sized made in
      ap (λ (q : PublicKey c). derive_key c g t (key_of c curve q master r parent) parent child)
        (sym same_pk)
      ∙ derive_key-key_of g r t master parent child state (omega (arith, depth, shorter))
      ∙ ap
          (λ (q : PublicKey c).
            ok (key_of c curve q master (add_scalar r t) (parent ++ child ∷ [])))
          same_pk
