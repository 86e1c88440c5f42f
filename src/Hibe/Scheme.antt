-- ===== src/Hibe/Scheme.antt =====
-- The scheme of Boneh, Boyen and Goh that aimless-onions/src/hibe.rs implements, and its sums.
use aimless_onions.Prelude.{
  ℕ, suc, ◌+◌, ◌^◌, ◌≤◌, ◌<◌, ◌≡◌, refl, ap, sym, ◌∙◌, arith, List, [], ◌∷◌, ◌++◌, map, some,
  get_elem?, length, drop, drop-get_elem?, le→leb,
}
use aimless_onions.Outcome.{ok}
use aimless_onions.Hibe.{
  Curve, IsCurve, PublicKey, PrivateKey, CachedBbgKeygen, product, sum_products, add_products,
  slice_from,
}
use aimless_onions.Hibe.Cache.{AreProducts, product-plain}

module _ (c : Curve) (curve : IsCurve c) where
  open c use {Scalar, G1, G2, add_scalar, add1, mul1, zero2, add2, mul2}
  open curve use {zero-add, add_assoc, add_comm, mul-add, mul-add_scalar, mul_comm, mul1-add_scalar}

  -- The products of elements and scalars, added up.
  abbrev pub inner_product : List G2 → List Scalar → G2
  inner_product hs [] = zero2
  inner_product [] (s ∷ ss) = zero2
  inner_product (h ∷ hs) (s ∷ ss) = add2 (mul2 h s) (inner_product hs ss)

  -- The key of a name in the scheme, made with the random scalar `r`.
  abbrev pub key_of : PublicKey c → G2 → Scalar → List Scalar → PrivateKey c
  key_of pk master r identity = record {
    main = add2 master (mul2 (add2 (inner_product pk.elements identity) pk.offset) r);
    blind = mul1 pk.generator r;
    rest = map (λ (h : G2). mul2 h r) (drop (length identity) pk.elements);
  }

  -- A generator with true products whose names are no longer than the public key allows.
  pub record IsKeygenState (g : CachedBbgKeygen c) : Type 0 where
    pub cached : AreProducts c curve g.public_key.elements g.products
    pub deep_enough : g.max_depth ≤ length g.public_key.elements
    pub sized : g.max_depth < 2 ^ 64

  add-zero : (a : G2) → add2 a zero2 ≡ a
  add-zero a = add_comm a zero2 ∙ zero-add a

  pub sum_products_lem :
      (g : CachedBbgKeygen c) (i : ℕ) (acc : G2) (elems : List Scalar)
      → IsKeygenState g
      → i + length elems ≤ length g.public_key.elements
      → sum_products c g i acc elems
        ≡ ok (add2 acc (inner_product (drop i g.public_key.elements) elems))
  unfolding sum_products
  sum_products_lem g i acc [] state fits = ap ok (sym (add-zero acc))
  sum_products_lem g i acc (s ∷ elems) state fits =
      let (h, at, from) = drop-get_elem? g.public_key.elements i (omega (arith, fits)) in
      let here : product c g i s ≡ ok (mul2 h s) =
        product-plain c curve g i s state.cached ∙ rw at refl in
      let later =
        sum_products_lem g (suc i) (add2 acc (mul2 h s)) elems state (omega (arith, fits)) in
      let joined =
        add_assoc acc (mul2 h s) (inner_product (drop (suc i) g.public_key.elements) elems) in
      rw (here, from) (later ∙ ap ok joined)

  pub slice_from-drop : (n : ℕ) (xs : List G2) → n ≤ length xs → slice_from n xs ≡ ok (drop n xs)
  slice_from-drop n xs within = rw (le→leb n (length xs) within)

  -- One more digit adds one more product.
  pub inner_product-append :
      (hs : List G2) (ss : List Scalar) (h : G2) (s : Scalar)
      → get_elem? hs (length ss) ≡ some h
      → inner_product hs (ss ++ s ∷ []) ≡ add2 (inner_product hs ss) (mul2 h s)
  inner_product-append [] [] h s at = cc
  inner_product-append [] (t ∷ ss) h s at = cc
  inner_product-append (k ∷ hs) [] h s at =
      let same : k ≡ h = cc in
      ap (λ (x : G2). add2 (mul2 x s) zero2) same ∙ add_comm (mul2 h s) zero2
  inner_product-append (k ∷ hs) (t ∷ ss) h s at =
      ap (add2 (mul2 k t)) (inner_product-append hs ss h s at)
      ∙ sym (add_assoc (mul2 k t) (inner_product hs ss) (mul2 h s))

  pub add_products-map :
      (r t : Scalar) (hs : List G2)
      → add_products c t (map (λ (h : G2). mul2 h r) hs) hs
        ≡ map (λ (h : G2). mul2 h (add_scalar r t)) hs
  unfolding add_products
  add_products-map r t [] = refl
  add_products-map r t (h ∷ hs) = rw (mul-add_scalar h r t, add_products-map r t hs) refl

  -- What `derive_key` adds to the main part of a key.
  pub main_part :
      (master sum offset h : G2) (child r t : Scalar)
      → add2
          (add2 (add2 master (mul2 (add2 sum offset) r)) (mul2 (mul2 h r) child))
          (mul2 (add2 (add2 sum (mul2 h child)) offset) t)
        ≡ add2 master (mul2 (add2 (add2 sum (mul2 h child)) offset) (add_scalar r t))
  main_part master sum offset h child r t =
      let x : G2 = add2 (add2 sum (mul2 h child)) offset in
      let swap : add2 (add2 sum offset) (mul2 h child) ≡ x =
        add_assoc sum offset (mul2 h child)
        ∙ ap (add2 sum) (add_comm offset (mul2 h child))
        ∙ sym (add_assoc sum (mul2 h child) offset) in
      let blinded : add2 (mul2 (add2 sum offset) r) (mul2 (mul2 h r) child) ≡ mul2 x r =
        ap (add2 (mul2 (add2 sum offset) r)) (mul_comm h r child)
        ∙ sym (mul-add (add2 sum offset) (mul2 h child) r)
        ∙ ap (λ (y : G2). mul2 y r) swap in
      ap (λ (y : G2). add2 y (mul2 x t))
        (add_assoc master (mul2 (add2 sum offset) r) (mul2 (mul2 h r) child)
          ∙ ap (add2 master) blinded)
      ∙ add_assoc master (mul2 x r) (mul2 x t)
      ∙ ap (add2 master) (sym (mul-add_scalar x r t))
