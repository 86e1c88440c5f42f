-- ===== src/Hibe/Cache.antt =====
-- The products that aimless-onions/src/hibe.rs computes in advance are those that it would compute.
use aimless_onions.Prelude.{
  ℕ, suc, ◌≡◌, refl, ap, sym, ◌∙◌, Bool-cases, inl, inr, ◌&&◌, some, List, [], ◌∷◌, All,
  Option-cases, leb, subst, drop, drop-cons, ◌==◌, ==_iff, get_elem?, length,
}
use aimless_onions.Outcome.{Outcome, ok, ensure-ok, identity_too_long, ◌>>=◌, or_panic}
use aimless_onions.Wire.{bytes_eq, bytes_eq→≡, &&-both}
use aimless_onions.Hibe.{
  Curve, IsCurve, PublicKey, CachedBbgKeygen, Products, get_product, insert_product, insert_level,
  insert_levels, generate, product,
}

module _ (c : Curve) (curve : IsCurve c) where
  open c use {Scalar, G2, mul2, to_raw}
  open curve use {raw_injective}

  -- An entry is the product of the element at its index and a scalar with its raw words.
  pub record IsProduct (elements : List G2) (e : (ℕ × List ℕ) × G2) : Type 0 where
    pub element : G2
    pub scalar : Scalar
    pub at_index : get_elem? elements e.0.0 ≡ some element
    pub has_raw : to_raw scalar ≡ e.0.1
    pub product_is : mul2 element scalar ≡ e.1

  abbrev pub AreProducts : List G2 → Products c → Type 0
  AreProducts elements = All (IsProduct elements)

  -- A look-up finds the product of the element at the index.
  get_product-of :
      (elements : List G2) (m : Products c) (i : ℕ) (s : Scalar) (p : G2)
      → AreProducts elements m
      → get_product c i (to_raw s) m ≡ some p
      → (element : G2) × (get_elem? elements i ≡ some element) × (mul2 element s ≡ p)
  unfolding get_product
  get_product-of elements [] i s p good e = cc
  get_product-of elements (((j, raw), q) ∷ m) i s p good e =
      elim (Bool-cases (j == i && bytes_eq raw (to_raw s))) [
        | inl here ↦
            let (same_index, same_raw) = &&-both (j == i) (bytes_eq raw (to_raw s)) here in
            let index : j ≡ i = (==_iff j i).0 same_index in
            let words : to_raw good.0.scalar ≡ to_raw s =
              good.0.has_raw ∙ bytes_eq→≡ raw (to_raw s) same_raw in
            let scalar : good.0.scalar ≡ s = raw_injective good.0.scalar s words in
            let first : some q ≡ some p = rw here at e in
            (
              good.0.element,
              ap (get_elem? elements) (sym index) ∙ good.0.at_index,
              ap (mul2 good.0.element) (sym scalar) ∙ good.0.product_is ∙ cc,
            )
        | inr other ↦ get_product-of elements m i s p good.1 (rw other at e)
      ]

  -- The index that is inserted at, and the product.
  insert_product-AreProducts :
      (elements : List G2) (i : ℕ) (element : G2) (s : Scalar) (m : Products c)
      → get_elem? elements i ≡ some element
      → AreProducts elements m
      → AreProducts elements (insert_product c i (to_raw s) (mul2 element s) m)
  unfolding insert_product
  insert_product-AreProducts elements i element s [] at good = (
    record { element = element; scalar = s; at_index = at; has_raw = refl; product_is = refl },
    tt,
  )
  insert_product-AreProducts elements i element s (((j, raw), q) ∷ m) at good =
      elim (Bool-cases (j == i && bytes_eq raw (to_raw s))) [
        | inl here ↦
            let (same_index, same_raw) = &&-both (j == i) (bytes_eq raw (to_raw s)) here in
            let entry : IsProduct elements ((j, raw), mul2 element s) = record {
              element = element;
              scalar = s;
              at_index = ap (get_elem? elements) ((==_iff j i).0 same_index) ∙ at;
              has_raw = sym (bytes_eq→≡ raw (to_raw s) same_raw);
              product_is = refl;
            } in
            rw here (entry, good.1)
        | inr other ↦ rw other (good.0, insert_product-AreProducts elements i element s m at good.1)
      ]

  insert_level-AreProducts :
      (elements : List G2) (i : ℕ) (element : G2) (level : List Scalar) (m : Products c)
      → get_elem? elements i ≡ some element
      → AreProducts elements m
      → AreProducts elements (insert_level c i element level m)
  unfolding insert_level
  insert_level-AreProducts elements i element [] m at good = good
  insert_level-AreProducts elements i element (s ∷ level) m at good =
      insert_level-AreProducts elements i element level
        (insert_product c i (to_raw s) (mul2 element s) m) at
        (insert_product-AreProducts elements i element s m at good)

  -- The elements from index `i` on are those of `rest`.
  insert_levels-AreProducts :
      (elements : List G2) (i : ℕ) (rest : List G2) (levels : List (List Scalar)) (m : Products c)
      → drop i elements ≡ rest
      → AreProducts elements m
      → AreProducts elements (insert_levels c i rest levels m)
  unfolding insert_levels
  insert_levels-AreProducts elements i [] levels m from good = good
  insert_levels-AreProducts elements i (h ∷ rest) [] m from good = good
  insert_levels-AreProducts elements i (h ∷ rest) (level ∷ levels) m from good =
      let (at, deeper) = drop-cons elements i from in
      insert_levels-AreProducts elements (suc i) rest levels (insert_level c i h level m) deeper
        (insert_level-AreProducts elements i h level m at good)

  -- The product of an element and a scalar as it is defined.
  abbrev pub plain_product : List G2 → ℕ → Scalar → Outcome G2
  plain_product elements index s =
      or_panic (get_elem? elements index) >>= λ element. ok (mul2 element s)

  pub product-plain :
      (g : CachedBbgKeygen c) (index : ℕ) (s : Scalar)
      → AreProducts g.public_key.elements g.products
      → product c g index s ≡ plain_product g.public_key.elements index s
  unfolding product
  product-plain g index s good = elim (Option-cases (get_product c index (to_raw s) g.products)) [
    | inr found ↦
        let (element, at, is) =
          get_product-of g.public_key.elements g.products index s found.0 good found.1 in
        rw (found.1, product, at, is)
    | inl missing ↦ rw (missing, product) refl
  ]

  pub generate-made :
      (max_depth : ℕ) (public_key : PublicKey c) (identities : List (List Scalar))
      (g : CachedBbgKeygen c)
      → generate c max_depth public_key identities ≡ ok g
      → (g.max_depth ≡ max_depth)
        × (g.public_key ≡ public_key)
        × AreProducts g.public_key.elements g.products
  unfolding generate
  generate-made max_depth public_key identities g made =
      let cached : CachedBbgKeygen c = record {
        max_depth = max_depth;
        products = insert_levels c 0 public_key.elements identities [];
        public_key = public_key;
      } in
      let is : ok cached ≡ ok g =
        (ensure-ok (leb (length identities) max_depth) identity_too_long (ok cached) g made).1 in
      let same : cached ≡ g = cc in
      subst
        (λ (k : CachedBbgKeygen c).
          (k.max_depth ≡ max_depth)
          × (k.public_key ≡ public_key)
          × AreProducts k.public_key.elements k.products)
        same
        (
          refl,
          refl,
          insert_levels-AreProducts public_key.elements 0 public_key.elements identities [] refl tt,
        )
