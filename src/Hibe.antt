-- ===== src/Hibe.antt =====
-- aimless-onions/src/hibe.rs: generation of keys of the scheme of Boneh, Boyen and Goh with products
-- that are computed in advance. The scalars and groups of bls12_381_plus are the parameter `Curve`;
-- the conversions between projective and affine points are left out, and `Scalar::random` is the
-- argument that stands for the drawn scalar.
pub mod Cache
pub mod Scheme
pub mod Keys
pub mod Tests
use aimless_onions.Prelude.{
  ℕ, zero, suc, ◌+◌, ◌-◌, ◌%◌, ◌^◌, ◌≡◌, Bool, true, false, ◌&&◌, Option, none, some, List, [], ◌∷◌,
  ◌++◌, map, length, drop, leb, ltb, if◌then◌else◌, ◌==◌, get_elem?,
}
use aimless_onions.Outcome.{
  Outcome, ok, err, panic, identity_too_long, ◌>>=◌, or_panic, assert, ensure,
}
use aimless_onions.Wire.{bytes_eq}

-- `[u64; 4]`
abbrev pub RawScalar : Type 0
RawScalar = List ℕ

pub record Curve : Type 1 where
  pub Scalar : Type 0
  pub G1 : Type 0
  pub G2 : Type 0
  pub add_scalar : Scalar → Scalar → Scalar
  pub add1 : G1 → G1 → G1
  pub mul1 : G1 → Scalar → G1
  pub zero2 : G2
  pub add2 : G2 → G2 → G2
  pub mul2 : G2 → Scalar → G2
  -- `Scalar::to_raw`
  pub to_raw : Scalar → RawScalar

-- The laws of the groups, which are written additively, and that the raw words name the scalar.
pub record IsCurve (c : Curve) : Type 0 where
  pub zero-add : (a : c.G2) → c.add2 c.zero2 a ≡ a
  pub add_assoc : (x y z : c.G2) → c.add2 (c.add2 x y) z ≡ c.add2 x (c.add2 y z)
  pub add_comm : (x y : c.G2) → c.add2 x y ≡ c.add2 y x
  pub mul-add :
      (x y : c.G2) (s : c.Scalar) → c.mul2 (c.add2 x y) s ≡ c.add2 (c.mul2 x s) (c.mul2 y s)
  pub mul-add_scalar :
      (x : c.G2) (s t : c.Scalar) → c.mul2 x (c.add_scalar s t) ≡ c.add2 (c.mul2 x s) (c.mul2 x t)
  pub mul_comm : (x : c.G2) (s t : c.Scalar) → c.mul2 (c.mul2 x s) t ≡ c.mul2 (c.mul2 x t) s
  pub mul1-add_scalar :
      (x : c.G1) (s t : c.Scalar) → c.mul1 x (c.add_scalar s t) ≡ c.add1 (c.mul1 x s) (c.mul1 x t)
  pub raw_injective : (s t : c.Scalar) → c.to_raw s ≡ c.to_raw t → s ≡ t

-- `&xs[n..]`
abbrev pub slice_from {ℓ} : {A : Type ℓ} → ℕ → List A → Outcome (List A)
slice_from n xs = assert (leb n (length xs)) (ok (drop n xs))

module _ (c : Curve) where
  open c use {Scalar, G1, G2, add1, mul1, zero2, add2, mul2, to_raw}

  -- The parts of the tuple that the code reads: 0, 3 and 4.
  pub record PublicKey : Type 0 where
    pub generator : G1
    pub offset : G2
    pub elements : List G2

  -- The key of a name: a tuple of three.
  pub record PrivateKey : Type 0 where
    pub main : G2
    pub blind : G1
    pub rest : List G2

  abbrev pub Products : Type 0
  Products = List ((ℕ × RawScalar) × G2)

  pub record CachedBbgKeygen : Type 0 where
    pub max_depth : ℕ
    pub products : Products
    pub public_key : PublicKey

  -- The hash map of the products, by index and raw words.
  unfoldable pub get_product : ℕ → List ℕ → Products → Option G2
  get_product i raw [] = none
  get_product i raw (((j, raw'), p) ∷ m) =
      if j == i && bytes_eq raw' raw then some p else get_product i raw m

  unfoldable pub insert_product : ℕ → List ℕ → G2 → Products → Products
  insert_product i raw p [] = ((i, raw), p) ∷ []
  insert_product i raw p (((j, raw'), q) ∷ m) =
      let rest = insert_product i raw p m in
      if j == i && bytes_eq raw' raw then ((j, raw'), p) ∷ m else ((j, raw'), q) ∷ rest

  -- The two loops of `generate`.
  unfoldable pub insert_level : ℕ → G2 → List Scalar → Products → Products
  insert_level i element [] m = m
  insert_level i element (identity ∷ identities) m =
      insert_level i element identities
        (insert_product i (to_raw identity) (mul2 element identity) m)

  unfoldable pub insert_levels : ℕ → List G2 → List (List Scalar) → Products → Products
  insert_levels i [] levels m = m
  insert_levels i (element ∷ elements) [] m = m
  insert_levels i (element ∷ elements) (level ∷ levels) m =
      insert_levels (suc i) elements levels (insert_level i element level m)

  unfoldable pub generate : ℕ → PublicKey → List (List Scalar) → Outcome CachedBbgKeygen
  generate max_depth public_key identities =
      ensure (leb (length identities) max_depth) identity_too_long (
        ok (record {
          max_depth = max_depth;
          products = insert_levels 0 public_key.elements identities [];
          public_key = public_key;
        }))

  unfoldable pub product : CachedBbgKeygen → ℕ → Scalar → Outcome G2
  product g index identity = elim (get_product index (to_raw identity) g.products) [
    | some p ↦ ok p
    | none ↦ do
      element ← or_panic (get_elem? g.public_key.elements index)
      ok (mul2 element identity)
  ]

  -- `enumerate`, `map` and `sum` over the elements of an identity.
  unfoldable pub sum_products : CachedBbgKeygen → ℕ → G2 → List Scalar → Outcome G2
  sum_products g i acc [] = ok acc
  sum_products g i acc (elem ∷ elems) = do
    p ← product g i elem
    sum_products g (suc i) (add2 acc p) elems

  unfoldable pub generate_key : CachedBbgKeygen → Scalar → G2 → List Scalar → Outcome PrivateKey
  generate_key g r master_key identity =
      ensure (leb (length identity) g.max_depth) identity_too_long (do
        total ← sum_products g 0 zero2 identity
        deeper ← slice_from (length identity) g.public_key.elements
        ok (record {
          main = add2 master_key (mul2 (add2 total g.public_key.offset) r);
          blind = mul1 g.public_key.generator r;
          rest = map (λ (h : G2). mul2 h r) deeper;
        }))

  -- `*b = *b + h * t` over two lists in step.
  unfoldable pub add_products : Scalar → List G2 → List G2 → List G2
  add_products t [] hs = []
  add_products t (b ∷ bs) [] = b ∷ bs
  add_products t (b ∷ bs) (h ∷ hs) = add2 b (mul2 h t) ∷ add_products t bs hs

  -- `remove(0)`
  abbrev pub remove_first : List G2 → Option (G2 × List G2)
  remove_first [] = none
  remove_first (h ∷ hs) = some (h, hs)

  -- The bound is `max_depth - 1` in usize, which wraps around for 0.
  unfoldable pub derive_key :
      CachedBbgKeygen → Scalar → PrivateKey → List Scalar → Scalar → Outcome PrivateKey
  derive_key g t parent_key parent_name child =
      ensure (leb (length parent_name) ((g.max_depth + 2 ^ 64 - 1) % 2 ^ 64)) identity_too_long (do
        (first, others) ← or_panic (remove_first parent_key.rest)
        deeper ← slice_from (suc (length parent_name)) g.public_key.elements
        total ← sum_products g 0 zero2 (parent_name ++ child ∷ [])
        ok (record {
          main =
              add2 (add2 parent_key.main (mul2 first child))
                (mul2 (add2 total g.public_key.offset) t);
          blind = add1 parent_key.blind (mul1 g.public_key.generator t);
          rest = add_products t others deeper;
        }))
