-- ===== src/Maps.antt =====
-- A `HashMap` whose keys are byte arrays, as a list of entries with different keys.
pub mod Once
use aimless_onions.Prelude.{
  ◌≡◌, refl, Bool, true, false, Bool-cases, inl, inr, Option, none, some, List, [], ◌∷◌, All,
  if◌then◌else◌,
}
use aimless_onions.Wire.{Bytes, bytes_eq, bytes_eq_refl, bytes_eq→≡}

module _ {ℓ} {A : Type ℓ} where
  unfoldable pub lookup : Bytes → List (Bytes × A) → Option A
  lookup k [] = none
  lookup k ((k', v) ∷ m) = if bytes_eq k' k then some v else lookup k m

  -- A value in the place of the one with this key, or at the end.
  unfoldable pub insert : Bytes → A → List (Bytes × A) → List (Bytes × A)
  insert k v [] = (k, v) ∷ []
  insert k v ((k', w) ∷ m) =
      let rest = insert k v m in if bytes_eq k' k then (k', v) ∷ m else (k', w) ∷ rest

  abbrev pub keys : List (Bytes × A) → List Bytes
  keys [] = []
  keys ((k, v) ∷ m) = k ∷ keys m

  abbrev pub values : List (Bytes × A) → List A
  values [] = []
  values ((k, v) ∷ m) = v ∷ values m

-- The keys after an insertion, which do not depend on the values.
unfoldable pub insert_key : Bytes → List Bytes → List Bytes
insert_key k [] = k ∷ []
insert_key k (k' ∷ ks) = let rest = insert_key k ks in if bytes_eq k' k then k' ∷ ks else k' ∷ rest

unfoldable pub has_key : Bytes → List Bytes → Bool
has_key k [] = false
has_key k (k' ∷ ks) = if bytes_eq k' k then true else has_key k ks

module _ {ℓ} {A : Type ℓ} where
  pub keys-insert :
      (k : Bytes) (v : A) (m : List (Bytes × A)) → keys (insert k v m) ≡ insert_key k (keys m)
  unfolding insert insert_key
  keys-insert k v [] = refl
  keys-insert k v ((k', w) ∷ m) = elim (Bool-cases (bytes_eq k' k)) [
    | inl e ↦ rw e
    | inr e ↦ rw (e, keys-insert k v m)
  ]

  pub lookup-has_key :
      (k : Bytes) (m : List (Bytes × A))
      → has_key k (keys m) ≡ true
      → (v : A) × (lookup k m ≡ some v)
  unfolding lookup has_key
  lookup-has_key k [] h = cc
  lookup-has_key k ((k', w) ∷ m) h = elim (Bool-cases (bytes_eq k' k)) [
    | inl e ↦ (w, rw e)
    | inr e ↦ rw e (lookup-has_key k m (rw e at h))
  ]

  pub insert-All {κ} :
      (P : Bytes × A → Type κ) (k : Bytes) (v : A) (m : List (Bytes × A))
      → P (k, v)
      → All P m
      → All P (insert k v m)
  unfolding insert
  insert-All P k v [] here rest = (here, tt)
  insert-All P k v ((k', w) ∷ m) here rest = elim (Bool-cases (bytes_eq k' k)) [
    | inl e ↦ rw (e, bytes_eq→≡ k' k e) (here, rest.1)
    | inr e ↦ rw e (rest.0, insert-All P k v m here rest.1)
  ]

pub has_key-insert_key : (k : Bytes) (ks : List Bytes) → has_key k (insert_key k ks) ≡ true
unfolding insert_key has_key
has_key-insert_key k [] = rw (bytes_eq_refl k)
has_key-insert_key k (k' ∷ ks) = elim (Bool-cases (bytes_eq k' k)) [
  | inl e ↦ rw e (rw e)
  | inr e ↦ rw e (rw (e, has_key-insert_key k ks))
]
