-- ===== src/Maps/Once.antt =====
-- Maps with one entry for each key.
use aimless_onions.Prelude.{
  ◌≡◌, refl, sym, ◌∙◌, subst, false, Bool-cases, inl, inr, some, List, [], ◌∷◌, All, arith,
}
use aimless_onions.Wire.{Bytes, bytes_eq, bytes_eq_refl, bytes_eq→≡}
use aimless_onions.Maps.{lookup, insert, keys, has_key, insert_key, keys-insert}

pub bytes_eq_comm : (xs ys : Bytes) → bytes_eq xs ys ≡ bytes_eq ys xs
unfolding bytes_eq
bytes_eq_comm [] [] = refl
bytes_eq_comm [] (y ∷ ys) = refl
bytes_eq_comm (x ∷ xs) [] = refl
bytes_eq_comm (x ∷ xs) (y ∷ ys) = ground (arith, bytes_eq_comm xs ys)

-- Each key has one entry.
abbrev pub AreOnce : List Bytes → Type 0
AreOnce [] = Unit {0}
AreOnce (k ∷ ks) = (has_key k ks ≡ false) × AreOnce ks

has_key-insert_other :
    (k k' : Bytes) (ks : List Bytes)
    → bytes_eq k k' ≡ false
    → has_key k' (insert_key k ks) ≡ has_key k' ks
unfolding insert_key has_key
has_key-insert_other k k' [] other = rw other
has_key-insert_other k k' (j ∷ ks) other = elim (Bool-cases (bytes_eq j k)) [
  | inl e ↦ rw e
  | inr e ↦ rw (e, has_key-insert_other k k' ks other)
]

insert_key-AreOnce : (k : Bytes) (ks : List Bytes) → AreOnce ks → AreOnce (insert_key k ks)
unfolding insert_key has_key
insert_key-AreOnce k [] once = (refl, tt)
insert_key-AreOnce k (j ∷ ks) once = elim (Bool-cases (bytes_eq j k)) [
  | inl e ↦ rw e once
  | inr e ↦ rw e (
    has_key-insert_other k j ks ((bytes_eq_comm k j ∙ e)) ∙ once.0,
    insert_key-AreOnce k ks once.1,
  )
]

module _ {ℓ} {A : Type ℓ} where
  pub insert-AreOnce :
      (k : Bytes) (v : A) (m : List (Bytes × A)) → AreOnce (keys m) → AreOnce (keys (insert k v m))
  insert-AreOnce k v m once = rw (keys-insert k v m) (insert_key-AreOnce k (keys m) once)

  pub lookup-insert_self :
      (k : Bytes) (v : A) (m : List (Bytes × A)) → lookup k (insert k v m) ≡ some v
  unfolding lookup insert
  lookup-insert_self k v [] = rw (bytes_eq_refl k)
  lookup-insert_self k v ((j, w) ∷ m) = elim (Bool-cases (bytes_eq j k)) [
    | inl e ↦ rw e (rw e)
    | inr e ↦ rw e (rw (e, lookup-insert_self k v m))
  ]

  pub lookup-insert_other :
      (k k' : Bytes) (v : A) (m : List (Bytes × A))
      → bytes_eq k k' ≡ false
      → lookup k' (insert k v m) ≡ lookup k' m
  unfolding lookup insert
  lookup-insert_other k k' v [] other = rw other
  lookup-insert_other k k' v ((j, w) ∷ m) other = elim (Bool-cases (bytes_eq j k)) [
    | inl e ↦
        let other' : bytes_eq j k' ≡ false =
          subst (λ (t : Bytes). bytes_eq t k' ≡ false) (sym (bytes_eq→≡ j k e)) other in
        rw (e, lookup) (rw other')
    | inr e ↦ rw (e, lookup-insert_other k k' v m other)
  ]

  lookup-later :
      (k : Bytes) (v : A) (m n : List (Bytes × A))
      → has_key k (keys m) ≡ false
      → All (λ (e : Bytes × A). lookup e.0 n ≡ some e.1) m
      → All (λ (e : Bytes × A). lookup e.0 ((k, v) ∷ n) ≡ some e.1) m
  unfolding lookup has_key
  lookup-later k v [] n missing found = tt
  lookup-later k v ((j, w) ∷ m) n missing found = elim (Bool-cases (bytes_eq j k)) [
    | inl e ↦ cc (rw e at missing)
    | inr e ↦ (rw (bytes_eq_comm k j ∙ e) found.0, lookup-later k v m n (rw e at missing) found.1)
  ]

  -- Every entry is the one that is found under its key.
  pub lookup-AreOnce :
      (m : List (Bytes × A)) → AreOnce (keys m) → All (λ (e : Bytes × A). lookup e.0 m ≡ some e.1) m
  unfolding lookup
  lookup-AreOnce [] once = tt
  lookup-AreOnce ((k, v) ∷ m) once =
      (rw (bytes_eq_refl k), lookup-later k v m m once.0 (lookup-AreOnce m once.1))
