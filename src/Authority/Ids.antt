-- ===== src/Authority/Ids.antt =====
-- The ids of requests by which `allocate` of aimless-onions/src/bin/authority.rs finds the relays' keys.
use aimless_onions.Prelude.{
  ℕ, ◌≡◌, sym, subst, true, Bool-cases, inl, inr, some, List, [], ◌∷◌, All, ◌==◌, ==_iff,
}
use aimless_onions.Outcome.{ok, ok_injective, bind-ok, or_panic, or_panic-ok}
use aimless_onions.ApiTypes.{RelayKey}
use aimless_onions.Maps.{insert, keys, has_key, insert-All}
use aimless_onions.Maps.Once.{AreOnce, insert-AreOnce}
use aimless_onions.Allocation.{AllocationRequest, Allocation}
use aimless_onions.Authority.{insert_id, lookup_id, reverse_keys, insert_allocations}

module _ (P : ℕ → RelayKey → Type 0) where
  -- Every id leads to a key that fits it.
  abbrev pub AreIds : List (ℕ × RelayKey) → Type 0
  AreIds = All (λ (e : ℕ × RelayKey). P e.0 e.1)

  insert_id-AreIds :
      (i : ℕ) (k : RelayKey) (m : List (ℕ × RelayKey)) → P i k → AreIds m → AreIds (insert_id i k m)
  unfolding insert_id
  insert_id-AreIds i k [] good rest = (good, tt)
  insert_id-AreIds i k ((j, k') ∷ m) good rest = elim (Bool-cases (j == i)) [
    | inl e ↦ rw e (subst (λ (t : ℕ). P t k) (sym ((==_iff j i).0 e)) good, rest.1)
    | inr e ↦ rw e (rest.0, insert_id-AreIds i k m good rest.1)
  ]

  pub reverse_keys-AreIds :
      (rs : List (RelayKey × AllocationRequest)) (m : List (ℕ × RelayKey))
      → All (λ (e : RelayKey × AllocationRequest). P e.1.id e.0) rs
      → AreIds m
      → AreIds (reverse_keys rs m)
  unfolding reverse_keys
  reverse_keys-AreIds [] m good ids = ids
  reverse_keys-AreIds ((key, req) ∷ rs) m good ids =
      reverse_keys-AreIds rs (insert_id req.id key m) good.1
        (insert_id-AreIds req.id key m good.0 ids)

  pub lookup_id-AreIds :
      (i : ℕ) (m : List (ℕ × RelayKey)) (k : RelayKey) → AreIds m → lookup_id i m ≡ some k → P i k
  unfolding lookup_id
  lookup_id-AreIds i [] k ids e = cc
  lookup_id-AreIds i ((j, k') ∷ m) k ids e = elim (Bool-cases (j == i)) [
    | inl here ↦
        let same : some k' ≡ some k = rw here at e in
        let keys_are : k' ≡ k = cc in
        subst (λ (t : ℕ). P t k) ((==_iff j i).0 here) (subst (P j) keys_are ids.0)
    | inr other ↦ lookup_id-AreIds i m k ids.1 (rw other at e)
  ]

abbrev pub Registered : List RelayKey → ℕ → RelayKey → Type 0
Registered registered i k = has_key k registered ≡ true

module _ (registered : List RelayKey) where
  pub insert_allocations-registered :
      (m : List (ℕ × RelayKey)) (as' : List Allocation) (acc result : List (RelayKey × Allocation))
      → AreIds (Registered registered) m
      → insert_allocations m as' acc ≡ ok result
      → All (λ (e : RelayKey × Allocation). has_key e.0 registered ≡ true) acc
      → All (λ (e : RelayKey × Allocation). has_key e.0 registered ≡ true) result
  unfolding insert_allocations
  insert_allocations-registered m [] acc result ids e good =
      let same : acc ≡ result = cc in
      subst (All (λ (e : RelayKey × Allocation). has_key e.0 registered ≡ true)) same good
  insert_allocations-registered m (a ∷ as') acc result ids e good =
      let (k, found, e1) = bind-ok (or_panic (lookup_id a.id m)) _ result e in
      let known =
        lookup_id-AreIds (Registered registered) a.id m k ids
          (or_panic-ok (lookup_id a.id m) k found) in
      insert_allocations-registered m as' (insert k a acc) result ids e1 (
        insert-All (λ (e : RelayKey × Allocation). has_key e.0 registered ≡ true) k a acc known
          good)

-- The keys of the result are different, and what holds of the allocations holds of its entries.
pub insert_allocations-AreOnce :
    (m : List (ℕ × RelayKey)) (as' : List Allocation) (acc result : List (RelayKey × Allocation))
    → insert_allocations m as' acc ≡ ok result
    → AreOnce (keys acc)
    → AreOnce (keys result)
unfolding insert_allocations
insert_allocations-AreOnce m [] acc result e once =
    subst (λ (t : List (RelayKey × Allocation)). AreOnce (keys t)) (ok_injective e) once
insert_allocations-AreOnce m (a ∷ as') acc result e once =
    let (k, found, e1) = bind-ok (or_panic (lookup_id a.id m)) _ result e in
    insert_allocations-AreOnce m as' (insert k a acc) result e1 (insert-AreOnce k a acc once)

pub insert_allocations-All :
    (P : Allocation → Type 0) (m : List (ℕ × RelayKey)) (as' : List Allocation)
    (acc result : List (RelayKey × Allocation))
    → insert_allocations m as' acc ≡ ok result
    → All P as'
    → All (λ (e : RelayKey × Allocation). P e.1) acc
    → All (λ (e : RelayKey × Allocation). P e.1) result
unfolding insert_allocations
insert_allocations-All P m [] acc result e good kept =
    subst (All (λ (e : RelayKey × Allocation). P e.1)) (ok_injective e) kept
insert_allocations-All P m (a ∷ as') acc result e good kept =
    let (k, found, e1) = bind-ok (or_panic (lookup_id a.id m)) _ result e in
    insert_allocations-All P m as' (insert k a acc) result e1 good.1
      (insert-All (λ (e : RelayKey × Allocation). P e.1) k a acc good.0 kept)
