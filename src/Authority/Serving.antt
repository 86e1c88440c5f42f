-- ===== src/Authority/Serving.antt =====
-- What the authority of aimless-onions/src/bin/authority.rs answers after an allocation.
use aimless_onions.Prelude.{
  ℕ, ◌≡◌, refl, ap, sym, ◌∙◌, Bool, true, false, Bool-cases, ◌⊎◌, inl, inr, ◌||◌, Option, none,
  some, List, [], ◌∷◌, ◌++◌, All, ◌==◌, ==_iff, subst,
}
use aimless_onions.Outcome.{ok}
use aimless_onions.ApiTypes.{RelayKey, Address}
use aimless_onions.Wire.{bytes_eq, bytes_eq_refl}
use aimless_onions.NodeName.{NodeName, number}
use aimless_onions.Maps.{lookup, insert, keys, values, has_key, lookup-has_key, insert-All}
use aimless_onions.Allocation.{AllocationRequest, Allocation, has_id}
use aimless_onions.Allocation.Loop.{has_request}
use aimless_onions.Allocation.Shares.{IsWeighted, allocate_total, allocate_entries}
use aimless_onions.Authority.{
  InnerRequests, InnerAllocations, no_requests, Bbg, insert_id, lookup_id, reverse_keys,
  insert_allocations, any_contains, find_address, get_address, allocate_epoch,
}
use aimless_onions.Authority.Registry.{IsRegistry}

pub or_true : (a : Bool) → (a || true) ≡ true
or_true true = refl
or_true false = refl

-- A property of the keys of a map is one of its entries, and of the ids of allocations one of these.
pub All-has_key {ℓ} :
    {A : Type ℓ} (P : RelayKey → Type 0) (m : List (RelayKey × A))
    → ((k : RelayKey) → has_key k (keys m) ≡ true → P k)
    → All (λ (e : RelayKey × A). P e.0) m
unfolding has_key
All-has_key P [] h = tt
All-has_key P ((k, v) ∷ m) h = (
  h k (rw (bytes_eq_refl k)),
  All-has_key P m
      (λ k' here. h k' (elim (Bool-cases (bytes_eq k k')) [ inl e ↦ rw e | inr e ↦ rw e here ])),
)

All-has_id :
    (P : ℕ → Type 0) (as' : List Allocation)
    → ((i : ℕ) → has_id i as' ≡ true → P i)
    → All (λ a. P a.id) as'
unfolding has_id
All-has_id P [] h = tt
All-has_id P (a ∷ as') h = (
  h a.id (rw ((==_iff a.id a.id).1 refl)),
  All-has_id P as' (λ i here. h i (rw here (or_true (a.id == i)))),
)

module _ (registered : List RelayKey) where
  -- The id leads to a registered key.
  abbrev pub Found : ℕ → List (ℕ × RelayKey) → Type 0
  Found i m = (k : RelayKey) × (lookup_id i m ≡ some k) × (has_key k registered ≡ true)

  insert_id-Found_here :
      (i : ℕ) (k : RelayKey) (m : List (ℕ × RelayKey))
      → has_key k registered ≡ true
      → Found i (insert_id i k m)
  unfolding insert_id lookup_id
  insert_id-Found_here i k [] good = (k, rw ((==_iff i i).1 refl), good)
  insert_id-Found_here i k ((j, k') ∷ m) good = elim (Bool-cases (j == i)) [
    | inl e ↦ rw e (k, rw e, good)
    | inr e ↦
        rw e (let (k'', found, good') = insert_id-Found_here i k m good in (k'', rw e found, good'))
  ]

  insert_id-Found :
      (i j : ℕ) (k : RelayKey) (m : List (ℕ × RelayKey))
      → has_key k registered ≡ true
      → Found i m
      → Found i (insert_id j k m)
  unfolding insert_id lookup_id
  insert_id-Found i j k [] good found = cc
  insert_id-Found i j k ((j', k') ∷ m) good found = elim (Bool-cases (j' == j)) [
    | inl e ↦ rw e (elim (Bool-cases (j' == i)) [
      | inl e' ↦ (k, rw e', good)
      | inr e' ↦ (found.0, rw e' (rw e' at found.1), found.2)
    ])
    | inr e ↦ rw e (elim (Bool-cases (j' == i)) [
      | inl e' ↦ (found.0, rw e' (rw e' at found.1), found.2)
      | inr e' ↦
          let (k'', found_is, good') =
            insert_id-Found i j k m good (found.0, rw e' at found.1, found.2) in
          (k'', rw e' found_is, good')
    ])
  ]

  pub reverse_keys-Found :
      (i : ℕ) (rs : List (RelayKey × AllocationRequest)) (m : List (ℕ × RelayKey))
      → All (λ (e : RelayKey × AllocationRequest). has_key e.0 registered ≡ true) rs
      → (has_request i (values rs) ≡ true) ⊎ Found i m
      → Found i (reverse_keys rs m)
  unfolding reverse_keys has_request
  reverse_keys-Found i [] m good (inl h) = cc
  reverse_keys-Found i [] m good (inr found) = found
  reverse_keys-Found i ((key, req) ∷ rs) m good (inr found) =
      reverse_keys-Found i rs (insert_id req.id key m) good.1
        (inr (insert_id-Found i req.id key m good.0 found))
  reverse_keys-Found i ((key, req) ∷ rs) m good (inl h) = elim (Bool-cases (req.id == i)) [
    | inl e ↦ reverse_keys-Found i rs (insert_id req.id key m) good.1 (
        inr (
          subst (λ (j : ℕ). Found j (insert_id req.id key m)) ((==_iff req.id i).0 e)
            (insert_id-Found_here req.id key m good.0)))
    | inr e ↦ reverse_keys-Found i rs (insert_id req.id key m) good.1 (inl (rw e at h))
  ]

  insert_allocations-Registered :
      (m : List (ℕ × RelayKey)) (as' : List Allocation) (acc : List (RelayKey × Allocation))
      → All (λ a. Found a.id m) as'
      → All (λ (e : RelayKey × Allocation). has_key e.0 registered ≡ true) acc
      → (result : List (RelayKey × Allocation)) × (insert_allocations m as' acc ≡ ok result)
        × All (λ (e : RelayKey × Allocation). has_key e.0 registered ≡ true) result
  unfolding insert_allocations
  insert_allocations-Registered m [] acc found good = (acc, refl, good)
  insert_allocations-Registered m (a ∷ as') acc found good =
      let (k, found_is, registered_k) = found.0 in
      let (result, steps, all_good) = insert_allocations-Registered m as' (insert k a acc) found.1 (
        insert-All (λ (e : RelayKey × Allocation). has_key e.0 registered ≡ true) k a acc
          registered_k good) in
      (result, rw found_is steps, all_good)

-- Every allocated key has an address.
abbrev pub AreRegistered : List (RelayKey × Address) → List (RelayKey × Allocation) → Type 0
AreRegistered addresses = All (λ (e : RelayKey × Allocation). has_key e.0 (keys addresses) ≡ true)

-- Whether some entry has a node over the identity.
abbrev pub any_owner : NodeName → List (RelayKey × Allocation) → Bool
any_owner x [] = false
any_owner x ((k, a) ∷ as') = any_contains x a.nodes || any_owner x as'

-- The answer of get_address: the address of an entry with a node over the identity, or none.
pub data IsAnswer (x : NodeName) (as' : List (RelayKey × Allocation))
    (addresses : List (RelayKey × Address)) : Option Address → Type 0 where
  nobody : any_owner x as' ≡ false → IsAnswer x as' addresses none
  owner :
      (before after : List (RelayKey × Allocation)) (k : RelayKey) (a : Allocation)
      (address : Address)
      → as' ≡ before ++ (k, a) ∷ after
      → any_contains x a.nodes ≡ true
      → lookup k addresses ≡ some address
      → IsAnswer x as' addresses (some address)

IsAnswer-later :
    (x : NodeName) (k : RelayKey) (a : Allocation) (as' : List (RelayKey × Allocation))
    (addresses : List (RelayKey × Address)) (r : Option Address)
    → any_contains x a.nodes ≡ false
    → IsAnswer x as' addresses r
    → IsAnswer x ((k, a) ∷ as') addresses r
IsAnswer-later x k a as' addresses none free (nobody h) = nobody (rw (free, h))
IsAnswer-later x k a as' addresses (some r) free
      (owner before after k' a' address here covers known) =
    owner ((k, a) ∷ before) after k' a' address (ap (◌∷◌ (k, a)) here) covers known

-- When every allocated key has an address, the look-up of an identity does not panic: it answers with
-- the address of an entry with a node over the identity, or with none if no entry has one.
pub find_address-IsAnswer :
    (x : NodeName) (as' : List (RelayKey × Allocation)) (addresses : List (RelayKey × Address))
    → AreRegistered addresses as'
    → (r : Option Address) × (find_address x as' addresses ≡ ok r) × IsAnswer x as' addresses r
unfolding find_address
find_address-IsAnswer x [] addresses good = (none, refl, nobody refl)
find_address-IsAnswer x ((k, a) ∷ as') addresses good =
    let (r, found, answer) = find_address-IsAnswer x as' addresses good.1 in
    let (address, known) = lookup-has_key k addresses good.0 in
    elim (Bool-cases (any_contains x a.nodes)) [
      | inl e ↦ (some address, rw (e, known), owner [] as' k a address refl e known)
      | inr e ↦ (r, rw e found, IsAnswer-later x k a as' addresses r e answer)
    ]

module _ (b : Bbg) where
  open b use {Rng}

  -- The store of allocations that an epoch starts with.
  pub record IsServing (r : InnerRequests) (a : InnerAllocations b) : Type 0 where
    pub same_addresses : a.addresses ≡ r.addresses
    pub registered : AreRegistered a.addresses a.allocations
    pub answers :
        (identity : ℕ)
        → (answer : Option Address) × (get_address b identity a ≡ ok answer)
          × IsAnswer (number identity) a.allocations a.addresses answer

  -- When the registry is in order and the weights in it have a positive total below 2 ^ 64, the
  -- allocation for an epoch does not panic: it empties the store of requests, and from the store of
  -- allocations every identity is answered without a panic, with the registered address of a relay
  -- that has a node over the identity, or with none if no relay has one.
  pub allocate_epoch-IsServing :
      (rng : Rng) (r : InnerRequests)
      → IsRegistry r
      → IsWeighted (values r.requests)
      → (a : InnerAllocations b) × (rng' : Rng) × (allocate_epoch b rng r
          ≡ ok (no_requests, a, rng'))
        × IsServing r a
  unfolding allocate_epoch get_address
  allocate_epoch-IsServing rng r registry weighted =
      let requests = values r.requests in
      let registered = keys r.addresses in
      let (allocs, allocated) = allocate_total requests weighted in
      let good : All (λ (e : RelayKey × AllocationRequest). has_key e.0 registered ≡ true)
          r.requests =
        All-has_key (λ k. has_key k registered ≡ true) r.requests
          (λ k h. subst (λ (ks : List RelayKey). has_key k ks ≡ true) registry.same_keys h) in
      let found : All (λ a. Found registered a.id (reverse_keys r.requests [])) allocs =
        All-has_id (λ i. Found registered i (reverse_keys r.requests [])) allocs
          (λ i h.
            reverse_keys-Found registered i r.requests [] good
              (inl (sym (allocate_entries requests allocs weighted allocated i) ∙ h))) in
      let (allocations, inserted, all_good) =
        insert_allocations-Registered registered (reverse_keys r.requests []) allocs [] found tt in
      let ((params, master), rng') = b.setup rng in
      (
        record {
          allocations = allocations;
          addresses = r.addresses;
          public_params = params;
          master_key = master;
        },
        rng',
        rw (allocated, inserted),
        record {
          same_addresses = refl;
          registered = all_good;
          answers =
              λ identity. find_address-IsAnswer (number identity) allocations r.addresses all_good;
        },
      )
