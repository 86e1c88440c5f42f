-- ===== src/Authority/Shares.antt =====
-- Which part of the identities a relay holds after `allocate_epoch` of
-- aimless-onions/src/bin/authority.rs.
use aimless_onions.Prelude.{
  ℕ, ◌*◌, ◌/◌, ◌^◌, ◌≡◌, ◌≢◌, refl, sym, ap, ◌∙◌, subst, arith, Bool-cases, inl, inr, true, false,
  ◌⊎◌, none, some, List, [], ◌∷◌, All, ◌==◌, ==_iff, sum_by, if◌then◌else◌,
}
use mathlib.Core.Option.{some-injective}
use aimless_onions.Outcome.{ok, ok_injective, bind-ok, or_panic, or_panic-ok}
use aimless_onions.ApiTypes.{RelayKey}
use aimless_onions.Wire.{bytes_eq, bytes_eq→≡}
use aimless_onions.Maps.{lookup, insert, keys, values, has_key}
use aimless_onions.Maps.Once.{lookup-AreOnce, lookup-insert_self, lookup-insert_other}
use aimless_onions.Allocation
use aimless_onions.Allocation.{AllocationRequest, Allocation, allocate}
use aimless_onions.Allocation.Cells.{ids, nodes_size, size_of}
use aimless_onions.Allocation.Entries
use aimless_onions.Allocation.Entries.{find_id, find_id-size, find_id-missing, allocate-AreOnce}
use aimless_onions.Allocation.Loop.{has_request}
use aimless_onions.Allocation.Round.{total_weight}
use aimless_onions.Allocation.Shares.{IsWeighted, has_name, allocate_sizes, allocate_entries}
use aimless_onions.Allocation.Weights.{share}
use aimless_onions.Authority.{
  Bbg, InnerRequests, InnerAllocations, lookup_id, reverse_keys, insert_allocations, allocate_epoch,
}
use aimless_onions.Authority.Ids.{reverse_keys-AreIds, lookup_id-AreIds}
use aimless_onions.Authority.Registry.{IsRegistry, AreDistinct}
use aimless_onions.Authority.Serving.{or_true, reverse_keys-Found, All-has_key}

-- Where the allocation of the id comes from, after one more step of the loop.
insert-from :
    (m : List (ℕ × RelayKey)) (i : ℕ) (k : RelayKey)
    → lookup_id i m ≡ some k
    → ((j : ℕ) → lookup_id j m ≡ some k → j ≡ i)
    → (a' : Allocation) (as' : List Allocation) (acc : List (RelayKey × Allocation))
    → Allocation.Entries.AreOnce (ids (a' ∷ as'))
    → (k' : RelayKey) → lookup_id a'.id m ≡ some k'
    → (a : Allocation)
    → (find_id i (a' ∷ as') ≡ some a) ⊎ ((find_id i (a' ∷ as') ≡ none) × (lookup k acc ≡ some a))
    → (find_id i as' ≡ some a) ⊎ ((find_id i as' ≡ none) × (lookup k (insert k' a' acc) ≡ some a))
insert-from m i k leads alone a' as' acc once k' leads' a from = elim (Bool-cases (a'.id == i)) [
  | inl e ↦
      let same : a'.id ≡ i = (==_iff a'.id i).0 e in
      let key_is : k' ≡ k =
        some-injective _ _ (sym leads' ∙ ap (λ (t : ℕ). lookup_id t m) same ∙ leads) in
      let gone : find_id i as' ≡ none =
        find_id-missing i as' (subst (λ (t : ℕ). has_name t (ids as') ≡ false) same once.0) in
      let here : some a' ≡ some a = found_here a' as' acc e from in
      inr (
        gone,
        subst (λ (t : RelayKey). lookup t (insert k' a' acc) ≡ some a) key_is
            (lookup-insert_self k' a' acc ∙ here),
      )
  | inr e ↦
      let other : bytes_eq k' k ≡ false = elim (Bool-cases (bytes_eq k' k)) [
        | inl e' ↦
            let same : a'.id ≡ i =
              alone a'.id (leads' ∙ ap (λ (t : RelayKey). some t) (bytes_eq→≡ k' k e')) in
            absurd (ground (arith, same, e))
        | inr e' ↦ e'
      ] in
      elim from [
        | inl found ↦ inl (rw e at found)
        | inr (none_here, kept) ↦
            inr (rw e at none_here, lookup-insert_other k' k a' acc other ∙ kept)
      ]
]
  where
    found_here :
        (a' : Allocation) (as' : List Allocation) (acc : List (RelayKey × Allocation))
        → (a'.id == i) ≡ true
        → (find_id i (a' ∷ as') ≡ some a)
          ⊎ ((find_id i (a' ∷ as') ≡ none) × (lookup k acc ≡ some a))
        → some a' ≡ some a
    found_here a' as' acc e (inl found) = rw e at found
    found_here a' as' acc e (inr (none_here, kept)) = cc (rw e at none_here)

-- The allocation of an id goes to the key to which this id alone leads.
insert_allocations-lookup :
    (m : List (ℕ × RelayKey)) (i : ℕ) (k : RelayKey)
    → lookup_id i m ≡ some k
    → ((j : ℕ) → lookup_id j m ≡ some k → j ≡ i)
    → (as' : List Allocation) (acc result : List (RelayKey × Allocation))
    → Allocation.Entries.AreOnce (ids as')
    → insert_allocations m as' acc ≡ ok result
    → (a : Allocation)
    → (find_id i as' ≡ some a) ⊎ ((find_id i as' ≡ none) × (lookup k acc ≡ some a))
    → lookup k result ≡ some a
unfolding insert_allocations
insert_allocations-lookup m i k leads alone [] acc result once e a (inl found) = cc
insert_allocations-lookup m i k leads alone [] acc result once e a (inr (none_left, kept)) =
    subst (λ (t : List (RelayKey × Allocation)). lookup k t ≡ some a) (ok_injective e) kept
insert_allocations-lookup m i k leads alone (a' ∷ as') acc result once e a from =
    let (k', found, e1) = bind-ok (or_panic (lookup_id a'.id m)) _ result e in
    let leads' : lookup_id a'.id m ≡ some k' = or_panic-ok (lookup_id a'.id m) k' found in
    insert_allocations-lookup m i k leads alone as' (insert k' a' acc) result once.1 e1 a
      (insert-from m i k leads alone a' as' acc once k' leads' a from)

All-lookup :
    (P : AllocationRequest → Type 0) (k : RelayKey) (m : List (RelayKey × AllocationRequest))
    (r : AllocationRequest)
    → All P (values m)
    → lookup k m ≡ some r
    → P r
unfolding lookup
All-lookup P k [] r all found = cc
All-lookup P k ((k', s) ∷ m) r all found = elim (Bool-cases (bytes_eq k' k)) [
  | inl e ↦ subst P (some-injective _ _ (rw e at found)) all.0
  | inr e ↦ All-lookup P k m r all.1 (rw e at found)
]

-- An id belongs to one key.
pub distinct_keys :
    (k k' : RelayKey) (m : List (RelayKey × AllocationRequest)) (r r' : AllocationRequest)
    → AreDistinct (values m)
    → lookup k m ≡ some r
    → lookup k' m ≡ some r'
    → r.id ≡ r'.id
    → k ≡ k'
unfolding lookup
distinct_keys k k' [] r r' distinct found found' same = cc
distinct_keys k k' ((j, s) ∷ m) r r' distinct found found' same = elim (Bool-cases (bytes_eq j k)) [
  | inl e ↦ elim (Bool-cases (bytes_eq j k')) [
    | inl e' ↦ sym (bytes_eq→≡ j k e) ∙ bytes_eq→≡ j k' e'
    | inr e' ↦ absurd (
        All-lookup (λ q. s.id ≢ q.id) k' m r' distinct.0 (rw e' at found')
          (ap (λ (q : AllocationRequest). q.id) (some-injective _ _ (rw e at found)) ∙ same))
  ]
  | inr e ↦ elim (Bool-cases (bytes_eq j k')) [
    | inl e' ↦ absurd (
        All-lookup (λ q. s.id ≢ q.id) k m r distinct.0 (rw e at found)
          (ap (λ (q : AllocationRequest). q.id) (some-injective _ _ (rw e' at found')) ∙ sym same))
    | inr e' ↦ distinct_keys k k' m r r' distinct.1 (rw e at found) (rw e' at found') same
  ]
]

lookup-has_request :
    (k : RelayKey) (m : List (RelayKey × AllocationRequest)) (r : AllocationRequest)
    → lookup k m ≡ some r
    → has_request r.id (values m) ≡ true
unfolding lookup has_request
lookup-has_request k [] r found = cc
lookup-has_request k ((j, s) ∷ m) r found = elim (Bool-cases (bytes_eq j k)) [
  | inl e ↦
      let same : s ≡ r = some-injective _ _ (rw e at found) in
      rw ((==_iff s.id r.id).1 (ap (λ (q : AllocationRequest). q.id) same))
  | inr e ↦ rw (lookup-has_request k m r (rw e at found)) (or_true (s.id == r.id))
]

module _ (f : AllocationRequest → ℕ) where
  nothing_bought :
      (i : ℕ) (rs : List AllocationRequest)
      → All (λ s. i ≢ s.id) rs
      → sum_by (λ r. if r.id == i then f r else 0) rs ≡ 0
  nothing_bought i [] others = refl
  nothing_bought i (r ∷ rs) others =
      let apart = others.0 in
      let other : (r.id == i) ≡ false = ground (arith, apart) in
      rw other (omega (arith, nothing_bought i rs others.1))

  -- Where the ids are different, what is summed up for the id of a request is its own.
  bought_once :
      (k : RelayKey) (m : List (RelayKey × AllocationRequest)) (q : AllocationRequest)
      → AreDistinct (values m)
      → lookup k m ≡ some q
      → sum_by (λ r. if r.id == q.id then f r else 0) (values m) ≡ f q
  unfolding lookup
  bought_once k [] q distinct found = cc
  bought_once k ((j, s) ∷ m) q distinct found = elim (Bool-cases (bytes_eq j k)) [
    | inl e ↦
        let same : s ≡ q = some-injective _ _ (rw e at found) in
        subst
          (λ (t : AllocationRequest).
            sum_by (λ r. if r.id == t.id then f r else 0) (s ∷ values m) ≡ f t)
          same
          (rw ((==_iff s.id s.id).1 refl)
            (omega (arith, nothing_bought s.id (values m) distinct.0)))
    | inr e ↦
        let found' : lookup k m ≡ some q = rw e at found in
        let apart : s.id ≢ q.id = All-lookup (λ r. s.id ≢ r.id) k m q distinct.0 found' in
        let other : (s.id == q.id) ≡ false = ground (arith, apart) in
        rw other (omega (arith, bought_once k m q distinct.1 found'))
  ]

module _ (r : InnerRequests) (registry : IsRegistry r) where
  -- The key of the request with this id.
  abbrev IsOwner : ℕ → RelayKey → Type 0
  IsOwner i k = (q : AllocationRequest) × (lookup k r.requests ≡ some q) × (q.id ≡ i)

  owners_of :
      (rs : List (RelayKey × AllocationRequest))
      → All (λ (e : RelayKey × AllocationRequest). lookup e.0 r.requests ≡ some e.1) rs
      → All (λ (e : RelayKey × AllocationRequest). IsOwner e.1.id e.0) rs
  owners_of [] found = tt
  owners_of ((k, q) ∷ rs) found = ((q, found.0, refl), owners_of rs found.1)

  by_id : List (ℕ × RelayKey)
  by_id = reverse_keys r.requests []

  by_id-IsOwner : (i : ℕ) (k : RelayKey) → lookup_id i by_id ≡ some k → IsOwner i k
  unfolding by_id
  by_id-IsOwner i k e =
      lookup_id-AreIds IsOwner i by_id k
        (reverse_keys-AreIds IsOwner r.requests []
          (owners_of r.requests (lookup-AreOnce r.requests registry.once)) tt)
        e

  by_id-leads :
      (k : RelayKey) (q : AllocationRequest)
      → lookup k r.requests ≡ some q
      → lookup_id q.id by_id ≡ some k
  unfolding by_id
  by_id-leads k q found =
      let registered : All
          (λ (e : RelayKey × AllocationRequest). has_key e.0 (keys r.requests) ≡ true) r.requests =
        All-has_key (λ k'. has_key k' (keys r.requests) ≡ true) r.requests (λ k' h. h) in
      let (k', leads, good) =
        reverse_keys-Found (keys r.requests) q.id r.requests [] registered
          (inl (lookup-has_request k r.requests q found)) in
      let (q', found', same) = by_id-IsOwner q.id k' leads in
      leads
      ∙ ap (λ (t : RelayKey). some t)
          (distinct_keys k' k r.requests q' q registry.distinct found' found same)

  by_id-alone :
      (k : RelayKey) (q : AllocationRequest)
      → lookup k r.requests ≡ some q
      → (j : ℕ) → lookup_id j by_id ≡ some k
      → j ≡ q.id
  by_id-alone k q found j leads =
      let (q', found', same) = by_id-IsOwner j k leads in
      sym same ∙ ap (λ (t : AllocationRequest). t.id) (some-injective _ _ (sym found' ∙ found))

module _ (b : Bbg) where
  -- The entry of a registered relay is that of its id in what `allocate` returned.
  pub allocate_epoch-entry :
      (rng : b.Rng) (r r' : InnerRequests) (a : InnerAllocations b) (rng' : b.Rng) (k : RelayKey)
      (q : AllocationRequest)
      → IsRegistry r
      → IsWeighted (values r.requests)
      → allocate_epoch b rng r ≡ ok (r', a, rng')
      → lookup k r.requests ≡ some q
      → (allocs : List Allocation) × (given : Allocation) × (allocate (values r.requests)
          ≡ some allocs)
        × (find_id q.id allocs ≡ some given)
        × (lookup k a.allocations ≡ some given)
        × (nodes_size given.nodes ≡ size_of q.id allocs)
  unfolding allocate_epoch by_id
  allocate_epoch-entry rng r r' a rng' k q registry weighted e found =
      let requests = values r.requests in
      let (allocs, allocated, e1) =
        bind-ok (or_panic (Allocation.allocate requests)) _ (r', a, rng') e in
      let (allocations, inserted, e2) =
        bind-ok (insert_allocations (by_id r registry) allocs []) _ (r', a, rng') e1 in
      let returns : allocate requests ≡ some allocs =
        or_panic-ok (Allocation.allocate requests) allocs allocated in
      let once = allocate-AreOnce requests allocs weighted returns in
      let has =
        allocate_entries requests allocs weighted returns q.id
        ∙ lookup-has_request k r.requests q found in
      let (given, is_given, same, size) = find_id-size q.id allocs once has in
      let stored : lookup k allocations ≡ some given =
        insert_allocations-lookup (by_id r registry) q.id k (by_id-leads r registry k q found)
          (by_id-alone r registry k q found) allocs [] allocations once inserted given
          (inl is_given) in
      let made =
        ap (λ (t : InnerRequests × InnerAllocations b × b.Rng). t.1.allocations)
          (ok_injective e2) in
      (
        allocs,
        given,
        returns,
        is_given,
        subst (λ (t : List (RelayKey × Allocation)). lookup k t ≡ some given) made stored,
        size,
      )

  -- When the registry is in order and the weights in it have a positive total below 2 ^ 64, after the
  -- allocation for an epoch every registered relay has an entry, whose nodes have together exactly the
  -- part of the 2 ^ 32 identities that the relay's weight is of the total, rounded down.
  pub allocate_epoch-shares :
      (rng : b.Rng) (r r' : InnerRequests) (a : InnerAllocations b) (rng' : b.Rng) (k : RelayKey)
      (q : AllocationRequest)
      → IsRegistry r
      → IsWeighted (values r.requests)
      → allocate_epoch b rng r ≡ ok (r', a, rng')
      → lookup k r.requests ≡ some q
      → (given : Allocation) × (lookup k a.allocations ≡ some given)
        × (nodes_size given.nodes ≡ 2 ^ 32 * q.weight / total_weight (values r.requests))
  allocate_epoch-shares rng r r' a rng' k q registry weighted e found =
      let requests = values r.requests in
      let (allocs, given, returns, is_given, stored, size) =
        allocate_epoch-entry rng r r' a rng' k q registry weighted e found in
      (
        given,
        stored,
        size
            ∙ allocate_sizes requests allocs weighted returns q.id
            ∙ bought_once (share (total_weight requests)) k r.requests q registry.distinct found,
      )
