-- ===== src/Authority/Agreement.antt =====
-- Authorities of aimless-onions/src/bin/authority.rs with which the same relays are registered give
-- them the same nodes.
use aimless_onions.Prelude.{
  ℕ, ◌<◌, ◌^◌, ◌≡◌, refl, ap, sym, ◌∙◌, subst, true, false, Bool-cases, inl, inr, Option,
  Option-cases, some, List, [], ◌∷◌, All, ◌==◌, ==_iff,
}
use mathlib.Core.Option
use mathlib.Core.Option.{some-injective}
use aimless_onions.Outcome.{ok}
use aimless_onions.ApiTypes.{RelayKey}
use aimless_onions.Wire.{bytes_eq}
use aimless_onions.Maps.{lookup, keys, values, has_key}
use aimless_onions.Maps.Once.{AreOnce, lookup-AreOnce}
use aimless_onions.Allocation.{AllocationRequest, Allocation, sort_by_key}
use aimless_onions.Allocation.Round.{total_weight}
use aimless_onions.Allocation.Weights.{sort_by_key-sum}
use aimless_onions.Allocation.Shares.{IsWeighted}
use aimless_onions.Allocation.Sorting.{IsNew, AreApart, sort_by_key-All, sort_by_key-IsSorted}
use aimless_onions.Allocation.Alike.{weight_at, weight_at-sort_by_key, AreAlike, IsSorted-AreAlike}
use aimless_onions.Allocation.Entries.{find_id}
use aimless_onions.Allocation.Renaming.{AreTwins}
use aimless_onions.Allocation.Agreement.{sum_by-AreTwins, allocate-AreCopies, find_id-AreCopies}
use aimless_onions.Authority.{Bbg, InnerRequests, InnerAllocations, allocate_epoch}
use aimless_onions.Authority.Registry.{IsRegistry}
use aimless_onions.Authority.Shares.{distinct_keys, allocate_epoch-entry}

-- The weight with which a relay is registered.
abbrev pub registered_weight : RelayKey → InnerRequests → Option ℕ
registered_weight k r = Option.map (λ (q : AllocationRequest). q.weight) (lookup k r.requests)

abbrev OwnKeys : List (RelayKey × AllocationRequest) → Type 0
OwnKeys = All (λ (e : RelayKey × AllocationRequest). e.1.key ≡ e.0)

weight_at-lookup :
    (k : RelayKey) (m : List (RelayKey × AllocationRequest))
    → OwnKeys m
    → weight_at k (values m) ≡ Option.map (λ (q : AllocationRequest). q.weight) (lookup k m)
unfolding lookup
weight_at-lookup k [] own = refl
weight_at-lookup k ((j, q) ∷ m) own = elim (Bool-cases (bytes_eq j k)) [
  | inl e ↦
      let e' : bytes_eq q.key k ≡ true = ap (λ (t : RelayKey). bytes_eq t k) own.0 ∙ e in
      rw (e, e') refl
  | inr e ↦
      let e' : bytes_eq q.key k ≡ false = ap (λ (t : RelayKey). bytes_eq t k) own.0 ∙ e in
      rw (e, e') (weight_at-lookup k m own.1)
]

values-IsNew :
    (k : RelayKey) (m : List (RelayKey × AllocationRequest))
    → OwnKeys m
    → has_key k (keys m) ≡ false
    → IsNew k (values m)
unfolding has_key
values-IsNew k [] own new = tt
values-IsNew k ((j, q) ∷ m) own new = elim (Bool-cases (bytes_eq j k)) [
  | inl e ↦ cc (rw e at new)
  | inr e ↦ (ap (λ (t : RelayKey). bytes_eq t k) own.0 ∙ e, values-IsNew k m own.1 (rw e at new))
]

values-AreApart :
    (m : List (RelayKey × AllocationRequest)) → OwnKeys m → AreOnce (keys m) → AreApart (values m)
values-AreApart [] own once = tt
values-AreApart ((j, q) ∷ m) own once = (
  subst (λ (t : RelayKey). IsNew t (values m)) (sym own.0) (values-IsNew j m own.1 once.0),
  values-AreApart m own.1 once.1,
)

-- Every request is the one under its key.
values-found :
    (m n : List (RelayKey × AllocationRequest))
    → OwnKeys m
    → All (λ (e : RelayKey × AllocationRequest). lookup e.0 n ≡ some e.1) m
    → All (λ q. lookup q.key n ≡ some q) (values m)
values-found [] n own found = tt
values-found ((j, q) ∷ m) n own found =
    (ap (λ (t : RelayKey). lookup t n) own.0 ∙ found.0, values-found m n own.1 found.1)

module _ (r s : InnerRequests) (in_order : IsRegistry r) (in_order' : IsRegistry s)
    (same_relays : (k : RelayKey) → registered_weight k r ≡ registered_weight k s) where
  -- The ids of one relay with the two authorities.
  abbrev SameRelay : ℕ → ℕ → Type 0
  SameRelay i j =
      (k : RelayKey) × (q : AllocationRequest) × (q' : AllocationRequest) × (lookup k r.requests
        ≡ some q)
      × (lookup k s.requests ≡ some q')
      × (q.id ≡ i)
      × (q'.id ≡ j)

  same_id : (i j i' j' : ℕ) → SameRelay i j → SameRelay i' j' → i ≡ i' → j ≡ j'
  same_id i j i' j' (k, q, q', found, found', is, is') (k1, q1, q1', found1, found1', is1, is1') e =
      let keys_are : k ≡ k1 =
        distinct_keys k k1 r.requests q q1 in_order.distinct found found1 (is ∙ e ∙ sym is1) in
      let requests_are : q' ≡ q1' =
        some-injective _ _
          (sym found' ∙ ap (λ (t : RelayKey). lookup t s.requests) keys_are ∙ found1') in
      sym is' ∙ ap (λ (t : AllocationRequest). t.id) requests_are ∙ is1'

  same_id_back : (i j i' j' : ℕ) → SameRelay i j → SameRelay i' j' → j ≡ j' → i ≡ i'
  same_id_back i j i' j' (k, q, q', found, found', is, is')
        (k1, q1, q1', found1, found1', is1, is1') e =
      let keys_are : k ≡ k1 =
        distinct_keys k k1 s.requests q' q1' in_order'.distinct found' found1'
          (is' ∙ e ∙ sym is1') in
      let requests_are : q ≡ q1 =
        some-injective _ _
          (sym found ∙ ap (λ (t : RelayKey). lookup t r.requests) keys_are ∙ found1) in
      sym is ∙ ap (λ (t : AllocationRequest). t.id) requests_are ∙ is1

  paired : (i j i' j' : ℕ) → SameRelay i j → SameRelay i' j' → (i == i') ≡ (j == j')
  paired i j i' j' one other = elim (Bool-cases (i == i')) [
    | inl e ↦
        let e' : j ≡ j' = same_id i j i' j' one other ((==_iff i i').0 e) in
        e ∙ sym ((==_iff j j').1 e')
    | inr e ↦ elim (Bool-cases (j == j')) [
      | inl e' ↦
          let back : (i == i') ≡ true =
            (==_iff i i').1 (same_id_back i j i' j' one other ((==_iff j j').0 e')) in
          cc
      | inr e' ↦ e ∙ sym e'
    ]
  ]

  twins_of :
      (rs ss : List AllocationRequest)
      → AreAlike rs ss
      → All (λ q. lookup q.key r.requests ≡ some q) rs
      → All (λ q. lookup q.key s.requests ≡ some q) ss
      → AreTwins SameRelay paired rs ss
  twins_of [] [] alike found found' = tt
  twins_of [] (q' ∷ ss) alike found found' = absurd alike
  twins_of (q ∷ rs) [] alike found found' = absurd alike
  twins_of (q ∷ rs) (q' ∷ ss) alike found found' = (
    record {
      same_key = alike.0;
      same_weight = alike.1;
      ids = (
        q.key,
        q,
        q',
        found.0,
        ap (λ (t : RelayKey). lookup t s.requests) alike.0 ∙ found'.0,
        refl,
        refl,
      );
    },
    twins_of rs ss alike.2 found.1 found'.1,
  )

  sorted_twins :
      AreTwins SameRelay paired (sort_by_key (values r.requests)) (sort_by_key (values s.requests))
  sorted_twins =
      let apart = values-AreApart r.requests in_order.own_key in_order.once in
      let apart' = values-AreApart s.requests in_order'.own_key in_order'.once in
      let alike =
        IsSorted-AreAlike (sort_by_key (values r.requests)) (sort_by_key (values s.requests))
          (sort_by_key-IsSorted (values r.requests) apart)
          (sort_by_key-IsSorted (values s.requests) apart')
          (λ k.
            weight_at-sort_by_key k (values r.requests) apart
            ∙ weight_at-lookup k r.requests in_order.own_key
            ∙ same_relays k
            ∙ sym (weight_at-lookup k s.requests in_order'.own_key)
            ∙ sym (weight_at-sort_by_key k (values s.requests) apart')) in
      twins_of (sort_by_key (values r.requests)) (sort_by_key (values s.requests)) alike
        (sort_by_key-All (λ q. lookup q.key r.requests ≡ some q) (values r.requests)
          (values-found r.requests r.requests in_order.own_key
            (lookup-AreOnce r.requests in_order.once)))
        (sort_by_key-All (λ q. lookup q.key s.requests ≡ some q) (values s.requests)
          (values-found s.requests s.requests in_order'.own_key
            (lookup-AreOnce s.requests in_order'.once)))

  registered-IsWeighted : IsWeighted (values r.requests) → IsWeighted (values s.requests)
  registered-IsWeighted weighted =
      let same : total_weight (values r.requests) ≡ total_weight (values s.requests) =
        sym (sort_by_key-sum (λ q. q.weight) (values r.requests))
        ∙ sum_by-AreTwins SameRelay paired (sort_by_key (values r.requests))
            (sort_by_key (values s.requests)) sorted_twins
        ∙ sort_by_key-sum (λ q. q.weight) (values s.requests) in
      record {
        positive = subst (λ (n : ℕ). 0 < n) same weighted.positive;
        fits = subst (λ (n : ℕ). n < 2 ^ 64) same weighted.fits;
      }

  same_registered :
      (k : RelayKey) (q : AllocationRequest)
      → lookup k r.requests ≡ some q
      → (q' : AllocationRequest) × (lookup k s.requests ≡ some q')
  same_registered k q found = elim (Option-cases (lookup k s.requests)) [
    | inl missing ↦ cc (rw (found, missing) at (same_relays k))
    | inr there ↦ there
  ]

-- When the registries of two authorities are in order and have the same relays with the same weights,
-- of a positive total below 2 ^ 64, then however the relays came to be registered and whatever ids they have, after
-- an allocation by each every relay has an entry with both, and the two entries have the same nodes in
-- the same order.
pub allocate_epoch-agrees :
    (b b' : Bbg) (rng : b.Rng) (rng' : b'.Rng) (r s r1 s1 : InnerRequests) (a : InnerAllocations b)
    (a' : InnerAllocations b') (rng1 : b.Rng) (rng1' : b'.Rng) (k : RelayKey)
    (q : AllocationRequest)
    → IsRegistry r
    → IsRegistry s
    → ((k' : RelayKey) → registered_weight k' r ≡ registered_weight k' s)
    → IsWeighted (values r.requests)
    → allocate_epoch b rng r ≡ ok (r1, a, rng1)
    → allocate_epoch b' rng' s ≡ ok (s1, a', rng1')
    → lookup k r.requests ≡ some q
    → (given : Allocation) × (given' : Allocation) × (lookup k a.allocations ≡ some given)
      × (lookup k a'.allocations ≡ some given')
      × (given.nodes ≡ given'.nodes)
allocate_epoch-agrees b b' rng rng' r s r1 s1 a a' rng1 rng1' k q in_order in_order' same_relays
      weighted e e' found =
    let (q', found') = same_registered r s in_order in_order' same_relays k q found in
    let weighted' = registered-IsWeighted r s in_order in_order' same_relays weighted in
    let (allocs, given, returns, is_given, stored, size) =
      allocate_epoch-entry b rng r r1 a rng1 k q in_order weighted e found in
    let (allocs', given', returns', is_given', stored', size') =
      allocate_epoch-entry b' rng' s s1 a' rng1' k q' in_order' weighted' e' found' in
    let pairs = paired r s in_order in_order' same_relays in
    let Same = SameRelay r s in_order in_order' same_relays in
    let (copied, returns'', copies) =
      allocate-AreCopies Same pairs (values r.requests) (values s.requests) allocs
        (sorted_twins r s in_order in_order' same_relays) returns in
    let is_copy : copied ≡ allocs' = some-injective _ _ (sym returns'' ∙ returns') in
    (
      given,
      given',
      stored,
      stored',
      find_id-AreCopies Same pairs q.id q'.id allocs copied given given'
          (k, q, q', found, found', refl, refl) copies is_given
          (ap (find_id q'.id) is_copy ∙ is_given'),
    )
