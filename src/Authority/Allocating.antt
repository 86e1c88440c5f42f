-- ===== src/Authority/Allocating.antt =====
-- What `allocate_epoch` of aimless-onions/src/bin/authority.rs leaves: a store with an address for
-- every key.
use aimless_onions.Prelude.{◌≡◌, ap, sym, subst, true, List, [], All}
use aimless_onions.Outcome.{ok, ok_injective, bind-ok, or_panic, or_panic-ok}
use aimless_onions.ApiTypes.{RelayKey}
use aimless_onions.Maps.{keys, values, has_key}
use aimless_onions.Maps.Once.{AreOnce}
use aimless_onions.Allocation
use aimless_onions.Allocation.Depth.{AreShallow, allocate-GivesShallow}
use aimless_onions.Allocation.{AllocationRequest, Allocation}
use aimless_onions.Authority.{
  Bbg, InnerRequests, InnerAllocations, no_requests, reverse_keys, insert_allocations,
  allocate_epoch, no_allocations,
}
use aimless_onions.Authority.Ids.{
  Registered, reverse_keys-AreIds, insert_allocations-registered, insert_allocations-AreOnce,
  insert_allocations-All,
}
use aimless_onions.Authority.Registry.{IsRegistry}
use aimless_onions.Authority.Serving.{AreRegistered, All-has_key}

module _ (b : Bbg) where
  open b use {Rng}

  -- A store of allocations: all its keys have addresses in it and one entry each, and the nodes lie no
  -- deeper than the leaves.
  pub record IsAnswering (a : InnerAllocations b) : Type 0 where
    pub known : AreRegistered a.addresses a.allocations
    pub once : AreOnce (keys a.allocations)
    pub shallow : All (λ (e : RelayKey × Allocation). AreShallow e.1.nodes) a.allocations

  pub no_allocations-IsAnswering : IsAnswering (no_allocations b)
  no_allocations-IsAnswering = record { known = tt; once = tt; shallow = tt }

  pub allocate_epoch-IsAnswering :
      (rng : Rng) (r : InnerRequests) (r' : InnerRequests) (a : InnerAllocations b) (rng' : Rng)
      → IsRegistry r
      → allocate_epoch b rng r ≡ ok (r', a, rng')
      → (r' ≡ no_requests) × IsAnswering a
  unfolding allocate_epoch
  allocate_epoch-IsAnswering rng r r' a rng' registry e =
      let ids = reverse_keys r.requests [] in
      let (allocs, allocated, e1) =
        bind-ok (or_panic (Allocation.allocate (values r.requests))) _ (r', a, rng') e in
      let (allocations, inserted, e2) =
        bind-ok (insert_allocations ids allocs []) _ (r', a, rng') e1 in
      let made : InnerAllocations b = record {
        allocations = allocations;
        addresses = r.addresses;
        public_params = (b.setup rng).0.0;
        master_key = (b.setup rng).0.1;
      } in
      let parts : (no_requests, made, (b.setup rng).1) ≡ (r', a, rng') = ok_injective e2 in
      let known : All (λ (e : RelayKey × AllocationRequest). has_key e.0 (keys r.addresses) ≡ true)
          r.requests =
        All-has_key (λ k. has_key k (keys r.addresses) ≡ true) r.requests
          (λ k h. subst (λ (ks : List RelayKey). has_key k ks ≡ true) registry.same_keys h) in
      let good : IsAnswering made = record {
        known =
            insert_allocations-registered (keys r.addresses) ids allocs [] allocations
              (reverse_keys-AreIds (Registered (keys r.addresses)) r.requests [] known tt) inserted
              tt;
        once = insert_allocations-AreOnce ids allocs [] allocations inserted tt;
        shallow =
            insert_allocations-All (λ a. AreShallow a.nodes) ids allocs [] allocations inserted
              (allocate-GivesShallow (values r.requests) allocs
                (or_panic-ok (Allocation.allocate (values r.requests)) allocs allocated))
              tt;
      } in
      (
        sym (ap (λ (t : InnerRequests × InnerAllocations b × Rng). t.0) parts),
        subst IsAnswering (ap (λ (t : InnerRequests × InnerAllocations b × Rng). t.1) parts) good,
      )
