-- ===== src/Authority/SharesTests.antt =====
-- An allocation of aimless-onions/src/bin/authority.rs for two relays, and what they hold then.
use aimless_onions.Prelude.{ℕ, true, ◌*◌, ◌/◌, ◌^◌, ◌≡◌, refl, some, [], ◌∷◌}
use aimless_onions.Outcome.{ok}
use aimless_onions.Wire.{bytes_eq}
use aimless_onions.Maps.{lookup, insert, values}
use aimless_onions.Allocation.{Allocation}
use aimless_onions.Allocation.Cells.{nodes_size}
use aimless_onions.Allocation.Round.{total_weight}
use aimless_onions.Allocation.Tests.{two_relays}
use aimless_onions.Authority.{
  Stores, allocation_turn, advance, no_allocations, InnerAllocations, no_requests, handle_request,
  insert_request, reverse_keys, insert_id, lookup_id, insert_allocations, allocate_epoch,
}
use aimless_onions.Authority.Serving.{IsServing}
use aimless_onions.Authority.Turns.{IsProvided, allocation_turn-IsServing}
use aimless_onions.Authority.Shares.{allocate_epoch-shares}
use aimless_onions.Authority.Tests.{
  stores, enough_relays, plain_bbg, store, two_registered, weighted,
}

-- Three quarters for the first relay, and one for the second.
abbrev pub given_out : InnerAllocations plain_bbg
given_out = record {
  allocations =
      (
        1 ∷ [],
        record { id = 0; nodes = record { len = 1; path = 1 } ∷ record { len = 2; path = 0 } ∷ [] },
      )
      ∷ (2 ∷ [], record { id = 1; nodes = record { len = 2; path = 1 } ∷ [] })
      ∷ [];
  addresses = (1 ∷ [], (97 ∷ [], 80)) ∷ (2 ∷ [], (98 ∷ [], 81)) ∷ [];
  public_params = 7;
  master_key = 7;
}

pub allocation : allocate_epoch plain_bbg 7 store ≡ ok (no_requests, given_out, 8)
unfolding allocate_epoch handle_request insert_request insert bytes_eq reverse_keys insert_id
    insert_allocations lookup_id
allocation = rw two_relays refl

pub first_request :
    lookup (1 ∷ []) store.requests ≡ some (record { id = 0; key = 1 ∷ []; weight = 30 })
unfolding lookup handle_request insert_request insert bytes_eq
first_request = refl

allocate_epoch-shares_example :
    (given : Allocation) × (lookup (1 ∷ []) given_out.allocations ≡ some given)
    × (nodes_size given.nodes ≡ 2 ^ 32 * 30 / total_weight (values store.requests))
allocate_epoch-shares_example =
    allocate_epoch-shares plain_bbg 7 store no_requests given_out 8 (1 ∷ [])
      (record { id = 0; key = 1 ∷ []; weight = 30 }) two_registered weighted allocation
      first_request

allocation_turn-IsServing_example :
    (s' : Stores plain_bbg) × (rng' : ℕ) × (allocation_turn plain_bbg 7 stores
      ≡ ok (true, s', rng'))
    × IsServing plain_bbg store (advance plain_bbg s').current_allocations
    × IsProvided plain_bbg store
        (advance plain_bbg s').current_allocations
        (1 ∷ [])
        (record { id = 0; key = 1 ∷ []; weight = 30 })
    × ((advance plain_bbg s').new_requests ≡ no_requests)
    × ((advance plain_bbg s').new_allocations ≡ no_allocations plain_bbg)
allocation_turn-IsServing_example =
    allocation_turn-IsServing plain_bbg 7 stores (1 ∷ [])
      (record { id = 0; key = 1 ∷ []; weight = 30 }) two_registered weighted enough_relays
      first_request
