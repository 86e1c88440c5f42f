-- ===== src/Authority/AgreementTests.antt =====
-- Two authorities of aimless-onions/src/bin/authority.rs with which two relays are registered, one
-- after the other and the other way round.
use aimless_onions.Prelude.{◌≡◌, refl, sym, ◌∙◌, arith, false, Bool-cases, inl, inr, some, [], ◌∷◌}
use aimless_onions.Outcome.{ok}
use aimless_onions.ApiTypes.{RelayKey}
use aimless_onions.Wire.{bytes_eq, bytes_eq→≡}
use aimless_onions.Maps.{lookup, insert}
use aimless_onions.Allocation.{Allocation}
use aimless_onions.Allocation.Tests.{swapped_relays}
use aimless_onions.Authority.{
  InnerRequests, InnerAllocations, no_requests, handle_request, insert_request, reverse_keys,
  insert_id, lookup_id, insert_allocations, allocate_epoch,
}
use aimless_onions.Authority.Registry.{IsRegistry, handle_request-IsRegistry}
use aimless_onions.Authority.Agreement.{registered_weight, allocate_epoch-agrees}
use aimless_onions.Authority.SharesTests.{given_out, allocation, first_request}
use aimless_onions.Authority.Tests.{
  plain_bbg, store, first_relay, second_relay, two_registered, weighted,
}

abbrev pub store_too : InnerRequests
store_too = handle_request first_relay (handle_request second_relay no_requests)

second_registered : IsRegistry (handle_request second_relay no_requests)
second_registered =
    handle_request-IsRegistry second_relay no_requests
      (record { same_keys = refl; once = tt; own_key = tt; below = tt; distinct = tt })
      (omega arith)

pub store_too-IsRegistry : IsRegistry store_too
unfolding handle_request insert_request
store_too-IsRegistry =
    handle_request-IsRegistry first_relay (handle_request second_relay no_requests)
      second_registered (omega arith)

abbrev pub given_too : InnerAllocations plain_bbg
given_too = record given_out {
  allocations =
      (
        1 ∷ [],
        record { id = 1; nodes = record { len = 1; path = 1 } ∷ record { len = 2; path = 0 } ∷ [] },
      )
      ∷ (2 ∷ [], record { id = 0; nodes = record { len = 2; path = 1 } ∷ [] })
      ∷ [];
  addresses = (2 ∷ [], (98 ∷ [], 81)) ∷ (1 ∷ [], (97 ∷ [], 80)) ∷ [];
}

pub allocation_too : allocate_epoch plain_bbg 7 store_too ≡ ok (no_requests, given_too, 8)
unfolding allocate_epoch handle_request insert_request insert bytes_eq reverse_keys insert_id
    insert_allocations lookup_id
allocation_too = rw swapped_relays refl

apart : (bytes_eq (1 ∷ []) (2 ∷ []) ≡ false) × (bytes_eq (2 ∷ []) (1 ∷ []) ≡ false)
unfolding bytes_eq
apart = (refl, refl)

pub same_weights : (k : RelayKey) → registered_weight k store ≡ registered_weight k store_too
unfolding lookup handle_request insert_request insert
same_weights k = elim (Bool-cases (bytes_eq (1 ∷ []) k)) [
  | inl first ↦ elim (Bool-cases (bytes_eq (2 ∷ []) k)) [
    | inl second ↦ cc (bytes_eq→≡ (1 ∷ []) k first ∙ sym (bytes_eq→≡ (2 ∷ []) k second))
    | inr other ↦ rw (apart.0, apart.1) (rw (first, other) refl)
  ]
  | inr other ↦ elim (Bool-cases (bytes_eq (2 ∷ []) k)) [
    | inl second ↦ rw (apart.0, apart.1) (rw (other, second) refl)
    | inr neither ↦ rw (apart.0, apart.1) (rw (other, neither) refl)
  ]
]

allocate_epoch-agrees_example :
    (given : Allocation) × (given' : Allocation) × (lookup (1 ∷ []) given_out.allocations
      ≡ some given)
    × (lookup (1 ∷ []) given_too.allocations ≡ some given')
    × (given.nodes ≡ given'.nodes)
allocate_epoch-agrees_example =
    allocate_epoch-agrees plain_bbg plain_bbg 7 7 store store_too no_requests no_requests given_out
      given_too 8 8 (1 ∷ []) (record { id = 0; key = 1 ∷ []; weight = 30 }) two_registered
      store_too-IsRegistry same_weights weighted allocation allocation_too first_request
