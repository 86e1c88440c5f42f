-- ===== src/Authority/Tests.antt =====
-- Runs of the functions of aimless-onions/src/bin/authority.rs, with simple functions in the place of
-- hohibe.
use aimless_onions.Prelude.{ℕ, suc, ◌^◌, ◌≤◌, refl, arith, some, List, [], ◌∷◌, length}
use aimless_onions.ApiTypes.{RelayKey, RegisterRelay}
use aimless_onions.Maps.{insert, values}
use aimless_onions.Wire.{bytes_eq}
use aimless_onions.Allocation.{Allocation}
use aimless_onions.Allocation.Shares.{IsWeighted}
use aimless_onions.Authority.{
  InnerRequests, InnerAllocations, no_requests, Bbg, handle_request, insert_request, Stores,
  no_allocations,
}
use aimless_onions.Authority.Registry.{IsRegistry, handle_request-IsRegistry}

-- A private key is the master key and the digits of the node.
abbrev pub plain_bbg : Bbg
plain_bbg = record {
  PublicParams = ℕ;
  MasterKey = ℕ;
  PrivateKey = ℕ × List ℕ;
  Rng = ℕ;
  default_params = 0;
  default_master = 0;
  setup = λ rng. ((rng, rng), suc rng);
  generate_key = λ rng params master digits. (some (master, digits), suc rng);
}

abbrev pub first_relay : RegisterRelay
first_relay = record { key = 1 ∷ []; address = 97 ∷ []; port = 80; weight = 30 }

abbrev pub second_relay : RegisterRelay
second_relay = record { key = 2 ∷ []; address = 98 ∷ []; port = 81; weight = 10 }

one_registered : IsRegistry (handle_request first_relay no_requests)
one_registered =
    handle_request-IsRegistry first_relay no_requests
      (record { same_keys = refl; once = tt; own_key = tt; below = tt; distinct = tt })
      (omega arith)

pub two_registered :
    IsRegistry (handle_request second_relay (handle_request first_relay no_requests))
unfolding handle_request insert_request
two_registered =
    handle_request-IsRegistry second_relay (handle_request first_relay no_requests) one_registered
      (omega arith)

abbrev pub store : InnerRequests
store = handle_request second_relay (handle_request first_relay no_requests)

pub weighted : IsWeighted (values store.requests)
unfolding handle_request insert_request insert bytes_eq
weighted = record { positive = omega arith; fits = omega arith }

handle_request-IsRegistry_example : IsRegistry (handle_request first_relay no_requests)
handle_request-IsRegistry_example =
    handle_request-IsRegistry first_relay no_requests
      (record { same_keys = refl; once = tt; own_key = tt; below = tt; distinct = tt })
      (omega arith)

abbrev pub stores : Stores plain_bbg
stores = record {
  current_requests = no_requests;
  new_requests = store;
  current_allocations = no_allocations plain_bbg;
  new_allocations = no_allocations plain_bbg;
}

pub enough_relays : 2 ≤ length store.addresses
unfolding handle_request insert_request insert bytes_eq
enough_relays = omega arith

abbrev pub allocations : List (RelayKey × Allocation)
allocations = (1 ∷ [], record { id = 0; nodes = record { path = 2 ^ 63; len = 1 } ∷ [] }) ∷ []

abbrev pub half_given : InnerAllocations plain_bbg
half_given = record {
  allocations = allocations;
  addresses = (1 ∷ [], (97 ∷ [], 80)) ∷ [];
  public_params = 7;
  master_key = 7;
}
