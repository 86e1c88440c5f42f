-- ===== src/System/Tests.antt =====
-- Runs of the authority of aimless-onions/src/bin/authority.rs and a relay of
-- aimless-onions/src/bin/relay.rs together.
use aimless_onions.Wire.{bytes_eq}
use aimless_onions.Prelude.{◌≡◌, refl, sym, arith, true, some, List, [], ◌∷◌, length}
use aimless_onions.Outcome.{ok}
use aimless_onions.ApiTypes.{RelayKey}
use aimless_onions.NodeName.{contains, path_bits}
use aimless_onions.NodeName.Canonical.{number_lem}
use aimless_onions.NodeName.Digits.{length-path_bits}
use aimless_onions.Allocation.Tests.{two_relays}
use aimless_onions.Maps.{lookup, insert}
use aimless_onions.Shared.{from_registration, next}
use aimless_onions.Sample.{sample}
use aimless_onions.Net.Sample.{network}
use aimless_onions.Authority.{
  no_requests, no_allocations, advance, get_address, find_address, any_contains, reverse_keys,
  insert_id, lookup_id, insert_allocations, allocate_epoch, allocation_turn, handle_request,
  insert_request, update_allocations,
}
use aimless_onions.Authority.Server.{
  Server, Event, register, request, wakes, start, serve, handle_event, continue_task,
  start_allocation, run_events,
}
use aimless_onions.Authority.SharesTests.{given_out, allocation}
use aimless_onions.Authority.Tests.{
  plain_bbg, first_relay, second_relay, store, two_registered, weighted,
}
use aimless_onions.Relay.Tests.{depth_keygen, depth_keygen-IsKeygen, IsDepth}
use aimless_onions.System.Received.{Issues}
use aimless_onions.System.Issued.{HasKey, named_relay-HasKey}
use aimless_onions.System.Agreed.{named_relay-HasKeys}
use aimless_onions.Authority.AgreementTests.{
  store_too, store_too-IsRegistry, given_too, allocation_too, same_weights,
}

-- Two registrations and a wake at the time of the allocation.
abbrev registration : List Event
registration =
    request (register first_relay) ∷ request (register second_relay) ∷ wakes 4200000000000 ∷ []

abbrev allocated : Server plain_bbg
allocated = record {
  stores = record {
    current_requests = no_requests;
    new_requests = no_requests;
    current_allocations = no_allocations plain_bbg;
    new_allocations = given_out;
  };
  epoch = next 0;
  allocated = true;
  rng = 8;
}

allocation_run : run_events plain_bbg registration (start plain_bbg 7 0) ≡ ok allocated
unfolding run_events handle_event serve start continue_task start_allocation allocation_turn
    allocate_epoch handle_request insert_request insert bytes_eq next from_registration reverse_keys
    insert_id insert_allocations lookup_id
allocation_run = rw two_relays refl

-- The relay's key is the depth of its name, the length of its digits.
depths_issued :
    Issues plain_bbg sample depth_keygen network
      (λ pk. ok 0)
      IsDepth
      (λ cache. Unit)
      depth_keygen-IsKeygen
      (λ key. length key.1)
      7
      7
depths_issued rng n shallow = ((7, path_bits n), refl, sym (length-path_bits n))

fifth_answered :
    get_address plain_bbg 5 (advance plain_bbg allocated.stores).current_allocations
    ≡ ok (some (97 ∷ [], 80))
unfolding get_address advance update_allocations find_address any_contains contains lookup bytes_eq
fifth_answered = rw (number_lem 5) refl

named_relay-HasKey_example :
    (k : RelayKey) × (lookup k given_out.addresses ≡ some (97 ∷ [], 80))
    × HasKey plain_bbg sample depth_keygen network
        (λ pk. ok 0)
        IsDepth
        (λ cache. Unit)
        depth_keygen-IsKeygen
        (λ key. length key.1)
        (λ params. params)
        5
        given_out
        k
        1
        2
named_relay-HasKey_example =
    named_relay-HasKey plain_bbg sample depth_keygen network (λ pk. ok 0) IsDepth (λ cache. Unit)
      depth_keygen-IsKeygen (λ key. length key.1) (λ params. params) registration 7 0 5 allocated
      (97 ∷ [], 80) 0 1 2 (omega arith) allocation_run depths_issued refl tt fifth_answered

fifth_named : get_address plain_bbg 5 given_out ≡ ok (some (97 ∷ [], 80))
unfolding get_address find_address any_contains contains lookup bytes_eq
fifth_named = rw (number_lem 5) refl

named_relay-HasKeys_example :
    (k : RelayKey) × (lookup k given_out.addresses ≡ some (97 ∷ [], 80))
    × HasKey plain_bbg sample depth_keygen network
        (λ pk. ok 0)
        IsDepth
        (λ cache. Unit)
        depth_keygen-IsKeygen
        (λ key. length key.1)
        (λ params. params)
        5
        given_out
        k
        1
        2
    × HasKey plain_bbg sample depth_keygen network
        (λ pk. ok 0)
        IsDepth
        (λ cache. Unit)
        depth_keygen-IsKeygen
        (λ key. length key.1)
        (λ params. params)
        5
        given_too
        k
        1
        2
named_relay-HasKeys_example =
    named_relay-HasKeys plain_bbg sample depth_keygen network (λ pk. ok 0) IsDepth IsDepth
      (λ cache. Unit) (λ cache. Unit) depth_keygen-IsKeygen depth_keygen-IsKeygen
      (λ key. length key.1) (λ params. params) 7 7 8 8 store store_too no_requests no_requests
      given_out given_too 5 (97 ∷ [], 80) 0 0 1 1 2 2 two_registered store_too-IsRegistry
      same_weights weighted allocation allocation_too depths_issued depths_issued refl refl tt tt
      fifth_named
