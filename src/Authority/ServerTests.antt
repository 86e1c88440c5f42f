-- ===== src/Authority/ServerTests.antt =====
-- Runs of the server of aimless-onions/src/bin/authority.rs, and uses of the theorems on it.
use aimless_onions.Prelude.{◌≡◌, ◌≤◌, refl, arith, true, false, Option, List, [], ◌∷◌, ◌++◌, map}
use aimless_onions.Outcome.{ok}
use aimless_onions.ApiTypes.{Address}
use aimless_onions.NodeName.{number}
use aimless_onions.Shared.{next, from_registration}
use aimless_onions.Authority.{
  no_requests, no_allocations, handle_request, handle_get_relay_address, get_address, find_address,
}
use aimless_onions.Authority.Serving.{IsAnswer}
use aimless_onions.Authority.Server.{
  Server, Event, register, get_relay_address, get_next_public_key, request, wakes, serve, start,
  switch_epoch, continue_task, handle_event, run_events,
}
use aimless_onions.Authority.Epochs.{run_events-IsAnswer}
use aimless_onions.Authority.Handover.{IsHandover, run_events-IsHandover}
use aimless_onions.Authority.Tests.{plain_bbg, first_relay, second_relay, store, half_given}

-- Two registrations, a look-up and a wake before the time of the allocation.
abbrev morning : List Event
morning =
    request (register first_relay)
    ∷ request (register second_relay)
    ∷ request (get_relay_address (record { identity = 5 }))
    ∷ wakes 1000
    ∷ []

abbrev registered_both : Server plain_bbg
registered_both = record {
  stores = record {
    current_requests = no_requests;
    new_requests = store;
    current_allocations = no_allocations plain_bbg;
    new_allocations = no_allocations plain_bbg;
  };
  epoch = next 0;
  allocated = false;
  rng = 7;
}

morning_is : run_events plain_bbg morning (start plain_bbg 7 0) ≡ ok registered_both
unfolding run_events handle_event serve start continue_task handle_get_relay_address get_address
    find_address next from_registration
morning_is = refl

run_events-IsAnswer_example :
    (answer : Option Address) × (get_address plain_bbg 5 (no_allocations plain_bbg) ≡ ok answer)
    × IsAnswer (number 5) [] [] answer
run_events-IsAnswer_example =
    run_events-IsAnswer plain_bbg morning 7 0 5 registered_both (omega arith) morning_is

-- After an allocation, with the left half of the tree given out for the next epoch.
abbrev waiting : Server plain_bbg
waiting = record registered_both {
  stores = record registered_both.stores { new_allocations = half_given };
  epoch = from_registration 0;
  allocated = true;
}

abbrev switched : Server plain_bbg
switched = switch_epoch plain_bbg 1800000000000 (record waiting {
  stores = record waiting.stores { new_requests = handle_request first_relay store };
})

waiting_run :
    run_events plain_bbg
      (map request (register first_relay ∷ get_next_public_key ∷ []) ++ wakes 1800000000000 ∷ [])
      waiting
    ≡ ok switched
unfolding run_events handle_event serve continue_task from_registration
waiting_run = refl

switch_due : waiting.epoch.switchover_time ≤ 1800000000000
unfolding from_registration
switch_due = omega arith

run_events-IsHandover_example : IsHandover plain_bbg waiting switched
run_events-IsHandover_example =
    run_events-IsHandover plain_bbg (register first_relay ∷ get_next_public_key ∷ []) 1800000000000
      waiting switched refl switch_due waiting_run
