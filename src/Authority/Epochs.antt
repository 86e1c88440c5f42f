-- ===== src/Authority/Epochs.antt =====
-- What the server of aimless-onions/src/bin/authority.rs answers after any requests and epochs.
use aimless_onions.Prelude.{
  ℕ, suc, ◌+◌, ◌^◌, ◌≤◌, ◌<◌, ◌≡◌, refl, ap, sym, ◌∙◌, arith, subst, Bool, true, false, Bool-cases,
  inl, inr, Option, List, [], ◌∷◌, length, leb, ltb,
}
use aimless_onions.Outcome.{ok, ok_injective, bind-ok}
use aimless_onions.ApiTypes.{Address}
use aimless_onions.NodeName.{number}
use aimless_onions.Authority.{
  Bbg, InnerRequests, Stores, no_requests, get_address, allocate_epoch, handle_request,
  handle_get_relay_address, handle_get_hibe_keys, insert_request, allocation_turn, advance,
  update_allocations, clear_requests, clear_allocations,
}
use aimless_onions.Authority.Registry.{IsRegistry, handle_request-IsRegistry}
use aimless_onions.Authority.Serving.{IsAnswer, find_address-IsAnswer}
use aimless_onions.Authority.Server.{
  Server, Reply, Event, request, wakes, Request, register, get_relay_address, get_hibe_keys,
  get_current_public_key, get_next_public_key, serve, start, switch_epoch, start_allocation,
  continue_task, handle_event, run_events,
}
use aimless_onions.Authority.Allocating.{
  IsAnswering, no_allocations-IsAnswering, allocate_epoch-IsAnswering,
}

module _ (b : Bbg) where
  open b use {Rng}

  -- The server after so many events: its registry is in order, with a counter that has not wrapped
  -- around, and both stores of allocations have addresses for all keys.
  pub record IsOrderly (n : ℕ) (s : Server b) : Type 0 where
    pub registry : IsRegistry s.stores.new_requests
    pub counted : s.stores.new_requests.counter ≤ n
    pub current : IsAnswering b s.stores.current_allocations
    pub upcoming : IsAnswering b s.stores.new_allocations

  no_requests-IsRegistry : IsRegistry no_requests
  no_requests-IsRegistry = record {
    same_keys = refl;
    once = tt;
    own_key = tt;
    below = tt;
    distinct = tt;
  }

  pub start-IsOrderly : (rng : Rng) (now : ℕ) → IsOrderly 0 (start b rng now)
  unfolding start
  start-IsOrderly rng now = record {
    registry = no_requests-IsRegistry;
    counted = omega arith;
    current = no_allocations-IsAnswering b;
    upcoming = no_allocations-IsAnswering b;
  }

  IsOrderly-later : (n : ℕ) (s : Server b) → IsOrderly n s → IsOrderly (suc n) s
  IsOrderly-later n s orderly =
      let counted = orderly.counted in
      record {
        registry = orderly.registry;
        counted = omega (arith, counted);
        current = orderly.current;
        upcoming = orderly.upcoming;
      }

  switch_epoch-IsOrderly :
      (n now : ℕ) (s : Server b) → IsOrderly n s → IsOrderly (suc n) (switch_epoch b now s)
  unfolding switch_epoch advance update_allocations clear_requests clear_allocations
  switch_epoch-IsOrderly n now s orderly = record {
    registry = no_requests-IsRegistry;
    counted = omega arith;
    current = orderly.upcoming;
    upcoming = no_allocations-IsAnswering b;
  }

  -- Only the stores matter.
  IsOrderly-same_stores :
      (n : ℕ) (s s' : Server b) → s.stores ≡ s'.stores → IsOrderly n s → IsOrderly (suc n) s'
  IsOrderly-same_stores n s s' same orderly =
      let later = IsOrderly-later n s orderly in
      subst (λ (t : Stores b). IsOrderly (suc n) (record s' { stores = t })) same
        (record {
          registry = later.registry;
          counted = later.counted;
          current = later.current;
          upcoming = later.upcoming;
        })

  start_allocation-IsOrderly :
      (n : ℕ) (s s' : Server b)
      → IsOrderly n s
      → start_allocation b s ≡ ok s'
      → IsOrderly (suc n) s'
  unfolding start_allocation allocation_turn
  start_allocation-IsOrderly n s s' orderly e =
      let (turn, turned, e1) = bind-ok (allocation_turn b s.rng s.stores) _ s' e in
      let result : record s { stores = turn.1; allocated = turn.0; rng = turn.2 } ≡ s' =
        ok_injective e1 in
      let stores_are : turn.1 ≡ s'.stores = ap (λ (t : Server b). t.stores) result in
      elim (Bool-cases (ltb (length s.stores.new_requests.addresses) 2)) [
        | inl few ↦
            let skipped : (false, s.stores, s.rng) ≡ turn = ok_injective (rw few at turned) in
            IsOrderly-same_stores n s s'
              (ap (λ (t : Bool × Stores b × Rng). t.1) skipped ∙ stores_are) orderly
        | inr enough ↦
            let (made, allocated, e2) =
              bind-ok (allocate_epoch b s.rng s.stores.new_requests) _ turn (rw enough at turned) in
            let new_stores : Stores b = record s.stores {
              new_requests = made.0;
              new_allocations = made.1;
            } in
            let parts : (true, new_stores, made.2) ≡ turn = ok_injective e2 in
            let (emptied, answering) =
              allocate_epoch-IsAnswering b s.rng s.stores.new_requests made.0 made.1 made.2
                orderly.registry allocated in
            let good : IsOrderly (suc n) (record s { stores = new_stores }) = record {
              registry = subst IsRegistry (sym emptied) no_requests-IsRegistry;
              counted = omega (arith, ap (λ (r : InnerRequests). r.counter) emptied);
              current = orderly.current;
              upcoming = answering;
            } in
            subst (λ (t : Stores b). IsOrderly (suc n) (record s' { stores = t }))
              (ap (λ (t : Bool × Stores b × Rng). t.1) parts ∙ stores_are)
              (record {
                registry = good.registry;
                counted = good.counted;
                current = good.current;
                upcoming = good.upcoming;
              })
      ]

  serve-IsOrderly :
      (n : ℕ) (q : Request) (s s' : Server b)
      → suc n < 2 ^ 32
      → IsOrderly n s
      → handle_event b (request q) s ≡ ok s'
      → IsOrderly (suc n) s'
  unfolding handle_event serve handle_request insert_request
  serve-IsOrderly n (register q) s s' room orderly e =
      let counted = orderly.counted in
      let counter_is : (handle_request q s.stores.new_requests).counter ≤ suc n =
        omega (arith, counted, room) in
      subst (IsOrderly (suc n)) (ok_injective e) (record {
        registry =
            handle_request-IsRegistry q s.stores.new_requests orderly.registry
              (omega (arith, counted, room));
        counted = counter_is;
        current = orderly.current;
        upcoming = orderly.upcoming;
      })
  serve-IsOrderly n (get_relay_address q) s s' room orderly e =
      let (t, served, e1) = bind-ok (serve b s.rng (get_relay_address q) s.stores) _ s' e in
      let (address, found, e2) =
        bind-ok (handle_get_relay_address b q s.stores.current_allocations) _ t served in
      let kept : s.stores ≡ t.1 = ap (λ (r : Reply b × Stores b × Rng). r.1) (ok_injective e2) in
      IsOrderly-same_stores n s s' (kept ∙ ap (λ (r : Server b). r.stores) (ok_injective e1))
        orderly
  serve-IsOrderly n (get_hibe_keys q) s s' room orderly e =
      let (t, served, e1) = bind-ok (serve b s.rng (get_hibe_keys q) s.stores) _ s' e in
      let (keys_, made, e2) =
        bind-ok (handle_get_hibe_keys b s.rng q s.stores.new_allocations) _ t served in
      let kept : s.stores ≡ t.1 = ap (λ (r : Reply b × Stores b × Rng). r.1) (ok_injective e2) in
      IsOrderly-same_stores n s s' (kept ∙ ap (λ (r : Server b). r.stores) (ok_injective e1))
        orderly
  serve-IsOrderly n get_current_public_key s s' room orderly e =
      IsOrderly-same_stores n s s' (ap (λ (t : Server b). t.stores) (ok_injective e)) orderly
  serve-IsOrderly n get_next_public_key s s' room orderly e =
      IsOrderly-same_stores n s s' (ap (λ (t : Server b). t.stores) (ok_injective e)) orderly

  continue_task-IsOrderly :
      (n : ℕ) (allocated : Bool) (now : ℕ) (s s' : Server b)
      → IsOrderly n s
      → continue_task b allocated now s ≡ ok s'
      → IsOrderly (suc n) s'
  unfolding continue_task
  continue_task-IsOrderly n true now s s' orderly run =
      elim (Bool-cases (leb s.epoch.switchover_time now)) [
        | inl due ↦
            let switched : ok (switch_epoch b now s) ≡ ok s' = rw due at run in
            subst (IsOrderly (suc n)) (ok_injective switched)
              (switch_epoch-IsOrderly n now s orderly)
        | inr early ↦
            let same : ok s ≡ ok s' = rw early at run in
            subst (IsOrderly (suc n)) (ok_injective same) (IsOrderly-later n s orderly)
      ]
  continue_task-IsOrderly n false now s s' orderly run =
      elim (Bool-cases (leb s.epoch.allocation_start_time now)) [
        | inl due ↦ start_allocation-IsOrderly n s s' orderly (rw due at run)
        | inr early ↦
            let same : ok s ≡ ok s' = rw early at run in
            subst (IsOrderly (suc n)) (ok_injective same) (IsOrderly-later n s orderly)
      ]

  handle_event-IsOrderly :
      (n : ℕ) (e : Event) (s s' : Server b)
      → suc n < 2 ^ 32
      → IsOrderly n s
      → handle_event b e s ≡ ok s'
      → IsOrderly (suc n) s'
  unfolding handle_event
  handle_event-IsOrderly n (request q) s s' room orderly run =
      serve-IsOrderly n q s s' room orderly run
  handle_event-IsOrderly n (wakes now) s s' room orderly run =
      continue_task-IsOrderly n s.allocated now s s' orderly run

  pub run_events-IsOrderly :
      (n : ℕ) (es : List Event) (s s' : Server b)
      → n + length es < 2 ^ 32
      → IsOrderly n s
      → run_events b es s ≡ ok s'
      → IsOrderly (n + length es) s'
  unfolding run_events
  run_events-IsOrderly n [] s s' room orderly run =
      let none_left : n ≡ n + 0 = omega arith in
      subst (λ (m : ℕ). IsOrderly m s') none_left (subst (IsOrderly n) (ok_injective run) orderly)
  run_events-IsOrderly n (e ∷ es) s s' room orderly run =
      let (t, handled, rest) = bind-ok (handle_event b e s) _ s' run in
      let one_more : suc n + length es ≡ n + suc (length es) = omega arith in
      subst (λ (m : ℕ). IsOrderly m s') one_more
        (run_events-IsOrderly (suc n) es t s' (omega (arith, room))
          (handle_event-IsOrderly n e s t (omega (arith, room)) orderly handled) rest)

  -- After any fewer than 2 ^ 32 requests and wakes, in any order and with any relays and weights, as
  -- long as no step has panicked: the look-up of any identity does not panic. It gives the address of
  -- a relay that has a node over the identity in the present epoch, or none if no relay has one.
  pub run_events-IsAnswer :
      (es : List Event) (rng : Rng) (now identity : ℕ) (s : Server b)
      → length es < 2 ^ 32
      → run_events b es (start b rng now) ≡ ok s
      → (answer : Option Address) × (get_address b identity s.stores.current_allocations
          ≡ ok answer)
        × IsAnswer
            (number identity)
            s.stores.current_allocations.allocations
            s.stores.current_allocations.addresses
            answer
  unfolding get_address
  run_events-IsAnswer es rng now identity s room run =
      let orderly =
        run_events-IsOrderly 0 es (start b rng now) s (omega (arith, room))
          (start-IsOrderly rng now) run in
      find_address-IsAnswer (number identity) s.stores.current_allocations.allocations
        s.stores.current_allocations.addresses orderly.current.known
