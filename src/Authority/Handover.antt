-- ===== src/Authority/Handover.antt =====
-- What clients and relays fetch from the authority of aimless-onions/src/bin/authority.rs before a
-- switch of epochs is what is in use after it.
use aimless_onions.Prelude.{
  ℕ, Option, refl, ◌≤◌, ◌≡◌, ap, sym, ◌∙◌, subst, Bool, true, List, [], ◌∷◌, ◌++◌, map, le→leb,
}
use aimless_onions.Outcome.{Outcome, ok, err, panic, ◌>>=◌, ok_injective, bind-ok}
use aimless_onions.ApiTypes.{Address, GetRelayAddress, GetHibeKeys, KeyPair}
use aimless_onions.Maps.{lookup}
use aimless_onions.Shared.{Epoch}
use aimless_onions.Authority.{
  Bbg, Stores, InnerAllocations, no_allocations, get_address, handle_get_public_key, advance,
  update_allocations, clear_allocations, handle_get_relay_address, handle_get_hibe_keys,
}
use aimless_onions.Authority.Server.{
  Server, Answer, reply_is, internal_server_error, keys_are, address_is, public_key_is, ise,
  respond, Reply, request, wakes, Request, register, get_relay_address, get_hibe_keys,
  get_current_public_key, get_next_public_key, serve, switch_epoch, continue_task, handle_event,
  run_events,
}

module _ (b : Bbg) where
  -- A request changes neither the allocations nor what the task waits for.
  pub record IsKept (s s' : Server b) : Type 0 where
    pub upcoming : s.stores.new_allocations ≡ s'.stores.new_allocations
    pub same_epoch : s.epoch ≡ s'.epoch
    pub same_task : s.allocated ≡ s'.allocated

  IsKept-of :
      (s s' : Server b) (stores : Stores b) (rng : b.Rng)
      → s.stores.new_allocations ≡ stores.new_allocations
      → record s { stores = stores; rng = rng } ≡ s'
      → IsKept s s'
  IsKept-of s s' stores rng kept made = record {
    upcoming = kept ∙ ap (λ (t : Server b). t.stores.new_allocations) made;
    same_epoch = ap (λ (t : Server b). t.epoch) made;
    same_task = ap (λ (t : Server b). t.allocated) made;
  }

  serve-kept :
      (q : Request) (rng : b.Rng) (stores : Stores b) (r : Reply b × Stores b × b.Rng)
      → serve b rng q stores ≡ ok r
      → stores.new_allocations ≡ r.1.new_allocations
  unfolding serve
  serve-kept (register q) rng stores r e =
      ap (λ (t : Reply b × Stores b × b.Rng). t.1.new_allocations) (ok_injective e)
  serve-kept (get_relay_address q) rng stores r e =
      let (address, found, e1) =
        bind-ok (handle_get_relay_address b q stores.current_allocations) _ r e in
      ap (λ (t : Reply b × Stores b × b.Rng). t.1.new_allocations) (ok_injective e1)
  serve-kept (get_hibe_keys q) rng stores r e =
      let (made, found, e1) = bind-ok (handle_get_hibe_keys b rng q stores.new_allocations) _ r e in
      ap (λ (t : Reply b × Stores b × b.Rng). t.1.new_allocations) (ok_injective e1)
  serve-kept get_current_public_key rng stores r e =
      ap (λ (t : Reply b × Stores b × b.Rng). t.1.new_allocations) (ok_injective e)
  serve-kept get_next_public_key rng stores r e =
      ap (λ (t : Reply b × Stores b × b.Rng). t.1.new_allocations) (ok_injective e)

  request-IsKept :
      (q : Request) (s s' : Server b) → handle_event b (request q) s ≡ ok s' → IsKept s s'
  unfolding handle_event
  request-IsKept q s s' e =
      let (r, served, e1) = bind-ok (serve b s.rng q s.stores) _ s' e in
      IsKept-of s s' r.1 r.2 (serve-kept q s.rng s.stores r served) (ok_injective e1)

  -- However many requests come first, the allocations after the switch are those for the next epoch.
  run_events-switched :
      (qs : List Request) (now : ℕ) (s s' : Server b)
      → s.allocated ≡ true
      → s.epoch.switchover_time ≤ now
      → run_events b (map request qs ++ wakes now ∷ []) s ≡ ok s'
      → (s'.stores.current_allocations ≡ s.stores.new_allocations)
        × (s'.stores.new_allocations ≡ no_allocations b)
  unfolding run_events handle_event continue_task switch_epoch advance update_allocations
      clear_allocations
  run_events-switched [] now s s' waits due run =
      let (t, woken, rest) = bind-ok (handle_event b (wakes now) s) _ s' run in
      let switched : continue_task b true now s ≡ ok t =
        ap (λ (a : Bool). continue_task b a now s) (sym waits) ∙ woken in
      let made : switch_epoch b now s ≡ s' =
        ok_injective (rw (le→leb s.epoch.switchover_time now due) at switched)
        ∙ ok_injective rest in
      (
        sym (ap (λ (u : Server b). u.stores.current_allocations) made),
        sym (ap (λ (u : Server b). u.stores.new_allocations) made),
      )
  run_events-switched (q ∷ qs) now s s' waits due run =
      let (t, handled, rest) = bind-ok (handle_event b (request q) s) _ s' run in
      let kept = request-IsKept q s t handled in
      let due' : t.epoch.switchover_time ≤ now =
        subst (λ (e : Epoch). e.switchover_time ≤ now) kept.same_epoch due in
      let (current, empty) =
        run_events-switched qs now t s' (sym kept.same_task ∙ waits) due' rest in
      (current ∙ sym kept.upcoming, empty)

  -- The answers that carry these results.
  abbrev pub pairs_answer : Outcome (List (KeyPair b.PrivateKey) × b.Rng) → Outcome (Answer b)
  pairs_answer (ok (pairs, rng)) = ok (reply_is (keys_are pairs))
  pairs_answer (err x) = ok internal_server_error
  pairs_answer panic = panic

  abbrev pub address_answer : Outcome (Option Address) → Outcome (Answer b)
  address_answer (ok address) = ok (reply_is (address_is address))
  address_answer (err x) = ok internal_server_error
  address_answer panic = panic

  -- What the server answers before a switch, in the state `s`, and after it, in `s'`.
  pub record IsHandover (s s' : Server b) : Type 0 where
    -- The public key that clients fetch for the next epoch is the one that is current after the switch.
    pub same_key :
        (rng rng' : b.Rng)
        → respond b rng get_next_public_key s.stores
          ≡ respond b rng' get_current_public_key s'.stores
    -- The keys that relays fetch are made out of the allocations that are in use after the switch.
    pub same_pairs :
        (rng : b.Rng) (q : GetHibeKeys)
        → respond b rng (get_hibe_keys q) s.stores
          ≡ pairs_answer (handle_get_hibe_keys b rng q s'.stores.current_allocations)
    -- The addresses that are given after the switch are those of the allocations of which relays
    -- fetched their keys.
    pub same_addresses :
        (rng : b.Rng) (q : GetRelayAddress)
        → respond b rng (get_relay_address q) s'.stores
          ≡ address_answer (get_address b q.identity s.stores.new_allocations)
    -- For the epoch after that nothing is given out yet.
    pub same_next :
        (rng : b.Rng)
        → respond b rng get_next_public_key s'.stores
          ≡ ok (reply_is (public_key_is b.default_params))
    pub no_pairs :
        (rng : b.Rng) (q : GetHibeKeys)
        → respond b rng (get_hibe_keys q) s'.stores ≡ ok (reply_is (keys_are []))

  answers_pairs :
      (s : Stores b) (o : Outcome (List (KeyPair b.PrivateKey) × b.Rng))
      → ise b (o >>= λ (r : List (KeyPair b.PrivateKey) × b.Rng). ok (keys_are r.0, s, r.1))
        ≡ pairs_answer o
  unfolding ise
  answers_pairs s (ok r) = refl
  answers_pairs s (err x) = refl
  answers_pairs s panic = refl

  answers_address :
      (s : Stores b) (rng : b.Rng) (o : Outcome (Option Address))
      → ise b (o >>= λ (r : Option Address). ok (address_is r, s, rng)) ≡ address_answer o
  unfolding ise
  answers_address s rng (ok r) = refl
  answers_address s rng (err x) = refl
  answers_address s rng panic = refl

  none_handed :
      (rng : b.Rng) (q : GetHibeKeys)
      → pairs_answer (handle_get_hibe_keys b rng q (no_allocations b)) ≡ ok (reply_is (keys_are []))
  unfolding handle_get_hibe_keys lookup
  none_handed rng q = refl

  -- From a state in which the task waits for the switch after an allocation, however many requests
  -- come before it wakes at the switchover time or later: the route for the next public key answered
  -- before what the route for the current one answers after the switch, the keys that were handed out
  -- are made out of the allocations from which the route for addresses answers after the switch, and
  -- then the routes for the next epoch answer with the default key and with no keys.
  pub run_events-IsHandover :
      (qs : List Request) (now : ℕ) (s s' : Server b)
      → s.allocated ≡ true
      → s.epoch.switchover_time ≤ now
      → run_events b (map request qs ++ wakes now ∷ []) s ≡ ok s'
      → IsHandover s s'
  unfolding respond serve handle_get_public_key handle_get_relay_address ise
  run_events-IsHandover qs now s s' waits due run =
      let (current, empty) = run_events-switched qs now s s' waits due run in
      record {
        same_key = λ rng rng'.
            ap (λ (a : InnerAllocations b). ok (reply_is (public_key_is a.public_params)))
              (sym current);
        same_pairs = λ rng q.
            answers_pairs s.stores (handle_get_hibe_keys b rng q s.stores.new_allocations)
            ∙ ap (λ (a : InnerAllocations b). pairs_answer (handle_get_hibe_keys b rng q a))
                (sym current);
        same_addresses = λ rng q.
            answers_address s'.stores rng (get_address b q.identity s'.stores.current_allocations)
            ∙ ap (λ (a : InnerAllocations b). address_answer (get_address b q.identity a)) current;
        same_next = λ rng.
            ap (λ (a : InnerAllocations b). ok (reply_is (public_key_is a.public_params))) empty;
        no_pairs = λ rng q.
            answers_pairs s'.stores (handle_get_hibe_keys b rng q s'.stores.new_allocations)
            ∙ ap (λ (a : InnerAllocations b). pairs_answer (handle_get_hibe_keys b rng q a)) empty
            ∙ none_handed rng q;
      }
