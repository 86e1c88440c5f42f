-- ===== src/Authority/Turns.antt =====
-- What the authority of aimless-onions/src/bin/authority.rs serves after a whole epoch: the relays that
-- were registered, each with its part of the identities.
use aimless_onions.Prelude.{
  ℕ, arith, ltb, ◌*◌, ◌/◌, ◌^◌, ◌≤◌, ◌≡◌, refl, ap, ◌∙◌, true, false, Bool-cases, inl, inr, ◌⊎◌,
  Option, none, some, List, [], ◌∷◌, length,
}
use mathlib.Core.Option.{some-injective}
use aimless_onions.Outcome.{ok}
use aimless_onions.ApiTypes.{RelayKey, Address}
use aimless_onions.Wire.{bytes_eq}
use aimless_onions.NodeName.{NodeName, number}
use aimless_onions.Maps.{lookup, values}
use aimless_onions.Allocation.{AllocationRequest, Allocation}
use aimless_onions.Allocation.Cells.{nodes_size}
use aimless_onions.Allocation.Round.{total_weight}
use aimless_onions.Allocation.Shares.{IsWeighted}
use aimless_onions.Authority.{
  Bbg, Stores, InnerRequests, InnerAllocations, no_requests, no_allocations, any_contains,
  get_address, allocate_epoch, allocation_turn, advance, update_allocations, clear_requests,
  clear_allocations,
}
use aimless_onions.Authority.Registry.{IsRegistry}
use aimless_onions.Authority.Serving.{
  IsServing, IsAnswer, nobody, owner, any_owner, or_true, allocate_epoch-IsServing,
}
use aimless_onions.Authority.Shares.{allocate_epoch-shares}

any_owner-lookup :
    (x : NodeName) (k : RelayKey) (as' : List (RelayKey × Allocation)) (given : Allocation)
    → lookup k as' ≡ some given
    → any_contains x given.nodes ≡ true
    → any_owner x as' ≡ true
unfolding lookup
any_owner-lookup x k [] given found covering = cc
any_owner-lookup x k ((j, a) ∷ as') given found covering = elim (Bool-cases (bytes_eq j k)) [
  | inl e ↦
      let same : a ≡ given = some-injective _ _ (rw e at found) in
      let here : any_contains x a.nodes ≡ true =
        ap (λ (t : Allocation). any_contains x t.nodes) same ∙ covering in
      rw here refl
  | inr e ↦
      let there = any_owner-lookup x k as' given (rw e at found) covering in
      rw there (or_true (any_contains x a.nodes))
]

-- An owned identity is answered with the address of an owner.
IsAnswer-owned :
    (x : NodeName) (as' : List (RelayKey × Allocation)) (addresses : List (RelayKey × Address))
    (answer : Option Address)
    → IsAnswer x as' addresses answer
    → any_owner x as' ≡ true
    → (address : Address) × (answer ≡ some address)
IsAnswer-owned x as' addresses none (nobody h) owned = cc
IsAnswer-owned x as' addresses (some a) (owner before after k r _ here covers known) owned =
    (a, refl)

module _ (b : Bbg) where
  -- The relay has its part of the identities, and each of these is answered with an address.
  pub record IsProvided (r : InnerRequests) (a : InnerAllocations b) (k : RelayKey)
      (q : AllocationRequest) : Type 0 where
    pub given : Allocation
    pub stored : lookup k a.allocations ≡ some given
    pub size : nodes_size given.nodes ≡ 2 ^ 32 * q.weight / total_weight (values r.requests)
    pub answered :
        (identity : ℕ)
        → (any_contains (number identity) given.nodes ≡ false)
          ⊎ ((address : Address) × (get_address b identity a ≡ ok (some address)))

  provided :
      (rng rng' : b.Rng) (r : InnerRequests) (a : InnerAllocations b) (k : RelayKey)
      (q : AllocationRequest)
      → IsRegistry r
      → IsWeighted (values r.requests)
      → allocate_epoch b rng r ≡ ok (no_requests, a, rng')
      → IsServing b r a
      → lookup k r.requests ≡ some q
      → IsProvided r a k q
  provided rng rng' r a k q registry weighted made serving registered =
      let (given, stored, size) =
        allocate_epoch-shares b rng r no_requests a rng' k q registry weighted made registered in
      record {
        given = given;
        stored = stored;
        size = size;
        answered = λ identity. elim (Bool-cases (any_contains (number identity) given.nodes)) [
          | inl covering ↦
              let (answer, found, is_answer) = serving.answers identity in
              let (address, is_some) =
                IsAnswer-owned (number identity) a.allocations a.addresses answer is_answer
                  (any_owner-lookup (number identity) k a.allocations given stored covering) in
              inr (address, found ∙ ap ok is_some)
          | inr apart ↦ inl apart
        ];
      }

  -- A turn with at least two relays, in order and with a positive total weight below 2 ^ 64, goes on to
  -- the switch. After the switch every relay that was registered before the turn holds nodes with exactly
  -- its weight's part of the 2 ^ 32 identities, rounded down; each identity below one of its nodes is
  -- answered with an address; every answer is the registered address of a relay that holds a node over
  -- the identity, or none if no relay holds one; and the next stores are empty.
  pub allocation_turn-IsServing :
      (rng : b.Rng) (s : Stores b) (k : RelayKey) (q : AllocationRequest)
      → IsRegistry s.new_requests
      → IsWeighted (values s.new_requests.requests)
      → 2 ≤ length s.new_requests.addresses
      → lookup k s.new_requests.requests ≡ some q
      → (s' : Stores b) × (rng' : b.Rng) × (allocation_turn b rng s ≡ ok (true, s', rng'))
        × IsServing b s.new_requests (advance b s').current_allocations
        × IsProvided s.new_requests (advance b s').current_allocations k q
        × ((advance b s').new_requests ≡ no_requests)
        × ((advance b s').new_allocations ≡ no_allocations b)
  unfolding allocation_turn advance update_allocations clear_requests clear_allocations
  allocation_turn-IsServing rng s k q registry weighted some_relays registered =
      let (a, rng', made, serving) =
        allocate_epoch-IsServing b rng s.new_requests registry weighted in
      let enough : ltb (length s.new_requests.addresses) 2 ≡ false = ground (arith, some_relays) in
      (
        record s { new_requests = no_requests; new_allocations = a },
        rng',
        rw (enough, made),
        serving,
        provided rng rng' s.new_requests a k q registry weighted made serving registered,
        refl,
        refl,
      )
