-- ===== src/Authority/Server.antt =====
-- The server of aimless-onions/src/bin/authority.rs: the routes with the stores that they use, and the
-- task of the epochs, which wakes when the time for an allocation or for the switch has come. Requests
-- and wakes come in any order; each takes the locks of its stores, so it is one step.
use aimless_onions.Prelude.{ℕ, Bool, true, false, Option, List, [], ◌∷◌, leb, if◌then◌else◌}
use aimless_onions.Outcome.{Outcome, ok, err, panic, ◌>>=◌}
use aimless_onions.ApiTypes.{Address, RegisterRelay, GetRelayAddress, GetHibeKeys, KeyPair}
use aimless_onions.Shared.{Epoch, Text, next}
use aimless_onions.Net.{any_address, expect_outcome, parse_socket_addr}
use aimless_onions.Authority.{
  Bbg, Stores, no_requests, no_allocations, handle_request, handle_get_relay_address,
  handle_get_hibe_keys, handle_get_public_key, allocation_turn, advance,
}

-- What a route takes from the request.
pub data Request : Type 0 where
  register : RegisterRelay → Request
  get_relay_address : GetRelayAddress → Request
  get_hibe_keys : GetHibeKeys → Request
  get_current_public_key get_next_public_key : Request

pub data Event : Type 0 where
  request : Request → Event
  wakes : (now : ℕ) → Event

module _ (b : Bbg) where
  open b use {PublicParams, PrivateKey, Rng}

  pub data Reply : Type 0 where
    accepted : Reply
    address_is : Option Address → Reply
    keys_are : List (KeyPair PrivateKey) → Reply
    public_key_is : PublicParams → Reply

  unfoldable pub serve : Rng → Request → Stores b → Outcome (Reply × Stores b × Rng)
  serve rng (register q) s =
      ok (accepted, record s { new_requests = handle_request q s.new_requests }, rng)
  serve rng (get_relay_address q) s = do
    address ← handle_get_relay_address b q s.current_allocations
    ok (address_is address, s, rng)
  serve rng (get_hibe_keys q) s = do
    (keys, rng') ← handle_get_hibe_keys b rng q s.new_allocations
    ok (keys_are keys, s, rng')
  serve rng get_current_public_key s =
      ok (public_key_is (handle_get_public_key b s.current_allocations), s, rng)
  serve rng get_next_public_key s =
      ok (public_key_is (handle_get_public_key b s.new_allocations), s, rng)

  -- The macro `ise!` around the body of a handler: an `Err` is answered with the status 500.
  pub data Answer : Type 0 where
    reply_is : Reply → Answer
    internal_server_error : Answer

  unfoldable pub ise : Outcome (Reply × Stores b × Rng) → Outcome Answer
  ise (ok (reply, s, rng)) = ok (reply_is reply)
  ise (err e) = ok internal_server_error
  ise panic = panic

  -- What the sender of a request gets.
  unfoldable pub respond : Rng → Request → Stores b → Outcome Answer
  respond rng q s = ise (serve rng q s)

  -- `allocated`: the task has made the allocation and waits for the switch.
  pub record Server : Type 0 where
    pub stores : Stores b
    pub epoch : Epoch
    pub allocated : Bool
    pub rng : Rng

  unfoldable pub start : Rng → ℕ → Server
  start rng now = record {
    stores = record {
      current_requests = no_requests;
      new_requests = no_requests;
      current_allocations = no_allocations b;
      new_allocations = no_allocations b;
    };
    epoch = next now;
    allocated = false;
    rng = rng;
  }

  -- The task after `wait_for_switchover`, and after `wait_for_allocation_start`.
  unfoldable pub switch_epoch : ℕ → Server → Server
  switch_epoch now s = record s { stores = advance b s.stores; epoch = next now; allocated = false }

  unfoldable pub start_allocation : Server → Outcome Server
  start_allocation s = do
    (allocated, stores, rng) ← allocation_turn b s.rng s.stores
    ok (record s { stores = stores; allocated = allocated; rng = rng })

  -- What the task does next, by what it waits for; a wake that comes too early does nothing.
  unfoldable pub continue_task : (allocated : Bool) → ℕ → Server → Outcome Server
  continue_task true now s =
      if leb s.epoch.switchover_time now then ok (switch_epoch now s) else ok s
  continue_task false now s =
      if leb s.epoch.allocation_start_time now then start_allocation s else ok s

  unfoldable pub handle_event : Event → Server → Outcome Server
  handle_event (request q) s = do
    (reply, stores, rng) ← serve s.rng q s.stores
    ok (record s { stores = stores; rng = rng })
  handle_event (wakes now) s = continue_task s.allocated now s

  unfoldable pub run_events : List Event → Server → Outcome Server
  run_events [] s = ok s
  run_events (e ∷ es) s = do s' ← handle_event e s; run_events es s'

pub record Cli : Type 0 where
  pub address : Text
  pub key_file : Text
  pub cert_file : Text
  pub port : ℕ

-- Where the server listens, and its certificate and key.
unfoldable pub listen : {A : Type 0} → (Text → Option (List A)) → Cli → Outcome (Text × Text × A)
listen to_socket_addrs cli = do
  addr ← expect_outcome (parse_socket_addr to_socket_addrs any_address cli.port)
  ok (cli.cert_file, cli.key_file, addr)
