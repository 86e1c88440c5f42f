-- ===== src/Authority.antt =====
-- aimless-onions/src/bin/authority.rs: the stores of requests and allocations, the handlers and the
-- steps of an epoch. A handler holds the lock of its store, so each is one function on the store; the
-- store of requests and that of allocations exist twice, for the present epoch and the next one.
pub mod Registry
pub mod Serving
pub mod Keys
pub mod Server
pub mod Ids
pub mod Allocating
pub mod Shares
pub mod Turns
pub mod Agreement
pub mod Handover
mod ServerTests
pub mod SharesTests
pub mod AgreementTests
pub mod Epochs
pub mod Tests
use aimless_onions.Prelude.{
  ℕ, zero, suc, ◌+◌, ◌%◌, ◌^◌, Bool, true, false, ◌||◌, Option, none, some, List, [], ◌∷◌, length,
  ltb, ◌==◌, if◌then◌else◌,
}
use aimless_onions.Outcome.{Outcome, ok, err, panic, ◌>>=◌, or_panic}
use aimless_onions.ApiTypes.{
  RelayKey, Address, RegisterRelay, GetHibeKeys, GetRelayAddress, KeyPair,
}
use aimless_onions.NodeName.{NodeName, contains, number, path_bits}
use aimless_onions.Allocation
use aimless_onions.Allocation.{AllocationRequest, Allocation}
use aimless_onions.Maps.{lookup, insert, values}

pub record InnerRequests : Type 0 where
  pub requests : List (RelayKey × AllocationRequest)
  pub addresses : List (RelayKey × Address)
  pub counter : ℕ

-- `Default::default()`
abbrev pub no_requests : InnerRequests
no_requests = record { requests = []; addresses = []; counter = 0 }

-- `InnerRequests::insert`; the counter is a u32.
unfoldable pub insert_request : RelayKey → Address → ℕ → InnerRequests → InnerRequests
insert_request key address weight r = record {
  requests = insert key (record { id = r.counter; key = key; weight = weight }) r.requests;
  addresses = insert key address r.addresses;
  counter = (r.counter + 1) % 2 ^ 32;
}

unfoldable pub handle_request : RegisterRelay → InnerRequests → InnerRequests
handle_request q r = insert_request q.key (q.address, q.port) q.weight r

-- `InnerRequests::update_from` and `InnerRequests::clear`
unfoldable pub update_requests : InnerRequests → InnerRequests → InnerRequests
update_requests r from = record r {
  addresses = from.addresses;
  requests = from.requests;
  counter = from.counter;
}

unfoldable pub clear_requests : InnerRequests → InnerRequests
clear_requests r = record r { addresses = []; requests = []; counter = 0 }

-- The map from ids to keys that `allocate` collects.
unfoldable pub insert_id : ℕ → RelayKey → List (ℕ × RelayKey) → List (ℕ × RelayKey)
insert_id i k [] = (i, k) ∷ []
insert_id i k ((j, k') ∷ m) =
    let rest = insert_id i k m in if j == i then (j, k) ∷ m else (j, k') ∷ rest

unfoldable pub lookup_id : ℕ → List (ℕ × RelayKey) → Option RelayKey
lookup_id i [] = none
lookup_id i ((j, k) ∷ m) = if j == i then some k else lookup_id i m

unfoldable pub reverse_keys :
    List (RelayKey × AllocationRequest) → List (ℕ × RelayKey) → List (ℕ × RelayKey)
reverse_keys [] m = m
reverse_keys ((key, req) ∷ rs) m = reverse_keys rs (insert_id req.id key m)

-- The last loop of `allocate`; a missing id panics.
unfoldable pub insert_allocations :
    List (ℕ × RelayKey)
    → List Allocation
    → List (RelayKey × Allocation)
    → Outcome (List (RelayKey × Allocation))
insert_allocations m [] acc = ok acc
insert_allocations m (a ∷ as') acc = do
  key ← or_panic (lookup_id a.id m)
  insert_allocations m as' (insert key a acc)

unfoldable pub any_contains : NodeName → List NodeName → Bool
any_contains x [] = false
any_contains x (n ∷ ns) = contains n x || any_contains x ns

-- What `get_address` finds among the entries; an allocation of a key with no address panics.
unfoldable pub find_address :
    NodeName → List (RelayKey × Allocation) → List (RelayKey × Address) → Outcome (Option Address)
find_address x [] addresses = ok none
find_address x ((key, a) ∷ as') addresses =
    let rest = find_address x as' addresses in
    if any_contains x a.nodes
    then (do address ← or_panic (lookup key addresses); ok (some address))
    else rest

-- `BonehBoyenGoh` of hohibe: `setup` and `generate_key` draw from a random number generator. The digits
-- that name a node come from the mapper of src/nodename.rs.
pub record Bbg : Type 1 where
  pub PublicParams : Type 0
  pub MasterKey : Type 0
  pub PrivateKey : Type 0
  pub Rng : Type 0
  pub default_params : PublicParams
  pub default_master : MasterKey
  pub setup : Rng → (PublicParams × MasterKey) × Rng
  pub generate_key : Rng → PublicParams → MasterKey → List ℕ → Option PrivateKey × Rng

module _ (b : Bbg) where
  open b use {PublicParams, MasterKey, PrivateKey, Rng}

  pub record InnerAllocations : Type 0 where
    pub allocations : List (RelayKey × Allocation)
    pub addresses : List (RelayKey × Address)
    pub public_params : PublicParams
    pub master_key : MasterKey

  abbrev pub no_allocations : InnerAllocations
  no_allocations = record {
    allocations = [];
    addresses = [];
    public_params = b.default_params;
    master_key = b.default_master;
  }

  -- `InnerAllocations::update_from` and `InnerAllocations::clear`
  unfoldable pub update_allocations : InnerAllocations → InnerAllocations → InnerAllocations
  update_allocations a from = record a {
    addresses = from.addresses;
    allocations = from.allocations;
    public_params = from.public_params;
    master_key = from.master_key;
  }

  unfoldable pub clear_allocations : InnerAllocations → InnerAllocations
  clear_allocations a = record a {
    addresses = [];
    allocations = [];
    public_params = b.default_params;
    master_key = b.default_master;
  }

  unfoldable pub get_address : ℕ → InnerAllocations → Outcome (Option Address)
  get_address identity a = find_address (number identity) a.allocations a.addresses

  unfoldable pub handle_get_relay_address :
      GetRelayAddress → InnerAllocations → Outcome (Option Address)
  handle_get_relay_address q a = get_address q.identity a

  -- `allocate`: the requests and the addresses are taken out of the store. A panic ends the task that
  -- runs the epochs.
  unfoldable pub allocate_epoch :
      Rng → InnerRequests → Outcome (InnerRequests × InnerAllocations × Rng)
  allocate_epoch rng r = do
    let ((params, master), rng') = b.setup rng
    let by_id = reverse_keys r.requests []
    allocs ← or_panic (Allocation.allocate (values r.requests))
    allocations ← insert_allocations by_id allocs []
    ok (
      no_requests,
      record {
        allocations = allocations;
        addresses = r.addresses;
        public_params = params;
        master_key = master;
      },
      rng',
    )

  -- One key for each node, in order.
  unfoldable pub generate_keys :
      Rng → PublicParams → MasterKey → List NodeName → Outcome (List (KeyPair PrivateKey) × Rng)
  generate_keys rng params master [] = ok ([], rng)
  generate_keys rng params master (n ∷ ns) = do
    let (made, rng') = b.generate_key rng params master (path_bits n)
    key ← or_panic made
    (rest, rng'') ← generate_keys rng' params master ns
    ok (record { node = n; key = key } ∷ rest, rng'')

  unfoldable pub handle_get_hibe_keys :
      Rng → GetHibeKeys → InnerAllocations → Outcome (List (KeyPair PrivateKey) × Rng)
  handle_get_hibe_keys rng q a = elim (lookup q.key a.allocations) [
    | none ↦ ok ([], rng)
    | some allocation ↦ generate_keys rng a.public_params a.master_key allocation.nodes
  ]

  unfoldable pub handle_get_public_key : InnerAllocations → PublicParams
  handle_get_public_key a = a.public_params

  -- The two stores, each with the present and the next one.
  pub record Stores : Type 0 where
    pub current_requests : InnerRequests
    pub new_requests : InnerRequests
    pub current_allocations : InnerAllocations
    pub new_allocations : InnerAllocations

  -- `advance`: the present stores become the next ones, which are cleared.
  unfoldable pub advance : Stores → Stores
  advance s =
      let updated_requests = record s {
        current_requests = update_requests s.current_requests s.new_requests;
      } in
      let updated = record updated_requests {
        current_allocations = update_allocations s.current_allocations s.new_allocations;
      } in
      let cleared = record updated { new_requests = clear_requests updated.new_requests } in
      record cleared { new_allocations = clear_allocations cleared.new_allocations }

  -- The first half of a turn of the loop over the epochs, after the wait for the allocation; `false` is
  -- a skipped epoch. The second half, after the wait for the switch, is `advance`.
  unfoldable pub allocation_turn : Rng → Stores → Outcome (Bool × Stores × Rng)
  allocation_turn rng s =
      let num_relays = length s.new_requests.addresses in
      if ltb num_relays 2 then ok (false, s, rng) else (do
        (requests, allocations, rng') ← allocate_epoch rng s.new_requests
        ok (true, record s { new_requests = requests; new_allocations = allocations }, rng'))
