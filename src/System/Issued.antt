-- ===== src/System/Issued.antt =====
-- The relay to which the authority of aimless-onions/src/bin/authority.rs sends the onions for an
-- identity is one to which it handed out a key for it.
use aimless_onions.Prelude.{
  ℕ, ◌^◌, ◌<◌, ◌≡◌, refl, ap, sym, ◌∙◌, subst, arith, true, false, ◌||◌, Option, none, some, List,
  [], ◌∷◌, ◌++◌, map, length, All,
}
use aimless_onions.Outcome.{Outcome, ok, ok_injective}
use aimless_onions.ApiTypes.{RelayKey, Address, KeyPair}
use aimless_onions.NodeName.{NodeName, number}
use aimless_onions.NodeName.Canonical.{number-IsCanonical}
use aimless_onions.Maps.{lookup}
use aimless_onions.Maps.Once.{lookup-AreOnce}
use aimless_onions.Crypto.{Crypto}
use aimless_onions.Net.{Http}
use aimless_onions.Allocation.{Allocation}
use aimless_onions.Allocation.Depth.{AreShallow}
use aimless_onions.Authority.{
  Bbg, InnerAllocations, any_contains, get_address, handle_get_hibe_keys, advance,
  update_allocations,
}
use aimless_onions.Authority.Serving.{IsAnswer, find_address-IsAnswer}
use aimless_onions.Authority.Allocating.{IsAnswering}
use aimless_onions.Authority.Server.{Server, Event, start, run_events}
use aimless_onions.Authority.Epochs.{run_events-IsOrderly, start-IsOrderly}
use aimless_onions.Relay
use aimless_onions.Relay.{Keygen, LiveAuthority, find_key, get_private_key}
use aimless_onions.Relay.Keys.{IsKeygen, AreKeys, covers, find_key-IsAnswer}
use aimless_onions.Relay.Network.{receive_keys}
use aimless_onions.System.Received.{Issues, read_pair, generate_keys-For, receive_keys-covers}

All-at :
    {A : Type 0} (P : A → Type 0) (before : List A) (x : A) (after : List A)
    → All P (before ++ x ∷ after)
    → P x
All-at P [] x after all = all.0
All-at P (y ∷ before) x after all = All-at P before x after all.1

-- The entry behind an answer that names an address.
IsAnswer-entry :
    (x : NodeName) (as' : List (RelayKey × Allocation)) (addresses : List (RelayKey × Address))
    (address : Address) (r : Option Address)
    → r ≡ some address
    → IsAnswer x as' addresses r
    → (before : List (RelayKey × Allocation)) × (after : List (RelayKey × Allocation))
      × (k : RelayKey) × (a : Allocation) × (as' ≡ before ++ (k, a) ∷ after)
      × (any_contains x a.nodes ≡ true)
      × (lookup k addresses ≡ some address)
IsAnswer-entry x as' addresses address none e (IsAnswer.nobody h) = cc
IsAnswer-entry x as' addresses address (some r) e
      (IsAnswer.owner before after k a _ here covering known) =
    (before, after, k, a, here, covering, known ∙ e)

-- The relay behind an answer of the look-up has an entry with a node over the identity.
pub named-entry :
    (b : Bbg) (identity : ℕ) (a : InnerAllocations b) (address : Address)
    → IsAnswering b a
    → get_address b identity a ≡ ok (some address)
    → (k : RelayKey) × (allocation : Allocation) × (lookup k a.addresses ≡ some address)
      × (lookup k a.allocations ≡ some allocation)
      × AreShallow allocation.nodes
      × (any_contains (number identity) allocation.nodes ≡ true)
unfolding get_address
named-entry b identity a address answering answer =
    let x = number identity in
    let (r, is_r, is_answer) = find_address-IsAnswer x a.allocations a.addresses answering.known in
    let (before, after, k, allocation, here, covering, known) =
      IsAnswer-entry x a.allocations a.addresses address r (ok_injective (sym is_r ∙ answer))
        is_answer in
    let found : lookup k a.allocations ≡ some allocation =
      All-at (λ (e : RelayKey × Allocation). lookup e.0 a.allocations ≡ some e.1) before
        (k, allocation) after
        (subst (All (λ (e : RelayKey × Allocation). lookup e.0 a.allocations ≡ some e.1)) here
          (lookup-AreOnce a.allocations answering.once)) in
    let shallow : AreShallow allocation.nodes =
      All-at (λ (e : RelayKey × Allocation). AreShallow e.1.nodes) before (k, allocation) after
        (subst (All (λ (e : RelayKey × Allocation). AreShallow e.1.nodes)) here
          answering.shallow) in
    (k, allocation, known, found, shallow, covering)

module _ (b : Bbg) (c : Crypto) (g : Keygen c.PrivateKey c.Rng) (h : Http c.PublicKey c.PrivateKey)
    (make_cache : c.PublicKey → Outcome g.Cache) (KeyFor : c.PrivateKey → NodeName → Type 0)
    (IsCache : g.Cache → Type 0) (keygen : IsKeygen c g KeyFor IsCache)
    (read_key : b.PrivateKey → c.PrivateKey) (read_params : b.PublicParams → c.PublicKey) where
  open g use {Cache}

  -- A relay that asks with this key is answered, can read what it gets, and has then a private key
  -- for the identity.
  pub record HasKey (identity : ℕ) (a : InnerAllocations b) (k : RelayKey) (rng : b.Rng)
      (rng' : c.Rng) : Type 0 where
    pub pairs : List (KeyPair b.PrivateKey)
    pub rest : b.Rng
    pub handed : handle_get_hibe_keys b rng (record { key = k }) a ≡ ok (pairs, rest)
    pub received : List (NodeName × (Cache × c.PrivateKey))
    pub kept :
        receive_keys c g h make_cache
          (read_params a.public_params)
          (map (read_pair b c g h make_cache KeyFor IsCache keygen read_key) pairs)
          []
        ≡ ok received
    pub good : AreKeys c g KeyFor IsCache keygen received
    pub covered : covers c g KeyFor IsCache keygen (number identity) received ≡ true
    pub key : c.PrivateKey
    pub derived :
        (live : LiveAuthority c g)
        → live.received_keys ≡ received
        → (rest' : c.Rng) × (get_private_key c g rng' live identity ≡ ok (some key, rest'))
    pub is_for : KeyFor key (number identity)

  covered-HasAnswer :
      (x : NodeName) (received : List (NodeName × (Cache × c.PrivateKey)))
      (answer : Option c.PrivateKey)
      → covers c g KeyFor IsCache keygen x received ≡ true
      → Relay.Keys.IsAnswer c g KeyFor IsCache keygen x received answer
      → (key : c.PrivateKey) × (answer ≡ some key) × KeyFor key x
  covered-HasAnswer x received none covered has = cc
  covered-HasAnswer x received (some key) covered has = (key, refl, has.1)

  pub allocated-HasKey :
      (identity : ℕ) (a : InnerAllocations b) (k : RelayKey) (allocation : Allocation)
      (cache : Cache) (rng : b.Rng) (rng' : c.Rng)
      → Issues b c g h make_cache KeyFor IsCache keygen read_key a.public_params a.master_key
      → make_cache (read_params a.public_params) ≡ ok cache
      → IsCache cache
      → lookup k a.allocations ≡ some allocation
      → AreShallow allocation.nodes
      → any_contains (number identity) allocation.nodes ≡ true
      → HasKey identity a k rng rng'
  unfolding handle_get_hibe_keys get_private_key
  allocated-HasKey identity a k allocation cache rng rng' issues made cached found shallow
        covering =
      let x = number identity in
      let (pairs, rest, generated, nodes, good) =
        generate_keys-For b c g h make_cache KeyFor IsCache keygen read_key a.public_params
          a.master_key issues rng allocation.nodes shallow in
      let (received, kept, all_kept, covered) =
        receive_keys-covers b c g h make_cache KeyFor IsCache keygen read_key x
          (read_params a.public_params) cache made cached pairs [] good tt in
      let all_covered : covers c g KeyFor IsCache keygen x received ≡ true =
        covered
        ∙ ap (λ (ns : List NodeName). any_contains x ns || false) nodes
        ∙ rw covering refl in
      let (answer, rest', run, is_answer) =
        find_key-IsAnswer c g KeyFor IsCache keygen rng' x received (number-IsCanonical identity)
          all_kept in
      let (key, is_key, is_for) = covered-HasAnswer x received answer all_covered is_answer in
      record {
        pairs = pairs;
        rest = rest;
        handed = rw (found, handle_get_hibe_keys) generated;
        received = received;
        kept = kept;
        good = all_kept;
        covered = all_covered;
        key = key;
        derived = λ live same. (
          rest',
          ap (find_key c g rng' x) same
              ∙ run
              ∙ ap (λ (t : Option c.PrivateKey). ok (t, rest')) is_key,
        );
        is_for = is_for;
      }

  -- The relay behind an answer of the look-up.
  named-HasKey :
      (identity : ℕ) (a : InnerAllocations b) (address : Address) (cache : Cache) (rng : b.Rng)
      (rng' : c.Rng)
      → IsAnswering b a
      → Issues b c g h make_cache KeyFor IsCache keygen read_key a.public_params a.master_key
      → make_cache (read_params a.public_params) ≡ ok cache
      → IsCache cache
      → get_address b identity a ≡ ok (some address)
      → (k : RelayKey) × (lookup k a.addresses ≡ some address) × HasKey identity a k rng rng'
  named-HasKey identity a address cache rng rng' answering issues made cached answer =
      let (k, allocation, known, found, shallow, covering) =
        named-entry b identity a address answering answer in
      (
        k,
        known,
        allocated-HasKey identity a k allocation cache rng rng' issues made cached found shallow
            covering,
      )

  -- After any fewer than 2 ^ 32 requests and wakes of the authority, as long as no step has panicked:
  -- when the scheme makes keys for all names of at most 32 digits and the relays can make a generator
  -- from the public key of the coming epoch, which derives keys of children, the relay that the
  -- authority names for an identity after the next switch of epochs is one with a registered key for
  -- which it hands out, before the switch, keys from which get_private_key derives the private key for
  -- the identity.
  pub named_relay-HasKey :
      (es : List Event) (rng : b.Rng) (now identity : ℕ) (s : Server b) (address : Address)
      (cache : Cache) (rng' : b.Rng) (rng'' : c.Rng)
      → length es < 2 ^ 32
      → run_events b es (start b rng now) ≡ ok s
      → Issues b c g h make_cache KeyFor IsCache keygen read_key
          s.stores.new_allocations.public_params s.stores.new_allocations.master_key
      → make_cache (read_params s.stores.new_allocations.public_params) ≡ ok cache
      → IsCache cache
      → get_address b identity (advance b s.stores).current_allocations ≡ ok (some address)
      → (k : RelayKey) × (lookup k s.stores.new_allocations.addresses ≡ some address)
        × HasKey identity s.stores.new_allocations k rng' rng''
  unfolding advance update_allocations
  named_relay-HasKey es rng now identity s address cache rng' rng'' room run issues made cached
        answer =
      let orderly =
        run_events-IsOrderly b 0 es (start b rng now) s (omega (arith, room))
          (start-IsOrderly b rng now) run in
      named-HasKey identity s.stores.new_allocations address cache rng' rng'' orderly.upcoming
        issues made cached answer
