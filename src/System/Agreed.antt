-- ===== src/System/Agreed.antt =====
-- The relay to which one authority of aimless-onions/src/bin/authority.rs sends an onion has the keys of
-- the other authorities too.
use aimless_onions.Prelude.{
  ℕ, ◌≡◌, refl, ap, sym, ◌∙◌, subst, true, some, List, [], ◌∷◌, Bool-cases, inl, inr,
}
use mathlib.Core.Option.{some-injective}
use aimless_onions.Outcome.{Outcome, ok, ok_injective, bind-ok, or_panic}
use aimless_onions.ApiTypes.{RelayKey, Address}
use aimless_onions.NodeName.{NodeName, number}
use aimless_onions.Wire.{bytes_eq}
use aimless_onions.Maps.{lookup, keys, values, has_key, lookup-has_key}
use aimless_onions.Crypto.{Crypto}
use aimless_onions.Net.{Http}
use aimless_onions.Allocation
use aimless_onions.Allocation.{AllocationRequest, Allocation}
use aimless_onions.Allocation.Depth.{AreShallow}
use aimless_onions.Allocation.Shares.{IsWeighted}
use aimless_onions.Authority.{
  Bbg, InnerRequests, InnerAllocations, any_contains, get_address, reverse_keys, insert_allocations,
  allocate_epoch,
}
use aimless_onions.Authority.Agreement.{registered_weight, allocate_epoch-agrees}
use aimless_onions.Authority.Allocating.{allocate_epoch-IsAnswering}
use aimless_onions.Authority.Registry.{IsRegistry}
use aimless_onions.Relay.{Keygen}
use aimless_onions.Relay.Keys.{IsKeygen}
use aimless_onions.System.Received.{Issues}
use aimless_onions.System.Issued.{named-entry, HasKey, allocated-HasKey}

lookup-registered :
    {A : Type 0} (k : RelayKey) (m : List (RelayKey × A)) (v : A)
    → lookup k m ≡ some v
    → has_key k (keys m) ≡ true
unfolding lookup has_key
lookup-registered k [] v found = cc
lookup-registered k ((j, w) ∷ m) v found = elim (Bool-cases (bytes_eq j k)) [
  | inl e ↦ rw e refl
  | inr e ↦ rw e (lookup-registered k m v (rw e at found))
]

-- A relay with an address is registered.
pub named-registered :
    (r : InnerRequests) (k : RelayKey) (address : Address)
    → IsRegistry r
    → lookup k r.addresses ≡ some address
    → (q : AllocationRequest) × (lookup k r.requests ≡ some q)
named-registered r k address registry known = lookup-has_key k r.requests (
    subst (λ (ks : List RelayKey). has_key k ks ≡ true) (sym registry.same_keys)
      (lookup-registered k r.addresses address known))

-- The addresses that an allocation stores are those of the registry.
pub stored_addresses :
    (b : Bbg) (rng : b.Rng) (r r' : InnerRequests) (a : InnerAllocations b) (rng' : b.Rng)
    → allocate_epoch b rng r ≡ ok (r', a, rng')
    → a.addresses ≡ r.addresses
unfolding allocate_epoch
stored_addresses b rng r r' a rng' e =
    let (allocs, allocated, e1) =
      bind-ok (or_panic (Allocation.allocate (values r.requests))) _ (r', a, rng') e in
    let (allocations, inserted, e2) =
      bind-ok (insert_allocations (reverse_keys r.requests []) allocs []) _ (r', a, rng') e1 in
    sym (ap (λ (t : InnerRequests × InnerAllocations b × b.Rng). t.1.addresses) (ok_injective e2))

module _ (b : Bbg) (c : Crypto) (g : Keygen c.PrivateKey c.Rng) (h : Http c.PublicKey c.PrivateKey)
    (make_cache : c.PublicKey → Outcome g.Cache) (KeyFor' : c.PrivateKey → NodeName → Type 0)
    (IsCache' : g.Cache → Type 0) (keygen' : IsKeygen c g KeyFor' IsCache')
    (read_key : b.PrivateKey → c.PrivateKey) (read_params : b.PublicParams → c.PublicKey) where
  open g use {Cache}

  -- What a relay that the one authority lists with a node over the identity gets from the other.
  pub agreed-HasKey :
      (rng rng' rng1 rng1' : b.Rng) (r s r1 s1 : InnerRequests) (a a' : InnerAllocations b)
      (identity : ℕ) (k : RelayKey) (q : AllocationRequest) (allocation : Allocation)
      (cache' : Cache) (asked' : b.Rng) (drawn' : c.Rng)
      → IsRegistry r
      → IsRegistry s
      → ((k' : RelayKey) → registered_weight k' r ≡ registered_weight k' s)
      → IsWeighted (values r.requests)
      → allocate_epoch b rng r ≡ ok (r1, a, rng1)
      → allocate_epoch b rng' s ≡ ok (s1, a', rng1')
      → Issues b c g h make_cache KeyFor' IsCache' keygen' read_key a'.public_params a'.master_key
      → make_cache (read_params a'.public_params) ≡ ok cache'
      → IsCache' cache'
      → lookup k r.requests ≡ some q
      → lookup k a.allocations ≡ some allocation
      → AreShallow allocation.nodes
      → any_contains (number identity) allocation.nodes ≡ true
      → HasKey b c g h make_cache KeyFor' IsCache' keygen' read_key read_params identity a' k asked'
          drawn'
  agreed-HasKey rng rng' rng1 rng1' r s r1 s1 a a' identity k q allocation cache' asked' drawn'
        in_order in_order' same_relays weighted e e' issues' made' cached' registered found shallow
        covering =
      let (given, given', stored, stored', same_nodes) =
        allocate_epoch-agrees b b rng rng' r s r1 s1 a a' rng1 rng1' k q in_order in_order'
          same_relays weighted e e' registered in
      let same : allocation.nodes ≡ given'.nodes =
        ap (λ (t : Allocation). t.nodes) (some-injective _ _ (sym found ∙ stored)) ∙ same_nodes in
      allocated-HasKey b c g h make_cache KeyFor' IsCache' keygen' read_key read_params identity a'
        k given' cache' asked' drawn' issues' made' cached' stored' (subst AreShallow same shallow)
        (subst (λ (ns : List NodeName). any_contains (number identity) ns ≡ true) same covering)

module _ (b : Bbg) (c : Crypto) (g : Keygen c.PrivateKey c.Rng) (h : Http c.PublicKey c.PrivateKey)
    (make_cache : c.PublicKey → Outcome g.Cache) (KeyFor KeyFor' : c.PrivateKey → NodeName → Type 0)
    (IsCache IsCache' : g.Cache → Type 0) (keygen : IsKeygen c g KeyFor IsCache)
    (keygen' : IsKeygen c g KeyFor' IsCache') (read_key : b.PrivateKey → c.PrivateKey)
    (read_params : b.PublicParams → c.PublicKey) where
  open g use {Cache}

  -- When the registries of two authorities are in order and have the same relays with the same
  -- weights, of a positive total below 2 ^ 64, the scheme makes keys for all names of at most 32 digits,
  -- and the relays can make generators from both public keys, which derive keys of children: the relay
  -- that one authority names for an identity after its allocation gets keys from the one and from the
  -- other from which get_private_key derives the private key of either for the identity.
  pub named_relay-HasKeys :
      (rng rng' rng1 rng1' : b.Rng) (r s r1 s1 : InnerRequests) (a a' : InnerAllocations b)
      (identity : ℕ) (address : Address) (cache cache' : Cache) (asked asked' : b.Rng)
      (drawn drawn' : c.Rng)
      → IsRegistry r
      → IsRegistry s
      → ((k : RelayKey) → registered_weight k r ≡ registered_weight k s)
      → IsWeighted (values r.requests)
      → allocate_epoch b rng r ≡ ok (r1, a, rng1)
      → allocate_epoch b rng' s ≡ ok (s1, a', rng1')
      → Issues b c g h make_cache KeyFor IsCache keygen read_key a.public_params a.master_key
      → Issues b c g h make_cache KeyFor' IsCache' keygen' read_key a'.public_params a'.master_key
      → make_cache (read_params a.public_params) ≡ ok cache
      → make_cache (read_params a'.public_params) ≡ ok cache'
      → IsCache cache
      → IsCache' cache'
      → get_address b identity a ≡ ok (some address)
      → (k : RelayKey) × (lookup k a.addresses ≡ some address)
        × HasKey b c g h make_cache KeyFor IsCache keygen read_key read_params identity a k asked
            drawn
        × HasKey b c g h make_cache KeyFor' IsCache' keygen' read_key read_params identity a' k
            asked' drawn'
  named_relay-HasKeys rng rng' rng1 rng1' r s r1 s1 a a' identity address cache cache' asked asked'
        drawn drawn' in_order in_order' same_relays weighted e e' issues issues' made made' cached
        cached' answer =
      let (emptied, answering) = allocate_epoch-IsAnswering b rng r r1 a rng1 in_order e in
      let (k, allocation, known, found, shallow, covering) =
        named-entry b identity a address answering answer in
      let known' : lookup k r.addresses ≡ some address =
        subst (λ (m : List (RelayKey × Address)). lookup k m ≡ some address)
          (stored_addresses b rng r r1 a rng1 e) known in
      let (q, registered) = named-registered r k address in_order known' in
      (
        k,
        known,
        allocated-HasKey b c g h make_cache KeyFor IsCache keygen read_key read_params identity a k
            allocation cache asked drawn issues made cached found shallow covering,
        agreed-HasKey b c g h make_cache KeyFor' IsCache' keygen' read_key read_params rng rng' rng1
            rng1' r s r1 s1 a a' identity k q allocation cache' asked' drawn' in_order in_order'
            same_relays weighted e e' issues' made' cached' registered found shallow covering,
      )
