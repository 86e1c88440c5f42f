-- ===== src/System/Arriving.antt =====
-- A client of aimless-onions/src/bin/client.rs in an epoch of several authorities: from their
-- registries to the board.
use aimless_onions.Prelude.{ℕ, ◌≡◌, Option, none, some, List, [], ◌∷◌}
use aimless_onions.Outcome.{Outcome, ok, err, panic}
use aimless_onions.ApiTypes.{RelayKey, Address}
use aimless_onions.NodeName.{NodeName}
use aimless_onions.Maps.{lookup}
use aimless_onions.Wire.{Bytes}
use aimless_onions.Shared.{Message}
use aimless_onions.Crypto.{Crypto, IsSound}
use aimless_onions.Net.{Http}
use aimless_onions.Authority.{Bbg, get_address}
use aimless_onions.Relay.{Keygen, LiveAuthority}
use aimless_onions.Relay.Keys.{IsKeygen}
use aimless_onions.Relay.Forwarding.{KeyOf}
use aimless_onions.System.Parties.{Party, AreHeld, Agrees, all_public_keys}
use aimless_onions.System.Fetching.{HasTurned}

module _ (b : Bbg) (c : Crypto) (h : Http c.PublicKey c.PrivateKey)
    (IsKeyFor : c.PublicKey → NodeName → c.PrivateKey → Type 0) (sound : IsSound c IsKeyFor)
    (g : Keygen c.PrivateKey c.Rng) (IsCache : c.PublicKey → g.Cache → Type 0)
    (keygen : (pk : c.PublicKey) → IsKeygen c g (KeyOf c IsKeyFor sound g IsCache pk) (IsCache pk))
    (make_cache : c.PublicKey → Outcome g.Cache) (read_key : b.PrivateKey → c.PrivateKey)
    (read_params : b.PublicParams → c.PublicKey) where
  open c use {Rng, PublicKey}
  open h use {World, now}

  abbrev Authority : Type 0
  Authority = Party b c h IsKeyFor sound g IsCache keygen make_cache read_key read_params

  abbrev Agreeing : Authority → Authority → Type 0
  Agreeing = Agrees b c h IsKeyFor sound g IsCache keygen make_cache read_key read_params

  abbrev Held : RelayKey → List Authority → List (LiveAuthority c g) → Type 0
  Held = AreHeld b c h IsKeyFor sound g IsCache keygen make_cache read_key read_params

  abbrev keys_of : List Authority → List PublicKey
  keys_of = all_public_keys b c h IsKeyFor sound g IsCache keygen make_cache read_key read_params

  -- The live authorities of the relay that an answer of get_address names.
  abbrev answered :
      (Address → List (LiveAuthority c g)) → Outcome (Option Address) → List (LiveAuthority c g)
  answered at_address (ok (some address)) = at_address address
  answered at_address (ok none) = []
  answered at_address (err x) = []
  answered at_address panic = []

  module _ (read_message : Bytes → Option Message) (at_address : Address → List (LiveAuthority c g))
      (first : Authority) (others : List Authority) where
    abbrev pub relays : ℕ → List (LiveAuthority c g)
    relays identity = answered at_address (get_address b identity first.given)

    -- The first authority names a relay for the identity.
    abbrev pub IsNamed : ℕ → Type 0
    IsNamed identity =
        (address : Address) × (get_address b identity first.given ≡ ok (some address))

    -- The relay at an address of the first authority's list holds the keys of all authorities.
    abbrev AllHeld : Type 0
    AllHeld =
        (k : RelayKey) (address : Address)
        → lookup k first.given.addresses ≡ some address
        → Held k (first ∷ others) (at_address address)

    -- The relay at an address of the first authority's list has just finished a turn of its loop.
    abbrev pub AllTurned : Type 0
    AllTurned =
        (k : RelayKey) (address : Address)
        → lookup k first.given.addresses ≡ some address
        → HasTurned b c h IsKeyFor sound g IsCache keygen make_cache read_key read_params k
            (first ∷ others) (at_address address)
