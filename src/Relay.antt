-- ===== src/Relay.antt =====
-- aimless-onions/src/bin/relay.rs: the keys of a relay and what it does with an onion. The cached key
-- generation of src/hibe.rs, which calls hohibe, is the parameter `Keygen`.
pub mod Keys
pub mod Derivation
pub mod Network
pub mod Kept
pub mod Live
pub mod Registering
pub mod Epochs
pub mod Forwarding
pub mod Tests
mod SchemeTests
mod EpochTests
use aimless_onions.Prelude.{
  ℕ, Bool, true, false, Option, none, some, List, [], ◌∷◌, map, leb, if◌then◌else◌,
}
use aimless_onions.Outcome.{Outcome, ok, err, panic, ◌>>=◌, or_panic}
use aimless_onions.ApiTypes.{RelayKey}
use aimless_onions.NodeName.{NodeName, contains, number, walk, path_bits}
use aimless_onions.Wire.{Bytes, Onion, is_final_destination}
use aimless_onions.Shared.{Message, Text}
use aimless_onions.Crypto.{Crypto}
use aimless_onions.Onion.{unwrap}

pub record Authority : Type 0 where
  pub address : Text
  pub cert : Text

pub record Config : Type 0 where
  pub weight : ℕ
  pub public_address : Text
  pub port : ℕ
  pub board_address : Text
  pub board_port : ℕ
  pub authority : List Authority

pub record Keygen (PrivateKey Rng : Type 0) : Type 1 where
  pub Cache : Type 0
  -- `derive_key` for a child of the name with these digits; `none` is an `Err`.
  pub derive_key : Rng → Cache → PrivateKey → List ℕ → ℕ → Option PrivateKey × Rng

-- `split_last`
unfoldable pub split_last : List ℕ → Option (ℕ × List ℕ)
split_last [] = none
split_last (d ∷ ds) = elim (split_last ds) [
  | none ↦ some (d, [])
  | some (last, front) ↦ some (last, d ∷ front)
]

-- What a relay does with an onion that it has unwrapped.
pub data RelayAction : Type 0 where
  post_to_board : Message → RelayAction
  forward : (delay : ℕ) → Onion → RelayAction

module _ (c : Crypto) (g : Keygen c.PrivateKey c.Rng) where
  open c use {Rng, PublicKey, PrivateKey}
  open g use {Cache, derive_key}

  pub record LiveAuthority : Type 0 where
    pub config : Authority
    pub used_key : RelayKey
    pub public_key : PublicKey
    pub received_keys : List (NodeName × (Cache × PrivateKey))

  -- One turn of the inner loop of `get_private_key`, for a name below that of the key.
  unfoldable pub derive_step : Rng → Cache → PrivateKey → NodeName → Outcome (PrivateKey × Rng)
  derive_step rng cache key subnode = do
    (child, above) ← or_panic (split_last (path_bits subnode))
    let (derived, rng') = derive_key rng cache key above child
    key' ← or_panic derived
    ok (key', rng')

  unfoldable pub derive_down :
      Rng → Cache → NodeName → PrivateKey → List NodeName → Outcome (PrivateKey × Rng)
  derive_down rng cache name key [] = ok (key, rng)
  derive_down rng cache name key (subnode ∷ subnodes) =
      if leb subnode.len name.len then derive_down rng cache name key subnodes else (do
        (key', rng') ← derive_step rng cache key subnode
        derive_down rng' cache name key' subnodes)

  unfoldable pub find_key :
      Rng → NodeName → List (NodeName × (Cache × PrivateKey)) → Outcome (Option PrivateKey × Rng)
  find_key rng node [] = ok (none, rng)
  find_key rng node ((name, (cache, key)) ∷ rest) =
      if contains name node
      then (do
        subnodes ← or_panic (walk node)
        (key', rng') ← derive_down rng cache name key subnodes
        ok (some key', rng'))
      else find_key rng node rest

  unfoldable pub get_private_key : Rng → LiveAuthority → ℕ → Outcome (Option PrivateKey × Rng)
  get_private_key rng a identity = find_key rng (number identity) a.received_keys

  -- `filter_map`: an authority of which the relay has no key for the identity is left out.
  unfoldable pub private_keys : Rng → List LiveAuthority → ℕ → Outcome (List PrivateKey × Rng)
  private_keys rng [] identity = ok ([], rng)
  private_keys rng (a ∷ as') identity = do
    (found, rng') ← get_private_key rng a identity
    (rest, rng'') ← private_keys rng' as' identity
    ok (elim found [ none ↦ rest | some key ↦ key ∷ rest ], rng'')

  -- The task that `relay_onion` spawns, up to the sending; bincode reads the message.
  unfoldable pub relay_onion :
      (Bytes → Option Message) → Rng → List LiveAuthority → Onion → Outcome RelayAction
  relay_onion read_message rng as' o = do
    let public_keys = map (λ (a : LiveAuthority). a.public_key) as'
    (keys, rng') ← private_keys rng as' o.identity
    (hop, inner) ← unwrap c o public_keys keys
    if is_final_destination inner
        then (do message ← or_panic (read_message inner.payload); ok (post_to_board message))
        else ok (forward hop.delay inner)
