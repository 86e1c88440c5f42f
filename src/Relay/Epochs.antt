-- ===== src/Relay/Epochs.antt =====
-- What the epochs of aimless-onions/src/bin/relay.rs leave to the handler of onions.
use aimless_onions.Prelude.{true, ◌≡◌, ◌⊎◌, List}
use aimless_onions.Outcome.{Outcome}
use aimless_onions.ApiTypes.{RelayKey}
use aimless_onions.Maps.{has_key}
use aimless_onions.Crypto.{Crypto}
use aimless_onions.Net.{Http, awake}
use aimless_onions.Relay.{Config, Keygen, LiveAuthority}
use aimless_onions.Relay.Network.{RelayState}
use aimless_onions.Relay.Registering.{AreRegistered}
use aimless_onions.Relay.Live.{AreLive}

module _ (c : Crypto) (g : Keygen c.PrivateKey c.Rng) (h : Http c.PublicKey c.PrivateKey)
    (make_cache : c.PublicKey → Outcome g.Cache) where
  open c use {PublicKey, PrivateKey}
  open g use {Cache}
  open h use {World, now, get, post, status, json_public_key, json_key_pairs}

  -- What a good turn has done between the worlds `w` and `w'`: after the registration time it has
  -- registered with this key with all the configured authorities, and from the end of the allocation on
  -- it has asked each of them, in order, for its public key and for the keys that belong to the
  -- relay's key.
  pub record IsFresh (config : Config) (key : RelayKey) (s : RelayState c g h make_cache)
      (w : World) (lives : List (LiveAuthority c g)) : Type 0 where
    pub registered_at : World
    pub registrations :
        AreRegistered c g h key config config.authority
          (awake h s.epoch.registration_time w)
          registered_at
    pub fetched_at : World
    pub fetched :
        AreLive c g h make_cache key config.authority lives
          (awake h s.epoch.allocation_finish_time registered_at)
          fetched_at

  -- The state of the start, or one with the live authorities of a turn with one of the keys.
  abbrev pub IsServed :
      Config → List RelayKey → RelayState c g h make_cache → RelayState c g h make_cache → Type 0
  IsServed config keys s t =
      (t ≡ s)
      ⊎ ((key : RelayKey) × (has_key key keys ≡ true)
          × (before : RelayState c g h make_cache) × (w : World) × IsFresh config key before w
              t.live_authorities)
