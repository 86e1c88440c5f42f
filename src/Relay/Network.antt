-- ===== src/Relay/Network.antt =====
-- aimless-onions/src/bin/relay.rs: what a relay says to the authorities, other relays and the board,
-- and its epochs. The generator of keys that is made for a public key is the argument `make_cache`.
use aimless_onions.Prelude.{
  ◌*◌, Bool, not, ◌&&◌, Option, none, some, List, [], ◌∷◌, ◌++◌, ◌==◌, if◌then◌else◌,
}
use aimless_onions.Outcome.{
  Outcome, ok, err, panic, or_err, or_panic, file_error, certificate_error, network_error,
  decoding_error, key_refused,
}
use aimless_onions.Effects.{Action, pass, given, io, attempt, bail_if, after, ◌>>=◌}
use aimless_onions.ApiTypes.{RelayKey, KeyPair}
use aimless_onions.NodeName.{NodeName}
use aimless_onions.Wire.{Bytes, Onion, bytes_eq}
use aimless_onions.Shared.{Text, Message, Epoch, next}
use aimless_onions.Crypto.{Crypto}
use aimless_onions.Net.{
  any_address, expect_outcome, parse_socket_addr, Http, registration, key_request, address_request,
  an_onion, a_message, joined, wait_for_registration, wait_for_allocation_finish,
  wait_for_switchover, clock, http_address, relay_path,
}
use aimless_onions.Relay.{
  Authority, Config, Keygen, LiveAuthority, RelayAction, post_to_board, forward, relay_onion,
}

abbrev pub register_path : Text
register_path = 114 ∷ 101 ∷ 103 ∷ 105 ∷ 115 ∷ 116 ∷ 101 ∷ 114 ∷ []

abbrev pub relay_address_path : Text
relay_address_path =
    103 ∷ 101 ∷ 116 ∷ 45 ∷ 114 ∷ 101 ∷ 108 ∷ 97 ∷ 121 ∷ 45 ∷ 97 ∷ 100 ∷ 100 ∷ 114 ∷ 101 ∷ 115 ∷ 115
    ∷ []

abbrev pub next_public_key_path : Text
next_public_key_path =
    103 ∷ 101 ∷ 116 ∷ 45 ∷ 110 ∷ 101 ∷ 120 ∷ 116 ∷ 45 ∷ 112 ∷ 117 ∷ 98 ∷ 108 ∷ 105 ∷ 99 ∷ 45 ∷ 107
    ∷ 101 ∷ 121 ∷ []

abbrev pub keys_path : Text
keys_path = 103 ∷ 101 ∷ 116 ∷ 45 ∷ 104 ∷ 105 ∷ 98 ∷ 101 ∷ 45 ∷ 107 ∷ 101 ∷ 121 ∷ 115 ∷ []

unfoldable pub node_eq : NodeName → NodeName → Bool
node_eq a b = a.len == b.len && a.path == b.path

-- A hash map by node names.
unfoldable pub insert_node : {A : Type 0} → NodeName → A → List (NodeName × A) → List (NodeName × A)
insert_node n a [] = (n, a) ∷ []
insert_node n a ((n', b) ∷ m) =
    let rest = insert_node n a m in if node_eq n' n then (n', a) ∷ m else (n', b) ∷ rest

-- `zip`
unfoldable pub zip : {A B : Type 0} → List A → List B → List (A × B)
zip [] bs = []
zip (a ∷ as') [] = []
zip (a ∷ as') (b ∷ bs) = (a, b) ∷ zip as' bs

-- Where the server listens.
unfoldable pub listen : {A : Type 0} → (Text → Option (List A)) → Config → Outcome A
listen to_socket_addrs config =
    expect_outcome (parse_socket_addr to_socket_addrs any_address config.port)

module _ (c : Crypto) (g : Keygen c.PrivateKey c.Rng) (h : Http c.PublicKey c.PrivateKey) where
  open c use {Rng, PublicKey, PrivateKey}
  open g use {Cache}
  open h use {
    World, Url, Certificate, HttpClient, Response, read_file, from_pem, build, plain_client, get,
    post, status, json_address, json_public_key, json_key_pairs, sleep,
  }

  unfoldable pub register_url : Authority → Outcome Url
  register_url a = joined h a.address register_path

  unfoldable pub get_relay_address_url : Authority → Outcome Url
  get_relay_address_url a = joined h a.address relay_address_path

  unfoldable pub get_next_public_key_url : Authority → Outcome Url
  get_next_public_key_url a = joined h a.address next_public_key_path

  unfoldable pub get_keys_url : Authority → Outcome Url
  get_keys_url a = joined h a.address keys_path

  unfoldable pub read_certificate : Authority → Action World Certificate
  read_certificate a = do
    bytes ← io file_error (read_file a.cert)
    given (or_err certificate_error (from_pem bytes))

  -- `Authority::client`
  unfoldable pub client : Authority → Action World HttpClient
  client a = do
    certificate ← read_certificate a
    given (or_err certificate_error (build certificate))

  abbrev pub first : List (LiveAuthority c g) → Option (LiveAuthority c g)
  first [] = none
  first (a ∷ as') = some a

  unfoldable pub send_onion : List (LiveAuthority c g) → Onion → Action World Unit
  send_onion live_authorities onion = do
    authority ← given (or_panic (first live_authorities))
    http ← client authority.config
    url ← given (get_relay_address_url authority.config)
    res ← io network_error (post http url (address_request (record { identity = onion.identity })))
    (address, port) ← given (or_err decoding_error (json_address res))
    relay ← given (joined h (http_address address port) relay_path)
    sent ← io network_error (post plain_client relay (an_onion onion))
    pass tt

  -- The URL of the board, which `main` passes to `relay_onion`.
  unfoldable pub board_url : Config → Outcome Url
  board_url config = joined h (http_address config.board_address config.board_port) relay_path

  -- What `relay_onion` sends. The authorities are read again after the delay.
  unfoldable pub perform :
      Url → (later : List (LiveAuthority c g)) → RelayAction → Action World Unit
  perform board later (post_to_board message) = do
    sent ← io network_error (post plain_client board (a_message message))
    pass tt
  perform board later (forward delay onion) = do
    _ ← λ (w : World). (ok tt, sleep (delay * 1000000) w)
    send_onion later onion

  -- The whole task of `relay_onion`.
  unfoldable pub relay_task :
      (Bytes → Option Message)
      → Rng
      → Url
      → (live later : List (LiveAuthority c g)) → Onion
      → Action World Unit
  relay_task read_message rng board live later onion = do
    action ← given (relay_onion c g read_message rng live onion)
    perform board later action

  -- The route of `main`: whatever the method, a request under `relay` with an onion starts a task; every
  -- other one is refused, here `none`.
  unfoldable pub relay_route :
      (Bytes → Option Message)
      → Config
      → (segments : List Text) → Option Onion
      → Rng
      → (live later : List (LiveAuthority c g)) → Option (Action World Unit)
  relay_route read_message config [] body rng live later = none
  relay_route read_message config (segment ∷ next_segment ∷ segments) body rng live later = none
  relay_route read_message config (segment ∷ []) none rng live later = none
  relay_route read_message config (segment ∷ []) (some onion) rng live later =
      if bytes_eq segment relay_path
      then some (λ (w : World).
        after (board_url config, w) (λ board. relay_task read_message rng board live later onion))
      else none

  -- The loop of `register`, with the key that it draws: what the authorities answer is only logged.
  unfoldable pub register :
      RelayKey → Config → List Authority → List RelayKey → Action World (List RelayKey)
  register used_key config [] used_keys = pass used_keys
  register used_key config (a ∷ authorities) used_keys = do
    http ← client a
    url ← given (register_url a)
    _ ← attempt (
        io network_error (
          post http url (
            registration (record {
              key = used_key;
              address = config.public_address;
              port = config.port;
              weight = config.weight;
            }))))
    register used_key config authorities (used_keys ++ used_key ∷ [])

  module _ (make_cache : PublicKey → Outcome Cache) where
    -- The hash map of the received keys; the generator is made anew for each pair.
    unfoldable pub receive_keys :
        PublicKey
        → List (KeyPair PrivateKey)
        → List (NodeName × (Cache × PrivateKey))
        → Outcome (List (NodeName × (Cache × PrivateKey)))
    receive_keys public_key [] received = ok received
    receive_keys public_key (pair ∷ pairs) received = elim (make_cache public_key) [
      | ok cached ↦
          receive_keys public_key pairs (insert_node pair.node (cached, pair.key) received)
      | err e ↦ panic
      | panic ↦ panic
    ]

    -- One turn of the loop over the authorities and the keys that were used.
    unfoldable pub fetch_authority : Authority → RelayKey → Action World (LiveAuthority c g)
    fetch_authority authority used_key = do
      http ← client authority
      key_url ← given (get_next_public_key_url authority)
      res ← io network_error (get http key_url)
      _ ← bail_if (not (status res == 200)) key_refused
      public_key ← given (or_err decoding_error (json_public_key res))
      keys_url ← given (get_keys_url authority)
      res' ← io network_error (post http keys_url (key_request (record { key = used_key })))
      pairs ← given (or_err decoding_error (json_key_pairs res'))
      received_keys ← given (receive_keys public_key pairs [])
      pass (record {
        config = authority;
        used_key = used_key;
        public_key = public_key;
        received_keys = received_keys;
      })

    unfoldable pub fetch_authorities :
        List (Authority × RelayKey) → Action World (List (LiveAuthority c g))
    fetch_authorities [] = pass []
    fetch_authorities ((authority, used_key) ∷ rest) = do
      live ← fetch_authority authority used_key
      others ← fetch_authorities rest
      pass (live ∷ others)

    -- What the task of the epochs shares with the handler, and its epoch.
    pub record RelayState : Type 0 where
      pub live_authorities : List (LiveAuthority c g)
      pub epoch : Epoch

    -- A turn of the loop over the epochs; an `Err` ends the loop.
    unfoldable pub epoch_turn : Config → RelayKey → RelayState → Action World RelayState
    epoch_turn config used_key s = do
      _ ← wait_for_registration h s.epoch
      used_keys ← register used_key config config.authority []
      _ ← wait_for_allocation_finish h s.epoch
      next_authorities ← fetch_authorities (zip config.authority used_keys)
      _ ← wait_for_switchover h s.epoch
      time ← clock h
      pass (record { live_authorities = next_authorities; epoch = next time })

    -- A turn has given the next state, or ends the loop and leaves the last one.
    abbrev pub after_turn :
        RelayState
        → Outcome RelayState × World
        → (RelayState → World → (RelayState × Outcome {0} Unit) × World)
        → (RelayState × Outcome {0} Unit) × World
    after_turn s (ok s', w) go_on = go_on s' w
    after_turn s (err e, w) go_on = ((s, err e), w)
    after_turn s (panic, w) go_on = ((s, panic), w)

    -- That loop for the keys that are drawn in its turns, with what it leaves to the handler when it
    -- has ended or made all the turns.
    unfoldable pub epoch_loop :
        Config → List RelayKey → RelayState → World → (RelayState × Outcome {0} Unit) × World
    epoch_loop config [] s w = ((s, ok tt), w)
    epoch_loop config (used_key ∷ used_keys) s w =
        after_turn s (epoch_turn config used_key s w) (epoch_loop config used_keys)
