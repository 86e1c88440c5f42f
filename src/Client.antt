-- ===== src/Client.antt =====
-- aimless-onions/src/bin/client.rs: the keys of the authorities, onions and the epochs of a client.
-- A random number generator is a state that is passed on; the choice of f64 delays is the argument
-- `sample_delay`, in milliseconds.
pub mod Keys
pub mod Epochs
pub mod Sending
pub mod Main
pub mod Tests
use aimless_onions.Prelude.{
  ℕ, zero, suc, ◌+◌, ◌*◌, ◌≡◌, Bool, true, false, not, Option, none, some, List, [], ◌∷◌, ◌++◌,
  length, ltb, ◌==◌, if◌then◌else◌,
}
use aimless_onions.Outcome.{
  Outcome, ok, err, or_err, file_error, certificate_error, network_error, decoding_error,
  no_relay_address, key_refused, no_keys,
}
use aimless_onions.Effects.{Action, pass, given, io, expected, attempt, bail_if, ◌>>=◌}
use aimless_onions.ApiTypes.{Address, GetRelayAddress}
use aimless_onions.Wire.{Bytes, Onion}
use aimless_onions.Shared.{Text, Message, Epoch, next, timestamp}
use aimless_onions.Crypto.{Crypto}
use aimless_onions.Onion.{wrap}
use aimless_onions.Net.{
  Http, address_request, an_onion, joined, wait_for_allocation_finish, wait_for_switchover, clock,
  http_address, relay_path,
}

pub record Authority : Type 0 where
  pub address : Text
  pub cert : Text

pub record Config : Type 0 where
  pub authority : List Authority

pub data CurrentOrNext : Type 0 where
  current next_epoch : CurrentOrNext

abbrev pub relay_address_path : Text
relay_address_path =
    103 ∷ 101 ∷ 116 ∷ 45 ∷ 114 ∷ 101 ∷ 108 ∷ 97 ∷ 121 ∷ 45 ∷ 97 ∷ 100 ∷ 100 ∷ 114 ∷ 101 ∷ 115 ∷ 115
    ∷ []

abbrev pub current_public_key_path : Text
current_public_key_path =
    103 ∷ 101 ∷ 116 ∷ 45 ∷ 99 ∷ 117 ∷ 114 ∷ 114 ∷ 101 ∷ 110 ∷ 116 ∷ 45 ∷ 112 ∷ 117 ∷ 98 ∷ 108 ∷ 105
    ∷ 99 ∷ 45 ∷ 107 ∷ 101 ∷ 121 ∷ []

abbrev pub next_public_key_path : Text
next_public_key_path =
    103 ∷ 101 ∷ 116 ∷ 45 ∷ 110 ∷ 101 ∷ 120 ∷ 116 ∷ 45 ∷ 112 ∷ 117 ∷ 98 ∷ 108 ∷ 105 ∷ 99 ∷ 45 ∷ 107
    ∷ 101 ∷ 121 ∷ []

-- `n` draws one after the other.
unfoldable pub draw : {Rng A : Type 0} → ℕ → (Rng → A × Rng) → Rng → List A × Rng
draw zero f rng = ([], rng)
draw (suc n) f rng = let (a, rng') = f rng in let (rest, rng'') = draw n f rng' in (a ∷ rest, rng'')

module _ (c : Crypto) (h : Http c.PublicKey c.PrivateKey) where
  open c use {Rng, PublicKey}
  open h use {
    World, Url, Certificate, HttpClient, Response, read_file, from_pem, build, plain_client, get,
    post, status, json_address, json_public_key, now, sleep,
  }

  unfoldable pub get_relay_address_url : Authority → Outcome Url
  get_relay_address_url a = joined h a.address relay_address_path

  unfoldable pub get_current_public_key_url : Authority → Outcome Url
  get_current_public_key_url a = joined h a.address current_public_key_path

  unfoldable pub get_next_public_key_url : Authority → Outcome Url
  get_next_public_key_url a = joined h a.address next_public_key_path

  unfoldable pub read_certificate : Authority → Action World Certificate
  read_certificate a = do
    bytes ← io file_error (read_file a.cert)
    given (or_err certificate_error (from_pem bytes))

  -- `Authority::client`
  unfoldable pub client : Authority → Action World HttpClient
  client a = do
    certificate ← read_certificate a
    given (or_err certificate_error (build certificate))

  unfoldable pub request_relay : Authority → Onion → Action World Address
  request_relay a onion = do
    http ← expected (client a)
    url ← given (get_relay_address_url a)
    resp ← io network_error (post http url (address_request (record { identity = onion.identity })))
    given (or_err decoding_error (json_address resp))

  -- The second half of a turn of the loop of `send_onion`.
  unfoldable pub post_onion : Address → Onion → Action World Unit
  post_onion (address, port) onion = do
    url ← given (joined h (http_address address port) relay_path)
    resp ← io network_error (post plain_client url (an_onion onion))
    pass tt

  unfoldable pub send_onion : List Authority → Onion → Action World Unit
  send_onion [] onion = given (err no_relay_address)
  send_onion (a ∷ authorities) onion = do
    relay ← attempt (request_relay a onion)
    elim relay [ none ↦ send_onion authorities onion | some address ↦ post_onion address onion ]

  unfoldable pub key_url : CurrentOrNext → Authority → Outcome Url
  key_url current a = get_current_public_key_url a
  key_url next_epoch a = get_next_public_key_url a

  -- One turn of the loop of `retrieve_keys`.
  unfoldable pub retrieve_key : CurrentOrNext → Authority → Action World PublicKey
  retrieve_key which a = do
    http ← client a
    url ← given (key_url which a)
    res ← io network_error (get http url)
    _ ← bail_if (not (status res == 200)) key_refused
    given (or_err decoding_error (json_public_key res))

  unfoldable pub retrieve_keys : CurrentOrNext → List Authority → Action World (List PublicKey)
  retrieve_keys which [] = pass []
  retrieve_keys which (a ∷ authorities) = do
    key ← retrieve_key which a
    rest ← retrieve_keys which authorities
    pass (key ∷ rest)

  -- What the task of the epochs shares with the senders, and its epoch.
  pub record ClientState : Type 0 where
    pub public_keys : List PublicKey
    pub epoch : Epoch

  -- The `try` block of the loop over the epochs.
  unfoldable pub switch_epoch : Config → Epoch → Action World ClientState
  switch_epoch config epoch = do
    _ ← wait_for_allocation_finish h epoch
    next_public_keys ← retrieve_keys next_epoch config.authority
    _ ← wait_for_switchover h epoch
    time ← clock h
    pass (record { public_keys = next_public_keys; epoch = next time })

  -- A turn of that loop: after an `Err` the state is as before.
  unfoldable pub epoch_turn : Config → ClientState → Action World ClientState
  epoch_turn config s = do
    switched ← attempt (switch_epoch config s.epoch)
    pass (elim switched [ none ↦ s | some s' ↦ s' ])

  unfoldable pub epoch_turns : ℕ → Config → ClientState → Action World ClientState
  epoch_turns zero config s = pass s
  epoch_turns (suc n) config s = do s' ← epoch_turn config s; epoch_turns n config s'

  -- `main` up to the first turn.
  unfoldable pub start : Config → Action World ClientState
  start config = do
    public_keys ← retrieve_keys current config.authority
    time ← clock h
    pass (record { public_keys = public_keys; epoch = next time })

  module _ (gen_identity sample_delay : Rng → ℕ × Rng) (serialize_message : Message → Bytes)
      (log_wrapping : Text → World → Option {0} Unit × World) where
    -- The identities, the delays and the message of an onion.
    unfoldable pub build_onion : Rng → ℕ → List PublicKey → Text → Outcome (Onion × Rng)
    build_onion rng time public_keys text =
        let (identities, rng1) = draw 3 gen_identity rng in
        let message : Message = record { timestamp = timestamp time; content = text } in
        let (delays, rng2) = draw (length identities) sample_delay rng1 in
        wrap c rng2 identities delays public_keys (serialize_message message)

    -- The row of wrapping_times.csv, with the time that was measured, is `log_wrapping`.
    unfoldable pub build_and_send : Rng → Config → List PublicKey → Text → Action World Unit
    build_and_send rng config public_keys text = do
      _ ← bail_if (ltb (length public_keys) 1) no_keys
      time ← clock h
      (onion, rng') ← given (build_onion rng time public_keys text)
      _ ← send_onion config.authority onion
      io file_error (log_wrapping text)

    -- The interactive loop, with the keys that are read for each line.
    unfoldable pub send_lines : Config → List (Rng × List PublicKey × Text) → Action World Unit
    send_lines config [] = pass tt
    send_lines config ((rng, public_keys, line) ∷ lines) = do
      _ ← attempt (build_and_send rng config public_keys line)
      send_lines config lines

    -- The loop over random messages, with a sleep of milliseconds after each.
    unfoldable pub send_random : ℕ → Config → List (Rng × List PublicKey × Text) → Action World Unit
    send_random send_interval config [] = pass tt
    send_random send_interval config ((rng, public_keys, message) ∷ messages) = do
      _ ← attempt (build_and_send rng config public_keys message)
      _ ← λ (w : World). (ok tt, sleep (send_interval * 1000000) w)
      send_random send_interval config messages

-- One message of `random_msg_iterator`, with the draw of a length from 1 to 20 and of a character.
unfoldable pub random_message :
    {Rng : Type 0} → (Rng → ℕ × Rng) → (Rng → ℕ × Rng) → Rng → Text × Rng
random_message gen_range sample_char rng =
    let (len, rng') = gen_range rng in draw len sample_char rng'
