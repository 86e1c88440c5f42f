-- ===== src/Relay/EpochTests.antt =====
-- Two turns of the epochs of aimless-onions/src/bin/relay.rs.
use aimless_onions.Prelude.{map, ℕ, ◌≡◌, refl, [], ◌∷◌}
use aimless_onions.Outcome.{Outcome, ok}
use aimless_onions.Sample.{sample}
use aimless_onions.Relay.{LiveAuthority}
use aimless_onions.Shared.{next, from_registration, wait_until}
use aimless_onions.Net.{awake}
use aimless_onions.Net.Sample.{network}
use aimless_onions.Relay.{Authority, Config}
use aimless_onions.Relay.Network.{
  RelayState, epoch_loop, epoch_turn, register, fetch_authorities, fetch_authority, zip,
  receive_keys, client, read_certificate, register_url, get_next_public_key_url, get_keys_url,
}
use aimless_onions.Relay.Tests.{depth_keygen}

-- An authority whose answers are good, and a relay that has just started.
abbrev answering : Authority
answering = record { address = 1 ∷ []; cert = [] }

abbrev relay_config : Config
relay_config = record {
  weight = 5;
  public_address = 1 ∷ [];
  port = 80;
  board_address = 1 ∷ [];
  board_port = 81;
  authority = answering ∷ answering ∷ [];
}

abbrev any_made : ℕ → Outcome ℕ
any_made pk = ok 0

abbrev fresh_relay : RelayState sample depth_keygen network any_made
fresh_relay = record { live_authorities = []; epoch = next 0 }

abbrev after_two : RelayState sample depth_keygen network any_made
after_two =
    (epoch_loop sample depth_keygen network any_made relay_config ((1 ∷ []) ∷ (2 ∷ []) ∷ [])
      fresh_relay 0).0.0

-- After two turns the relay is registered with its second key.
two_turns :
    map (λ (a : LiveAuthority sample depth_keygen). a.used_key) after_two.live_authorities
    ≡ (2 ∷ []) ∷ (2 ∷ []) ∷ []
unfolding epoch_loop epoch_turn register fetch_authorities fetch_authority zip receive_keys client
    read_certificate register_url get_next_public_key_url get_keys_url next from_registration awake
    wait_until
two_turns = refl
