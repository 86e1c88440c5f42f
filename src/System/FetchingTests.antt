-- ===== src/System/FetchingTests.antt =====
-- Turns of two relays of aimless-onions/src/bin/relay.rs in an epoch with two authorities.
use aimless_onions.Prelude.{
  ℕ, ◌≡◌, refl, arith, if◌then◌else◌, some, List, [], ◌∷◌, sym, suc, ◌≤◌, ap, map, ◌∙◌,
}
use aimless_onions.Outcome.{ok, Outcome}
use aimless_onions.ApiTypes.{RelayKey, KeyPair}
use aimless_onions.NodeName.{NodeName}
use aimless_onions.Maps.{lookup}
use aimless_onions.Wire.{bytes_eq}
use aimless_onions.Shared.{next, from_registration, wait_until}
use aimless_onions.Sample.{sample, SampleKey, sample-IsSound}
use aimless_onions.Authority.{handle_get_hibe_keys, generate_keys}
use aimless_onions.Authority.Tests.{plain_bbg}
use aimless_onions.Relay.{LiveAuthority}
use aimless_onions.Relay.Network.{
  receive_keys, insert_node, node_eq, register_path, next_public_key_path, keys_path, RelayState,
  epoch_turn, client, read_certificate, register_url, get_next_public_key_url, get_keys_url,
  register, fetch_authorities, fetch_authority, zip,
}
use aimless_onions.Relay.Tests.{any_keygen, AnyCache, same_keygen}
use aimless_onions.System.Parties.{AreHeld}
use aimless_onions.Net.{awake}
use aimless_onions.System.Fetching.{Answers, epoch_turn-AreHeld, HasTurned}
use aimless_onions.Net.Clock.{IsClock}
use aimless_onions.System.Sample.{
  handed_out, large_nodes, read_pairs, small_nodes, key_network, Authority, first_authority,
  second_authority, configured, relay_config, large, small, any_made,
}

abbrev Gives : RelayKey → Authority → Type 0
Gives key p =
    Answers plain_bbg sample key_network SampleKey sample-IsSound any_keygen AnyCache same_keygen
      any_made (λ k. k.0) (λ params. params) key configured p

-- What the relays read of pairs.
read_pairs_lem :
    (ps : List (KeyPair (ℕ × List ℕ)))
    → read_pairs ps ≡ map (λ (p : KeyPair (ℕ × List ℕ)). record { node = p.node; key = p.key.0 }) ps
read_pairs_lem [] = refl
read_pairs_lem (p ∷ ps) = ap (◌∷◌ (record { node = p.node; key = p.key.0 })) (read_pairs_lem ps)

Gives-nodes :
    (key : RelayKey) (nodes : List NodeName) (rest : ℕ) (p : Authority)
    → p.given.public_params ≡ 7
    → handle_get_hibe_keys plain_bbg 8 (record { key = key }) p.given ≡ ok (handed_out nodes, rest)
    → (if bytes_eq key (2 ∷ []) then small_nodes else large_nodes) ≡ nodes
    → Gives key p
unfolding client read_certificate register_url get_next_public_key_url get_keys_url
Gives-nodes key nodes rest p params handed same = record {
  http = 1;
  connects = λ w. (w, refl);
  registers = 1 ∷ register_path;
  at_register = refl;
  next_key_url = 1 ∷ next_public_key_path;
  at_key = refl;
  keys_url = 1 ∷ keys_path;
  at_keys = refl;
  gives_key = λ w. record {
    response = 1 ∷ next_public_key_path;
    later = suc w;
    answered = refl;
    good = refl;
    key = ap some (sym params);
  };
  gives_pairs = λ w. record {
    response = key;
    later = suc w;
    answered = refl;
    asked = 8;
    pairs = handed_out nodes;
    rest = rest;
    handed = handed;
    read =
        ap (λ (ns : List NodeName). some (read_pairs (handed_out ns))) same
        ∙ ap some (read_pairs_lem (handed_out nodes));
  };
}

large-Gives : Gives (1 ∷ []) first_authority × Gives (1 ∷ []) second_authority
unfolding handle_get_hibe_keys generate_keys lookup bytes_eq
large-Gives = (
  Gives-nodes (1 ∷ []) large_nodes 10 first_authority refl refl refl,
  Gives-nodes (1 ∷ []) large_nodes 10 second_authority refl refl refl,
)

small-Gives : Gives (2 ∷ []) first_authority × Gives (2 ∷ []) second_authority
unfolding handle_get_hibe_keys generate_keys lookup bytes_eq
small-Gives = (
  Gives-nodes (2 ∷ []) small_nodes 9 first_authority refl refl refl,
  Gives-nodes (2 ∷ []) small_nodes 9 second_authority refl refl refl,
)

key_network-IsClock : IsClock key_network
key_network-IsClock = record { lasts = λ d w. omega arith }

abbrev waiting : RelayState sample any_keygen key_network any_made
waiting = record { live_authorities = []; epoch = next 0 }

abbrev turn_of : RelayKey → Outcome (RelayState sample any_keygen key_network any_made) × ℕ
turn_of key = epoch_turn sample any_keygen key_network any_made relay_config key waiting 0

abbrev left_by :
    RelayKey
    → List (LiveAuthority sample any_keygen)
    → RelayState sample any_keygen key_network any_made
left_by key lives = record { live_authorities = lives; epoch = next (turn_of key).1 }

both_turns :
    (turn_of (1 ∷ []) ≡ (ok (left_by (1 ∷ []) large), (turn_of (1 ∷ [])).1))
    × (turn_of (2 ∷ []) ≡ (ok (left_by (2 ∷ []) small), (turn_of (2 ∷ [])).1))
unfolding epoch_turn register fetch_authorities fetch_authority zip receive_keys client
    read_certificate register_url get_next_public_key_url get_keys_url next from_registration awake
    wait_until insert_node node_eq bytes_eq
both_turns = (refl, refl)

abbrev pub Turned : RelayKey → List (LiveAuthority sample any_keygen) → Type 0
Turned key lives =
    HasTurned plain_bbg sample key_network SampleKey sample-IsSound any_keygen AnyCache same_keygen
      any_made (λ k. k.0) (λ params. params) key (first_authority ∷ second_authority ∷ []) lives

pub large-Turned : Turned (1 ∷ []) large
large-Turned = record {
  config = relay_config;
  before = waiting;
  ended_with = left_by (1 ∷ []) large;
  began = 0;
  ended = (turn_of (1 ∷ [])).1;
  answering = (large-Gives.0, (large-Gives.1, tt));
  turned = both_turns.0;
  after_it = refl;
}

pub small-Turned : Turned (2 ∷ []) small
small-Turned = record {
  config = relay_config;
  before = waiting;
  ended_with = left_by (2 ∷ []) small;
  began = 0;
  ended = (turn_of (2 ∷ [])).1;
  answering = (small-Gives.0, (small-Gives.1, tt));
  turned = both_turns.1;
  after_it = refl;
}

epoch_turn-AreHeld_example :
    (s' : RelayState sample any_keygen key_network any_made) × (w' : ℕ) × (epoch_turn sample
        any_keygen key_network any_made relay_config
        (1 ∷ [])
        waiting
        0
      ≡ (ok s', w'))
    × (waiting.epoch.switchover_time ≤ w')
    × AreHeld plain_bbg sample key_network SampleKey sample-IsSound any_keygen AnyCache same_keygen
        any_made
        (λ k. k.0)
        (λ params. params)
        (1 ∷ [])
        (first_authority ∷ second_authority ∷ [])
        s'.live_authorities
epoch_turn-AreHeld_example =
    epoch_turn-AreHeld plain_bbg sample key_network SampleKey sample-IsSound any_keygen AnyCache
      same_keygen any_made (λ key. key.0) (λ params. params) relay_config (1 ∷ [])
      (first_authority ∷ second_authority ∷ []) waiting 0 key_network-IsClock
      (large-Gives.0, (large-Gives.1, tt))
