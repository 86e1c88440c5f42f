-- ===== src/Client/Tests.antt =====
-- Runs of the functions of aimless-onions/src/bin/client.rs, and uses of its theorems.
use aimless_onions.Prelude.{ℕ, ◌+◌, ◌≤◌, ◌≡◌, refl, arith, ◌↔◌, Option, some, [], ◌∷◌}
use aimless_onions.Outcome.{ok, err, no_relay_address, decoding_error, file_error}
use aimless_onions.Effects.{io, after}
use aimless_onions.Wire.{Bytes, Onion}
use aimless_onions.Shared.{Epoch, Message, Text, next, from_registration, wait_until}
use aimless_onions.Sample.{sample, SampleKey, sample-IsSound}
use aimless_onions.Onion.Delivery.{IsDelivered}
use aimless_onions.Net.{awake, decimal_digits, display_port}
use aimless_onions.Net.Clock.{IsClock}
use aimless_onions.Net.Sample.{network}
use aimless_onions.Client.{
  Authority, Config, next_epoch, ClientState, client, read_certificate, get_relay_address_url,
  get_current_public_key_url, get_next_public_key_url, key_url, retrieve_key, request_relay,
  post_onion, send_onion, retrieve_keys, switch_epoch, epoch_turn, epoch_turns, start,
  build_and_send, draw,
}
use aimless_onions.Client.Keys.{IsFetched, retrieve_keys_iff}
use aimless_onions.Client.Epochs.{IsComplete, epoch_turns-IsComplete, epoch_turn-switches}
use aimless_onions.Client.Sending.{send_onion-first, send_onion_refused, build_and_send-IsDelivered}

port_text : display_port 8080 ≡ 56 ∷ 48 ∷ 56 ∷ 48 ∷ []
unfolding decimal_digits
port_text = refl

abbrev pub good : Authority
good = record { address = 1 ∷ []; cert = [] }

abbrev bad : Authority
bad = record { address = 0 ∷ []; cert = [] }

abbrev pub both_good : Config
both_good = record { authority = good ∷ good ∷ [] }

abbrev onion : Onion
onion = record { identity = 5; shares = []; header = []; payload = [] }

two_keys : retrieve_keys sample network next_epoch (good ∷ good ∷ []) 3 ≡ (ok (11 ∷ 11 ∷ []), 5)
unfolding retrieve_keys retrieve_key key_url get_next_public_key_url client read_certificate
two_keys = refl

one_refuses : request_relay sample network bad onion 3 ≡ (err decoding_error, 4)
unfolding request_relay get_relay_address_url client read_certificate
one_refuses = refl

abbrev answer_text : Text
answer_text =
    1 ∷ 103 ∷ 101 ∷ 116 ∷ 45 ∷ 114 ∷ 101 ∷ 108 ∷ 97 ∷ 121 ∷ 45 ∷ 97 ∷ 100 ∷ 100 ∷ 114 ∷ 101 ∷ 115
    ∷ 115 ∷ []

one_answers : request_relay sample network good onion 4 ≡ (ok (answer_text, 80), 5)
unfolding request_relay get_relay_address_url client read_certificate
one_answers = refl

retrieve_keys_iff_example :
    (retrieve_keys sample network next_epoch (good ∷ good ∷ []) 3 ≡ (ok (11 ∷ 11 ∷ []), 5))
    ↔ IsFetched sample network next_epoch (good ∷ good ∷ []) 3 (11 ∷ 11 ∷ []) 5
retrieve_keys_iff_example =
    retrieve_keys_iff sample network next_epoch (good ∷ good ∷ []) 3 (11 ∷ 11 ∷ []) 5

send_onion-first_example :
    send_onion sample network (bad ∷ good ∷ good ∷ []) onion 3
    ≡ post_onion sample network (answer_text, 80) onion 5
send_onion-first_example =
    send_onion-first sample network onion (bad ∷ []) good (good ∷ []) 3 4 5 (answer_text, 80)
      (decoding_error, 4, one_refuses, refl) one_answers

nobody_answers : send_onion sample network (bad ∷ []) onion 3 ≡ (err no_relay_address, 4)
nobody_answers =
    send_onion_refused sample network onion (bad ∷ []) 3 4 (decoding_error, 4, one_refuses, refl)

-- The first epoch, and the state with the keys of two authorities.
abbrev first_epoch : Epoch
first_epoch = record {
  registration_time = 10;
  allocation_start_time = 20;
  allocation_finish_time = 30;
  switchover_time = 40;
}

abbrev two_held : ClientState sample network
two_held = record { public_keys = 11 ∷ 11 ∷ []; epoch = first_epoch }

network-IsClock : IsClock network
network-IsClock = record { lasts = λ d w. omega arith }

IsFetched-at_30 : IsFetched sample network next_epoch (good ∷ good ∷ []) 30 (11 ∷ 11 ∷ []) 32
unfolding retrieve_keys retrieve_key key_url get_next_public_key_url client read_certificate
IsFetched-at_30 =
    (retrieve_keys_iff sample network next_epoch (good ∷ good ∷ []) 30 (11 ∷ 11 ∷ []) 32).0 refl

IsFetched-awake :
    IsFetched sample network next_epoch (good ∷ good ∷ []) (awake network 30 20) (11 ∷ 11 ∷ []) 32
unfolding awake wait_until
IsFetched-awake = IsFetched-at_30

epoch_turn-switches_example :
    (epoch_turn sample network both_good two_held 20 ≡ (
      ok (record { public_keys = 11 ∷ 11 ∷ []; epoch = next (awake network 40 32) }),
      awake network 40 32,
    ))
    × (40 ≤ awake network 40 32)
epoch_turn-switches_example =
    epoch_turn-switches sample network both_good two_held 20 32 (11 ∷ 11 ∷ []) network-IsClock
      IsFetched-awake

abbrev with_bad : Config
with_bad = record { authority = bad ∷ [] }

bad_keys : retrieve_keys sample network next_epoch (bad ∷ []) 50 ≡ (err decoding_error, 51)
unfolding retrieve_keys retrieve_key key_url get_next_public_key_url client read_certificate
bad_keys = refl

abbrev started : ClientState sample network
started = record { public_keys = 11 ∷ 11 ∷ []; epoch = next 5 }

started_is : start sample network both_good 3 ≡ (ok started, 5)
unfolding start retrieve_keys retrieve_key key_url get_current_public_key_url client
    read_certificate
started_is = refl

abbrev world_after : ℕ
world_after =
    awake network (next 5).switchover_time (2 + awake network (next 5).allocation_finish_time 5)

turned_is :
    epoch_turns sample network 1 both_good started 5
    ≡ (ok (record { public_keys = 11 ∷ 11 ∷ []; epoch = next world_after }), world_after)
unfolding epoch_turns epoch_turn switch_epoch retrieve_keys retrieve_key key_url
    get_next_public_key_url client read_certificate next from_registration awake wait_until
turned_is = refl

epoch_turns-IsComplete_example : IsComplete sample network both_good (11 ∷ 11 ∷ [])
epoch_turns-IsComplete_example =
    epoch_turns-IsComplete sample network 1 both_good started
      (record { public_keys = 11 ∷ 11 ∷ []; epoch = next world_after }) 3 5 world_after started_is
      turned_is

abbrev pub same_identity : ℕ → ℕ × ℕ
same_identity rng = (3, rng)

abbrev pub one_second : ℕ → ℕ × ℕ
one_second rng = (1000, rng)

abbrev pub plain_message : Message → Bytes
plain_message m = m.content

abbrev pub logged : Text → ℕ → Option {0} Unit × ℕ
logged text w = (some tt, w)

build_and_send-IsDelivered_example :
    (o : Onion) × (build_and_send sample network same_identity one_second plain_message logged 5
        both_good
        (11 ∷ 12 ∷ [])
        (72 ∷ [])
        9
      ≡ after
          (send_onion sample network (good ∷ good ∷ []) o 9)
          (λ _. io file_error (logged (72 ∷ []))))
    × IsDelivered sample SampleKey sample-IsSound
        (11 ∷ 12 ∷ [])
        (λ i. 11 ∷ 12 ∷ [])
        (3 ∷ 3 ∷ 3 ∷ [])
        (1000 ∷ 1000 ∷ 1000 ∷ [])
        (72 ∷ [])
        o
unfolding draw
build_and_send-IsDelivered_example =
    build_and_send-IsDelivered sample network SampleKey sample-IsSound same_identity one_second
      plain_message logged 5 both_good (11 ∷ 12 ∷ []) (λ i. 11 ∷ 12 ∷ []) (72 ∷ []) 9 (omega arith)
      (λ r. omega arith) (λ r. omega arith) (λ i. (refl, (refl, tt)))
