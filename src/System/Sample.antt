-- ===== src/System/Sample.antt =====
-- An epoch of aimless-onions/ with two authorities, with which two relays registered in different
-- orders, and what the relays fetch.
use aimless_onions.Relay
use aimless_onions.Prelude.{ℕ, refl, if◌then◌else◌, some, List, [], ◌∷◌, suc}
use aimless_onions.Outcome.{ok, Outcome}
use aimless_onions.ApiTypes.{RelayKey, KeyPair}
use aimless_onions.NodeName.{NodeName, path_bits}
use aimless_onions.Wire.{bytes_eq}
use aimless_onions.Shared.{Text}
use aimless_onions.Sample.{sample, SampleKey, sample-IsSound}
use aimless_onions.Net.Sample.{network}
use aimless_onions.Authority.{no_requests}
use aimless_onions.Authority.Tests.{plain_bbg, store, two_registered}
use aimless_onions.Authority.SharesTests.{given_out, allocation}
use aimless_onions.Authority.AgreementTests.{
  store_too, store_too-IsRegistry, given_too, allocation_too,
}
use aimless_onions.Relay.{LiveAuthority, Config}
use aimless_onions.Relay.Tests.{any_keygen, AnyCache, same_keygen}
use aimless_onions.System.Parties.{Party}
use aimless_onions.Net.{Http, Body, registration, key_request, address_request, an_onion, a_message}

-- What the authorities hand out to a relay with these nodes.
abbrev pub handed_out : List NodeName → List (KeyPair (ℕ × List ℕ))
handed_out [] = []
handed_out (n ∷ ns) = record { node = n; key = (7, path_bits n) } ∷ handed_out ns

abbrev pub large_nodes : List NodeName
large_nodes = record { len = 1; path = 1 } ∷ record { len = 2; path = 0 } ∷ []

abbrev pub read_pairs : List (KeyPair (ℕ × List ℕ)) → List (KeyPair ℕ)
read_pairs [] = []
read_pairs (p ∷ ps) = record { node = p.node; key = p.key.0 } ∷ read_pairs ps

abbrev pub small_nodes : List NodeName
small_nodes = record { len = 2; path = 1 } ∷ []

-- A request of a key is answered with this key, and other ones with the URL.
abbrev pub answer_to : Text → Body → Text
answer_to url (registration r) = url
answer_to url (key_request r) = r.key
answer_to url (address_request r) = url
answer_to url (an_onion o) = url
answer_to url (a_message m) = url

-- A network with the answers of the authorities to the two relays.
abbrev pub key_network : Http ℕ ℕ
key_network = record network {
  post = λ http url body w. (some (answer_to url body), suc w);
  json_public_key = λ url. some 7;
  json_key_pairs = λ key.
      some (read_pairs (handed_out (if bytes_eq key (2 ∷ []) then small_nodes else large_nodes)));
}

abbrev pub Authority : Type 0
Authority =
    Party plain_bbg sample key_network SampleKey sample-IsSound any_keygen AnyCache same_keygen
      (λ pk. ok 0) (λ key. key.0) (λ params. params)

abbrev pub first_authority : Authority
first_authority = record {
  rng = 7;
  registry = store;
  emptied = no_requests;
  given = given_out;
  rng' = 8;
  in_order = two_registered;
  allocated = allocation;
  issues = λ rng n shallow. ((7, path_bits n), refl, refl);
  cache = 0;
  made = refl;
  cached = tt;
}

abbrev pub second_authority : Authority
second_authority = record {
  rng = 7;
  registry = store_too;
  emptied = no_requests;
  given = given_too;
  rng' = 8;
  in_order = store_too-IsRegistry;
  allocated = allocation_too;
  issues = λ rng n shallow. ((7, path_bits n), refl, refl);
  cache = 0;
  made = refl;
  cached = tt;
}

abbrev pub configured : Relay.Authority
configured = record { address = 1 ∷ []; cert = [] }

abbrev pub relay_config : Config
relay_config = record {
  weight = 30;
  public_address = 97 ∷ [];
  port = 80;
  board_address = 1 ∷ [];
  board_port = 81;
  authority = configured ∷ configured ∷ [];
}

abbrev pub live : RelayKey → List (NodeName × (ℕ × ℕ)) → LiveAuthority sample any_keygen
live key received = record {
  config = configured;
  used_key = key;
  public_key = 7;
  received_keys = received;
}

abbrev pub large : List (LiveAuthority sample any_keygen)
large =
    let held =
      live (1 ∷ [])
        ((record { len = 1; path = 1 }, (0, 7)) ∷ (record { len = 2; path = 0 }, (0, 7)) ∷ []) in
    held ∷ held ∷ []

abbrev pub small : List (LiveAuthority sample any_keygen)
small = let held = live (2 ∷ []) ((record { len = 2; path = 1 }, (0, 7)) ∷ []) in held ∷ held ∷ []

abbrev pub any_made : ℕ → Outcome ℕ
any_made pk = ok 0
