-- ===== src/Net.antt =====
-- What the relay and the client of aimless-onions/src/bin/ take from other crates to talk to the other
-- parties (reqwest, serde_json), and the clock and the files of the machine.
pub mod Sample
pub mod Clock
use aimless_onions.Prelude.{
  ℕ, zero, suc, ◌+◌, ◌-◌, ◌*◌, ◌/◌, ◌%◌, ◌^◌, Bool, true, false, Option, none, some, List, [], ◌∷◌,
  ◌++◌, ltb, if◌then◌else◌, ◌==◌,
}
use aimless_onions.Outcome.{
  Outcome, ok, err, panic, ◌>>=◌, or_panic, or_err, resolution_failed, invalid_input,
}
use aimless_onions.Effects.{Action}
use aimless_onions.ApiTypes.{Address, RegisterRelay, GetHibeKeys, GetRelayAddress, KeyPair}
use aimless_onions.Wire.{Bytes, Onion}
use aimless_onions.Shared.{Text, Message, Epoch, wait_until}

-- What is sent as JSON.
pub data Body : Type 0 where
  registration : RegisterRelay → Body
  key_request : GetHibeKeys → Body
  address_request : GetRelayAddress → Body
  an_onion : Onion → Body
  a_message : Message → Body

pub record Http (PublicKey PrivateKey : Type 0) : Type 1 where
  pub World : Type 0
  pub Url : Type 0
  pub Certificate : Type 0
  pub HttpClient : Type 0
  pub Response : Type 0
  -- `Url::parse` and `join`
  pub parse : Text → Option Url
  pub join : Url → Text → Option Url
  pub read_file : Text → World → Option Bytes × World
  pub from_pem : Bytes → Option Certificate
  -- `ClientBuilder` with a root certificate, and `Client::new()`.
  pub build : Certificate → Option HttpClient
  pub plain_client : HttpClient
  -- `send`, for a GET and for a POST; `none` is an `Err`.
  pub get : HttpClient → Url → World → Option Response × World
  pub post : HttpClient → Url → Body → World → Option Response × World
  pub status : Response → ℕ
  -- `json`, for each of the types that are read.
  pub json_address : Response → Option Address
  pub json_public_key : Response → Option PublicKey
  pub json_key_pairs : Response → Option (List (KeyPair PrivateKey))
  -- The clock and `sleep`, in nanoseconds.
  pub now : World → ℕ
  pub sleep : ℕ → World → World

abbrev pub first_of : {A : Type 0} → List A → Option A
first_of [] = none
first_of (a ∷ as') = some a

-- `Display` of a u16: decimal digits.
unfoldable pub decimal_digits : ℕ → ℕ → Text → Text
decimal_digits zero n acc = acc
decimal_digits (suc fuel) n acc =
    let rest = decimal_digits fuel (n / 10) ((48 + n % 10) ∷ acc) in
    if ltb n 10 then (48 + n % 10) ∷ acc else rest

abbrev pub display_port : ℕ → Text
display_port port = decimal_digits 5 port []

-- `format!("http://{}:{}", address, port)`
abbrev pub http_address : Text → ℕ → Text
http_address address port =
    (104 ∷ 116 ∷ 116 ∷ 112 ∷ 58 ∷ 47 ∷ 47 ∷ []) ++ address ++ 58 ∷ display_port port

-- `to_socket_addrs` of the standard library is the argument; `none` is an `Err`.
unfoldable pub parse_socket_addr : {A : Type 0} → (Text → Option (List A)) → Text → ℕ → Outcome A
parse_socket_addr to_socket_addrs address port = do
  addresses ← or_err resolution_failed (to_socket_addrs (address ++ 58 ∷ display_port port))
  or_err invalid_input (first_of addresses)

abbrev pub any_address : Text
any_address = 48 ∷ 46 ∷ 48 ∷ 46 ∷ 48 ∷ 46 ∷ 48 ∷ []

-- An `Err` that `expect` makes a panic.
abbrev pub expect_outcome : {A : Type 0} → Outcome A → Outcome A
expect_outcome (ok a) = ok a
expect_outcome (err e) = panic
expect_outcome panic = panic

abbrev pub relay_path : Text
relay_path = 114 ∷ 101 ∷ 108 ∷ 97 ∷ 121 ∷ []

module _ {PublicKey PrivateKey : Type 0} (h : Http PublicKey PrivateKey) where
  open h use {World, Url, parse, join, now, sleep}

  -- `Url::parse(..).unwrap().join(..).unwrap()`
  abbrev pub joined : Text → Text → Outcome Url
  joined base path = do url ← or_panic (parse base); or_panic (join url path)

  -- `wait_until` of the shared module: it sleeps if the time is still to come.
  unfoldable pub awake : ℕ → World → World
  awake when w = if ltb (now w) when then sleep (wait_until (now w) when) w else w

  abbrev pub sleep_until : ℕ → Action World Unit
  sleep_until when w = (ok tt, awake when w)

  -- The waits of an epoch.
  abbrev pub wait_for_registration : Epoch → Action World Unit
  wait_for_registration e = sleep_until e.registration_time

  abbrev pub wait_for_allocation_start : Epoch → Action World Unit
  wait_for_allocation_start e = sleep_until e.allocation_start_time

  abbrev pub wait_for_allocation_finish : Epoch → Action World Unit
  wait_for_allocation_finish e = sleep_until e.allocation_finish_time

  abbrev pub wait_for_switchover : Epoch → Action World Unit
  wait_for_switchover e = sleep_until e.switchover_time

  abbrev pub clock : Action World ℕ
  clock w = (ok (now w), w)
