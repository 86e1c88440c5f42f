-- ===== src/System/Fetching.antt =====
-- What a turn of the loop over the epochs of aimless-onions/src/bin/relay.rs fetches from the
-- authorities of aimless-onions/src/bin/authority.rs.
use aimless_onions.Prelude.{
  sym, ap, ◌∙◌, subst, ◌≤◌, ◌≡◌, refl, Option, none, some, List, [], ◌∷◌, ◌++◌, map, length,
  replicate,
}
use aimless_onions.Outcome.{Outcome, ok, Error, or_err, network_error}
use aimless_onions.Effects.{looked_at, ok_injective}
use aimless_onions.ApiTypes.{RelayKey, KeyPair}
use aimless_onions.NodeName.{NodeName}
use aimless_onions.Shared.{next}
use aimless_onions.Net.Clock.{IsClock, awake-late}
use aimless_onions.Crypto.{Crypto, IsSound}
use aimless_onions.Net.{Http, awake, key_request, registration}
use aimless_onions.Authority.{Bbg, handle_get_hibe_keys}
use aimless_onions.Relay
use aimless_onions.Relay.{Keygen, LiveAuthority, Config}
use aimless_onions.Relay.Keys.{IsKeygen}
use aimless_onions.Relay.Network.{
  RelayState, client, register_url, get_next_public_key_url, get_keys_url, register, insert_node,
  zip, receive_keys, fetch_authority, fetch_authorities, epoch_turn,
}
use aimless_onions.Relay.Forwarding.{KeyOf}
use aimless_onions.Relay.Live.{register-replicate}
use aimless_onions.System.Received.{read_pair}
use aimless_onions.System.Parties.{Party, Holds, AreHeld, public_key}

-- A call whose result is only looked at does not end the run.
attempted :
    {W A : Type 0} (x : Error) (r : Option A × W)
    → (seen : Option A) × (looked_at (or_err x r.0, r.1) ≡ (ok seen, r.1))
attempted x (some a, w) = (some a, refl)
attempted x (none, w) = (none, refl)

module _ (b : Bbg) (c : Crypto) (h : Http c.PublicKey c.PrivateKey)
    (IsKeyFor : c.PublicKey → NodeName → c.PrivateKey → Type 0) (sound : IsSound c IsKeyFor)
    (g : Keygen c.PrivateKey c.Rng) (IsCache : c.PublicKey → g.Cache → Type 0)
    (keygen : (pk : c.PublicKey) → IsKeygen c g (KeyOf c IsKeyFor sound g IsCache pk) (IsCache pk))
    (make_cache : c.PublicKey → Outcome g.Cache) (read_key : b.PrivateKey → c.PrivateKey)
    (read_params : b.PublicParams → c.PublicKey) where
  open c use {PublicKey, PrivateKey}
  open g use {Cache}
  open h use {
    World, Url, HttpClient, Response, now, get, post, status, json_public_key, json_key_pairs,
  }

  abbrev Authority : Type 0
  Authority = Party b c h IsKeyFor sound g IsCache keygen make_cache read_key read_params

  abbrev params_of : Authority → PublicKey
  params_of p =
      public_key b c h IsKeyFor sound g IsCache keygen make_cache read_key read_params p.given

  abbrev read_of : Authority → List (KeyPair b.PrivateKey) → List (KeyPair PrivateKey)
  read_of p = map (
      read_pair b c g h make_cache (KeyOf c IsKeyFor sound g IsCache (params_of p))
        (IsCache (params_of p)) (keygen (params_of p)) read_key)

  -- An answer of the authority to the request for its next public key.
  pub record GivesKey (p : Authority) (answer : Option Response × World) : Type 0 where
    pub response : Response
    pub later : World
    pub answered : answer ≡ (some response, later)
    pub good : status response ≡ 200
    pub key : json_public_key response ≡ some (params_of p)

  -- An answer with what handle_get_hibe_keys hands out.
  pub record GivesPairs (k : RelayKey) (p : Authority) (answer : Option Response × World)
      : Type 0 where
    pub response : Response
    pub later : World
    pub answered : answer ≡ (some response, later)
    pub asked : b.Rng
    pub pairs : List (KeyPair b.PrivateKey)
    pub rest : b.Rng
    pub handed : handle_get_hibe_keys b asked (record { key = k }) p.given ≡ ok (pairs, rest)
    pub read : json_key_pairs response ≡ some (read_of p pairs)

  -- The relay can reach the authority, and it answers at any time out of its allocation.
  pub record Answers (k : RelayKey) (a : Relay.Authority) (p : Authority) : Type 0 where
    pub http : HttpClient
    pub connects : (w : World) → (w' : World) × (client c g h a w ≡ (ok http, w'))
    pub registers : Url
    pub at_register : register_url c g h a ≡ ok registers
    pub next_key_url : Url
    pub at_key : get_next_public_key_url c g h a ≡ ok next_key_url
    pub keys_url : Url
    pub at_keys : get_keys_url c g h a ≡ ok keys_url
    pub gives_key : (w : World) → GivesKey p (get http next_key_url w)
    pub gives_pairs :
        (w : World) → GivesPairs k p (post http keys_url (key_request (record { key = k })) w)

  receive_keys_total :
      (pk : PublicKey) (cache : Cache)
      → make_cache pk ≡ ok cache
      → (pairs : List (KeyPair PrivateKey)) (acc : List (NodeName × (Cache × PrivateKey)))
      → (received : List (NodeName × (Cache × PrivateKey))) × (receive_keys c g h make_cache pk
            pairs acc
          ≡ ok received)
  unfolding receive_keys
  receive_keys_total pk cache made [] acc = (acc, refl)
  receive_keys_total pk cache made (pair ∷ pairs) acc =
      let (received, run) =
        receive_keys_total pk cache made pairs (insert_node pair.node (cache, pair.key) acc) in
      (received, rw (made, receive_keys) run)

  fetch_authority-Holds :
      (k : RelayKey) (a : Relay.Authority) (p : Authority) (w : World)
      → Answers k a p
      → (live : LiveAuthority c g) × (w' : World) × (fetch_authority c g h make_cache a k w
          ≡ (ok live, w'))
        × Holds b c h IsKeyFor sound g IsCache keygen make_cache read_key read_params k p live
  unfolding fetch_authority
  fetch_authority-Holds k a p w answers =
      let (w1, connected) = answers.connects w in
      let key = answers.gives_key w1 in
      let pairs = answers.gives_pairs key.later in
      let (received, kept) =
        receive_keys_total (params_of p) p.cache p.made (read_of p pairs.pairs) [] in
      (
        record { config = a; used_key = k; public_key = params_of p; received_keys = received },
        pairs.later,
        rw
            (
              connected, answers.at_key, key.answered, key.good, key.key, answers.at_keys,
              pairs.answered, pairs.read, kept,
            )
            refl,
        record {
          asked = pairs.asked;
          pairs = pairs.pairs;
          rest = pairs.rest;
          handed = pairs.handed;
          kept = kept;
          named = refl;
        },
      )

  -- Each of the configured authorities is one of these, in order.
  abbrev pub AreAnswering : RelayKey → List Relay.Authority → List Authority → Type 0
  AreAnswering k [] [] = Unit
  AreAnswering k [] (p ∷ ps) = ⊥
  AreAnswering k (a ∷ as') [] = ⊥
  AreAnswering k (a ∷ as') (p ∷ ps) = Answers k a p × AreAnswering k as' ps

  fetch_authorities-AreHeld :
      (k : RelayKey) (as' : List Relay.Authority) (ps : List Authority) (w : World)
      → AreAnswering k as' ps
      → (lives : List (LiveAuthority c g)) × (w' : World) × (fetch_authorities c g h make_cache
            (zip as' (replicate (length as') k))
            w
          ≡ (ok lives, w'))
        × AreHeld b c h IsKeyFor sound g IsCache keygen make_cache read_key read_params k ps lives
  unfolding fetch_authorities zip
  fetch_authorities-AreHeld k [] [] w answering = ([], w, refl, tt)
  fetch_authorities-AreHeld k [] (p ∷ ps) w answering = absurd answering
  fetch_authorities-AreHeld k (a ∷ as') [] w answering = absurd answering
  fetch_authorities-AreHeld k (a ∷ as') (p ∷ ps) w answering =
      let (live, w1, fetched, held) = fetch_authority-Holds k a p w answering.0 in
      let (lives, w2, rest, all_held) = fetch_authorities-AreHeld k as' ps w1 answering.1 in
      (live ∷ lives, w2, rw (fetched, rest) refl, (held, all_held))

  register_total :
      (k : RelayKey) (config : Config) (as' : List Relay.Authority) (ps : List Authority)
      (used : List RelayKey) (w : World)
      → AreAnswering k as' ps
      → (used' : List RelayKey) × (w' : World) × (register c g h k config as' used w
          ≡ (ok used', w'))
  unfolding register
  register_total k config [] [] used w answering = (used, w, refl)
  register_total k config [] (p ∷ ps) used w answering = absurd answering
  register_total k config (a ∷ as') [] used w answering = absurd answering
  register_total k config (a ∷ as') (p ∷ ps) used w answering =
      let answers = answering.0 in
      let (w1, connected) = answers.connects w in
      let message = registration (record {
        key = k;
        address = config.public_address;
        port = config.port;
        weight = config.weight;
      }) in
      let answer = post answers.http answers.registers message w1 in
      let (noted, looks) = attempted network_error answer in
      let (used', w2, rest) =
        register_total k config as' ps (used ++ k ∷ []) answer.1 answering.1 in
      (used', w2, rw (connected, answers.at_register, looks) rest)

  epoch_turn-runs :
      (config : Config) (k : RelayKey) (ps : List Authority) (s : RelayState c g h make_cache)
      (w : World)
      → AreAnswering k config.authority ps
      → (s' : RelayState c g h make_cache) × (w' : World) × (epoch_turn c g h make_cache config k s
            w
          ≡ (ok s', awake h s.epoch.switchover_time w'))
        × AreHeld b c h IsKeyFor sound g IsCache keygen make_cache read_key read_params k ps
            s'.live_authorities
  unfolding epoch_turn
  epoch_turn-runs config k ps s w answering =
      let w1 : World = awake h s.epoch.registration_time w in
      let (used, w2, registers) = register_total k config config.authority ps [] w1 answering in
      let keys_are =
        register-replicate c g h make_cache k config config.authority [] w1 used w2 registers in
      let w3 : World = awake h s.epoch.allocation_finish_time w2 in
      let (lives, w4, fetched, held) =
        fetch_authorities-AreHeld k config.authority ps w3 answering in
      (
        record {
          live_authorities = lives;
          epoch = next (now (awake h s.epoch.switchover_time w4));
        },
        w4,
        rw (registers, keys_are, fetched) refl,
        held,
      )

  -- A relay with these live authorities has just finished a turn of its loop with this key, while the
  -- authorities answered.
  pub record HasTurned (k : RelayKey) (ps : List Authority) (lives : List (LiveAuthority c g))
      : Type 0 where
    pub config : Config
    pub before : RelayState c g h make_cache
    pub ended_with : RelayState c g h make_cache
    pub began : World
    pub ended : World
    pub answering : AreAnswering k config.authority ps
    pub turned : epoch_turn c g h make_cache config k before began ≡ (ok ended_with, ended)
    pub after_it : ended_with.live_authorities ≡ lives

  pub HasTurned-AreHeld :
      (k : RelayKey) (ps : List Authority) (lives : List (LiveAuthority c g))
      → HasTurned k ps lives
      → AreHeld b c h IsKeyFor sound g IsCache keygen make_cache read_key read_params k ps lives
  HasTurned-AreHeld k ps lives turn =
      let (s', w', run, held) =
        epoch_turn-runs turn.config k ps turn.before turn.began turn.answering in
      subst (AreHeld b c h IsKeyFor sound g IsCache keygen make_cache read_key read_params k ps)
        (ap (λ (s : RelayState c g h make_cache). s.live_authorities)
            (ok_injective (sym run ∙ turn.turned))
          ∙ turn.after_it)
        held

  -- With a clock as IsClock describes it, and authorities that have allocated and from whose public
  -- keys the relay can make generators: when the configured authorities can be reached and answer, at
  -- any time, out of their allocations, whatever they answer to the registrations, a turn of the loop
  -- over the epochs ends at the switchover or later, and the relay then holds of every authority, in
  -- order, what receive_keys makes of the keys that this authority hands out to the relay's key.
  pub epoch_turn-AreHeld :
      (config : Config) (k : RelayKey) (ps : List Authority) (s : RelayState c g h make_cache)
      (w : World)
      → IsClock h
      → AreAnswering k config.authority ps
      → (s' : RelayState c g h make_cache) × (w' : World) × (epoch_turn c g h make_cache config k s
            w
          ≡ (ok s', w'))
        × (s.epoch.switchover_time ≤ now w')
        × AreHeld b c h IsKeyFor sound g IsCache keygen make_cache read_key read_params k ps
            s'.live_authorities
  epoch_turn-AreHeld config k ps s w clocked answering =
      let (s', w', run, held) = epoch_turn-runs config k ps s w answering in
      (
        s',
        awake h s.epoch.switchover_time w',
        run,
        awake-late h clocked s.epoch.switchover_time w',
        held,
      )
