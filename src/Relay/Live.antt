-- ===== src/Relay/Live.antt =====
-- What `fetch_authority` of aimless-onions/src/bin/relay.rs holds of each authority.
use aimless_onions.Prelude.{
  ◌≡◌, refl, ap, Bool, true, false, Option, none, some, ==_iff, sym, subst, ◌∙◌, not, Bool-cases,
  inl, inr, List, [], ◌∷◌, ◌++◌, length, replicate, All, ◌==◌,
}
use mathlib.Core.List.{append_assoc, append-nil}
use aimless_onions.Outcome.{
  Outcome, Error, ok, err, panic, or_err, network_error, decoding_error, key_refused,
}
use aimless_onions.Effects.{
  io, attempt, after-ok, after_given-ok, after_io-ok, after-bail_if-ok, ok_injective,
}
use aimless_onions.ApiTypes.{RelayKey, KeyPair}
use aimless_onions.NodeName.{NodeName}
use aimless_onions.Crypto.{Crypto}
use aimless_onions.Net.{Http, key_request, registration}
use aimless_onions.Relay.{Authority, Config, Keygen, LiveAuthority}
use aimless_onions.Relay.Kept.{held_at, last_key, key_of, receive_keys-last_key}
use aimless_onions.Relay.Network.{
  client, register_url, get_next_public_key_url, get_keys_url, register, insert_node, node_eq, zip,
  receive_keys, fetch_authority, fetch_authorities,
}

insert_node-All :
    {A : Type 0} (P : A → Type 0) (n : NodeName) (a : A) (m : List (NodeName × A))
    → P a
    → All (λ (e : NodeName × A). P e.1) m
    → All (λ (e : NodeName × A). P e.1) (insert_node n a m)
unfolding insert_node
insert_node-All P n a [] here good = (here, tt)
insert_node-All P n a ((n', b) ∷ m) here good = elim (Bool-cases (node_eq n' n)) [
  | inl e ↦ rw e (here, good.1)
  | inr e ↦ rw e (good.0, insert_node-All P n a m here good.1)
]

not_refused : (b : Bool) → not b ≡ false → b ≡ true
not_refused true e = refl
not_refused false e = cc

or_err-ok {ℓ} : {A : Type ℓ} (x : Error) (o : Option A) (a : A) → or_err x o ≡ ok a → o ≡ some a
or_err-ok x none a e = cc
or_err-ok x (some b) a e = cc

module _ (c : Crypto) (g : Keygen c.PrivateKey c.Rng) (h : Http c.PublicKey c.PrivateKey)
    (make_cache : c.PublicKey → Outcome g.Cache) where
  open c use {PublicKey, PrivateKey}
  open g use {Cache}
  open h use {
    World, Url, HttpClient, Response, now, get, post, status, json_public_key, json_key_pairs,
  }

  -- The relay registers with one key, which it notes once for each authority.
  pub register-replicate :
      (key : RelayKey) (config : Config) (authorities : List Authority) (used : List RelayKey)
      (w : World) (used' : List RelayKey) (w' : World)
      → register c g h key config authorities used w ≡ (ok used', w')
      → used' ≡ used ++ replicate (length authorities) key
  unfolding register
  register-replicate key config [] used w used' w' e =
      let same : used ≡ used' = cc in sym same ∙ sym (append-nil used)
  register-replicate key config (a ∷ as') used w used' w' e =
      let (http, w1, connects, e1) = after-ok (client c g h a w) _ used' w' e in
      let (url, asked, e2) = after_given-ok (register_url c g h a) w1 _ used' w' e1 in
      let message = registration (record {
        key = key;
        address = config.public_address;
        port = config.port;
        weight = config.weight;
      }) in
      let (answer, w2, posted, e3) =
        after-ok (attempt (io network_error (post http url message)) w1) _ used' w' e2 in
      register-replicate key config as' (used ++ key ∷ []) w2 used' w' e3
      ∙ append_assoc used (key ∷ []) (replicate (length as') key)

  -- The generators that a live authority holds are those made for its public key.
  abbrev pub AreMade : PublicKey → List (NodeName × (Cache × PrivateKey)) → Type 0
  AreMade pk = All (λ (e : NodeName × (Cache × PrivateKey)). make_cache pk ≡ ok e.1.0)

  receive_keys-AreMade :
      (pk : PublicKey) (pairs : List (KeyPair PrivateKey))
      (received received' : List (NodeName × (Cache × PrivateKey)))
      → receive_keys c g h make_cache pk pairs received ≡ ok received'
      → AreMade pk received
      → AreMade pk received'
  unfolding receive_keys
  receive_keys-AreMade pk [] received received' e good =
      let same : received ≡ received' = cc in subst (AreMade pk) same good
  receive_keys-AreMade pk (pair ∷ pairs) received received' e good =
      at
        (λ cached is e'.
          receive_keys-AreMade pk pairs (insert_node pair.node (cached, pair.key) received)
            received' e'
            (insert_node-All (λ (k : Cache × PrivateKey). make_cache pk ≡ ok k.0) pair.node
              (cached, pair.key) received is good))
        (make_cache pk) refl e
    where
      at :
          ((cached : Cache)
            → make_cache pk ≡ ok cached
            → receive_keys c g h make_cache pk pairs
                (insert_node pair.node (cached, pair.key) received)
              ≡ ok received'
            → AreMade pk received')
          → (r : Outcome Cache) → make_cache pk ≡ r
          → (elim r [
            | ok cached ↦
                receive_keys c g h make_cache pk pairs
                  (insert_node pair.node (cached, pair.key) received)
            | err x ↦ panic
            | panic ↦ panic
          ])
            ≡ ok received'
          → AreMade pk received'
      at go_on (ok cached) is e' = go_on cached is e'
      at go_on (err x) is e' = cc
      at go_on panic is e' = cc

  -- What the relay knows of an authority of which it fetched the keys, and how: the request for the
  -- public key was answered with this key, and the request with the relay's own key with the pairs, of
  -- which the relay holds under every name the last key. `w` and `w'` are the worlds before and after.
  pub record IsLive (key : RelayKey) (a : Authority) (live : LiveAuthority c g) (w w' : World)
      : Type 0 where
    pub configured : live.config ≡ a
    pub registered : live.used_key ≡ key
    pub http : HttpClient
    pub connected : World
    pub connects : client c g h a w ≡ (ok http, connected)
    pub key_at : Url
    pub asks : get_next_public_key_url c g h a ≡ ok key_at
    pub answer : Response
    pub between : World
    pub answered : get http key_at connected ≡ (some answer, between)
    pub good : status answer ≡ 200
    pub told : json_public_key answer ≡ some live.public_key
    pub pairs_at : Url
    pub asks_pairs : get_keys_url c g h a ≡ ok pairs_at
    pub pairs_answer : Response
    pub answered_pairs :
        post http pairs_at (key_request (record { key = key })) between ≡ (some pairs_answer, w')
    pub pairs : List (KeyPair PrivateKey)
    pub handed : json_key_pairs pairs_answer ≡ some pairs
    pub kept :
        (n : NodeName)
        → key_of c g h make_cache (held_at n live.received_keys) ≡ last_key n none pairs
    pub made : AreMade live.public_key live.received_keys

  -- One live authority for each of them, in order, asked one after the other.
  abbrev pub AreLive : RelayKey → List Authority → List (LiveAuthority c g) → World → World → Type 0
  AreLive key [] [] w w' = w ≡ w'
  AreLive key [] (l ∷ ls) w w' = ⊥
  AreLive key (a ∷ as') [] w w' = ⊥
  AreLive key (a ∷ as') (l ∷ ls) w w' =
      (w1 : World) × IsLive key a l w w1 × AreLive key as' ls w1 w'

  -- What `fetch_authority` makes of the two answers.
  abbrev live_of :
      Authority → RelayKey → PublicKey → List (NodeName × (Cache × PrivateKey)) → LiveAuthority c g
  live_of a key pk received = record {
    config = a;
    used_key = key;
    public_key = pk;
    received_keys = received;
  }

  fetch_authority-IsLive :
      (a : Authority) (key : RelayKey) (w : World) (live : LiveAuthority c g) (w' : World)
      → fetch_authority c g h make_cache a key w ≡ (ok live, w')
      → IsLive key a live w w'
  unfolding fetch_authority
  fetch_authority-IsLive a key w live w' e =
      let (http, w1, connects, e1) = after-ok (client c g h a w) _ live w' e in
      let (key_url, asked, e2) = after_given-ok (get_next_public_key_url c g h a) w1 _ live w' e1 in
      let (res, answered, e3) = after_io-ok network_error (get http key_url w1) _ live w' e2 in
      let w2 : World = (get http key_url w1).1 in
      let (good, e4) = after-bail_if-ok (not (status res == 200)) key_refused w2 _ live w' e3 in
      let (pk, holds, e5) =
        after_given-ok (or_err decoding_error (json_public_key res)) w2 _ live w' e4 in
      let (keys_url, asked', e6) = after_given-ok (get_keys_url c g h a) w2 _ live w' e5 in
      let request = key_request (record { key = key }) in
      let (res', answered', e7) =
        after_io-ok network_error (post http keys_url request w2) _ live w' e6 in
      let w3 : World = (post http keys_url request w2).1 in
      let (pairs, held, e8) =
        after_given-ok (or_err decoding_error (json_key_pairs res')) w3 _ live w' e7 in
      let (received, collected, e9) =
        after_given-ok (receive_keys c g h make_cache pk pairs []) w3 _ live w' e8 in
      let same : live_of a key pk received ≡ live = ok_injective {w = w3} e9 in
      let ended : w3 ≡ w' = ap (λ (r : Outcome (LiveAuthority c g) × World). r.1) e9 in
      subst (λ (l : LiveAuthority c g). IsLive key a l w w') same
        (subst (IsLive key a (live_of a key pk received) w) ended (record {
          configured = refl;
          registered = refl;
          http = http;
          connected = w1;
          connects = connects;
          key_at = key_url;
          asks = asked;
          answer = res;
          between = w2;
          answered = answered;
          good = (==_iff (status res) 200).0 (not_refused (status res == 200) good);
          told = or_err-ok decoding_error (json_public_key res) pk holds;
          pairs_at = keys_url;
          asks_pairs = asked';
          pairs_answer = res';
          answered_pairs = answered';
          pairs = pairs;
          handed = or_err-ok decoding_error (json_key_pairs res') pairs held;
          kept = receive_keys-last_key c g h make_cache pk pairs [] received collected;
          made = receive_keys-AreMade pk pairs [] received collected tt;
        }))

  pub fetch_authorities-AreLive :
      (key : RelayKey) (authorities : List Authority) (w : World) (lives : List (LiveAuthority c g))
      (w' : World)
      → fetch_authorities c g h make_cache (zip authorities (replicate (length authorities) key)) w
        ≡ (ok lives, w')
      → AreLive key authorities lives w w'
  unfolding fetch_authorities zip
  fetch_authorities-AreLive key [] w [] w' e =
      ap (λ (r : Outcome (List (LiveAuthority c g)) × World). r.1) e
  fetch_authorities-AreLive key [] w (l ∷ ls) w' e = cc
  fetch_authorities-AreLive key (a ∷ as') w lives w' e =
      let (live, w1, first, e1) =
        after-ok (fetch_authority c g h make_cache a key w) _ lives w' e in
      let (others, w2, later, e2) =
        after-ok (fetch_authorities c g h make_cache (zip as' (replicate (length as') key)) w1) _
          lives w' e1 in
      let same : live ∷ others ≡ lives = ok_injective e2 in
      let ended : w2 ≡ w' = ap (λ (r : Outcome (List (LiveAuthority c g)) × World). r.1) e2 in
      subst (λ (ls : List (LiveAuthority c g)). AreLive key (a ∷ as') ls w w') same
        (subst (AreLive key (a ∷ as') (live ∷ others) w) ended (
          w1,
          fetch_authority-IsLive a key w live w1 first,
          fetch_authorities-AreLive key as' w1 others w2 later,
        ))
