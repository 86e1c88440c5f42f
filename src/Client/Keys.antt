-- ===== src/Client/Keys.antt =====
-- The public keys that a client of aimless-onions/src/bin/client.rs holds.
use aimless_onions.Prelude.{
  ◌≡◌, refl, ap, subst, ◌∙◌, true, false, not, Bool, some, List, [], ◌∷◌, ◌==◌, ==_iff, ◌↔◌,
}
use aimless_onions.Outcome.{
  Outcome, ok, or_err, network_error, decoding_error, key_refused, or_err-ok,
}
use aimless_onions.Effects.{after-ok, after_given-ok, after_io-ok, after-bail_if-ok}
use aimless_onions.Crypto.{Crypto}
use aimless_onions.Net.{Http}
use aimless_onions.Client.{Authority, CurrentOrNext, client, key_url, retrieve_key, retrieve_keys}

not-false : (b : Bool) → not b ≡ false → b ≡ true
not-false true e = refl
not-false false e = cc

module _ (c : Crypto) (h : Http c.PublicKey c.PrivateKey) where
  open c use {PublicKey}
  open h use {World, Url, HttpClient, Response, get, status, json_public_key, now}

  -- The authority answers a request for its key with status 200 and this key.
  pub record IsKeyAnswer (which : CurrentOrNext) (a : Authority) (w : World) (key : PublicKey)
      (w' : World) : Type 0 where
    pub http : HttpClient
    pub before : World
    pub url : Url
    pub res : Response
    pub connects : client c h a w ≡ (ok http, before)
    pub asked : key_url c h which a ≡ ok url
    pub answered : get http url before ≡ (some res, w')
    pub good : status res ≡ 200
    pub holds : json_public_key res ≡ some key

  -- One answer after the other, in the order of the authorities.
  abbrev pub IsFetched : CurrentOrNext → List Authority → World → List PublicKey → World → Type 0
  IsFetched which [] w [] w' = w ≡ w'
  IsFetched which [] w (k ∷ ks) w' = ⊥
  IsFetched which (a ∷ as') w [] w' = ⊥
  IsFetched which (a ∷ as') w (k ∷ ks) w' =
      (w1 : World) × IsKeyAnswer which a w k w1 × IsFetched which as' w1 ks w'

  retrieve_key-IsKeyAnswer :
      (which : CurrentOrNext) (a : Authority) (w : World) (key : PublicKey) (w' : World)
      → retrieve_key c h which a w ≡ (ok key, w')
      → IsKeyAnswer which a w key w'
  unfolding retrieve_key
  retrieve_key-IsKeyAnswer which a w key w' e =
      let (http, w1, connects, e1) = after-ok (client c h a w) _ key w' e in
      let (url, asked, e2) = after_given-ok (key_url c h which a) w1 _ key w' e1 in
      let (res, answered, e3) = after_io-ok network_error (get http url w1) _ key w' e2 in
      let (refused, e4) =
        after-bail_if-ok (not (status res == 200)) key_refused (get http url w1).1 _ key w' e3 in
      let holds : or_err decoding_error (json_public_key res) ≡ ok key =
        ap (λ (r : Outcome PublicKey × World). r.0) e4 in
      let same : (get http url w1).1 ≡ w' = ap (λ (r : Outcome PublicKey × World). r.1) e4 in
      record {
        http = http;
        before = w1;
        url = url;
        res = res;
        connects = connects;
        asked = asked;
        answered = answered ∙ (λ i. (some res, same i));
        good = (==_iff (status res) 200).0 (not-false (status res == 200) refused);
        holds = or_err-ok decoding_error (json_public_key res) key holds;
      }

  retrieve_key-of :
      (which : CurrentOrNext) (a : Authority) (w : World) (key : PublicKey) (w' : World)
      → IsKeyAnswer which a w key w'
      → retrieve_key c h which a w ≡ (ok key, w')
  unfolding retrieve_key
  retrieve_key-of which a w key w' is =
      rw (is.connects, is.asked, is.answered, is.good, is.holds) refl

  retrieve_keys-IsFetched :
      (which : CurrentOrNext) (authorities : List Authority) (w : World) (keys : List PublicKey)
      (w' : World)
      → retrieve_keys c h which authorities w ≡ (ok keys, w')
      → IsFetched which authorities w keys w'
  unfolding retrieve_keys
  retrieve_keys-IsFetched which [] w [] w' e = cc
  retrieve_keys-IsFetched which [] w (k ∷ ks) w' e = cc
  retrieve_keys-IsFetched which (a ∷ as') w keys w' e =
      let (key, w1, first, e1) = after-ok (retrieve_key c h which a w) _ keys w' e in
      let (rest, w2, later, e2) = after-ok (retrieve_keys c h which as' w1) _ keys w' e1 in
      let keys_are : key ∷ rest ≡ keys = cc in
      let world_is : w2 ≡ w' = cc in
      subst (λ (r : List PublicKey × World). IsFetched which (a ∷ as') w r.0 r.1)
        (λ i. (keys_are i, world_is i))
        (
          w1,
          retrieve_key-IsKeyAnswer which a w key w1 first,
          retrieve_keys-IsFetched which as' w1 rest w2 later,
        )

  retrieve_keys-of :
      (which : CurrentOrNext) (authorities : List Authority) (w : World) (keys : List PublicKey)
      (w' : World)
      → IsFetched which authorities w keys w'
      → retrieve_keys c h which authorities w ≡ (ok keys, w')
  unfolding retrieve_keys
  retrieve_keys-of which [] w [] w' is = λ i. (ok [], is i)
  retrieve_keys-of which [] w (k ∷ ks) w' is = absurd is
  retrieve_keys-of which (a ∷ as') w [] w' is = absurd is
  retrieve_keys-of which (a ∷ as') w (k ∷ ks) w' (w1, first, later) =
      rw (retrieve_key-of which a w k w1 first, retrieve_keys-of which as' w1 ks w' later) refl

  -- retrieve_keys gives keys exactly when every authority, asked in order, answers with status 200
  -- and a key; the keys are theirs, in order. Otherwise it gives no keys at all.
  pub retrieve_keys_iff :
      (which : CurrentOrNext) (authorities : List Authority) (w : World) (keys : List PublicKey)
      (w' : World)
      → (retrieve_keys c h which authorities w ≡ (ok keys, w'))
        ↔ IsFetched which authorities w keys w'
  retrieve_keys_iff which authorities w keys w' = (
    retrieve_keys-IsFetched which authorities w keys w',
    retrieve_keys-of which authorities w keys w',
  )
