-- ===== src/Relay/Registering.antt =====
-- The registrations of `register` of aimless-onions/src/bin/relay.rs.
use aimless_onions.Prelude.{◌≡◌, refl, ap, sym, ◌∙◌, subst, Option, none, some, List, [], ◌∷◌, ◌++◌}
use aimless_onions.Outcome.{Outcome, Error, ok, or_err, network_error}
use aimless_onions.Effects.{io, attempt, looked_at, after-ok, after_given-ok}
use aimless_onions.ApiTypes.{RelayKey, RegisterRelay}
use aimless_onions.Crypto.{Crypto}
use aimless_onions.Net.{Http, registration}
use aimless_onions.Relay.{Authority, Config, Keygen}
use aimless_onions.Relay.Network.{client, register_url, register}

looked_at-world :
    {W A : Type 0} (x : Error) (r : Option A × W) → (looked_at (or_err x r.0, r.1)).1 ≡ r.1
looked_at-world x (none, w) = refl
looked_at-world x (some a, w) = refl

module _ (c : Crypto) (g : Keygen c.PrivateKey c.Rng) (h : Http c.PublicKey c.PrivateKey) where
  open h use {World, Url, HttpClient, post}

  -- The relay's registration with its key, address, port and weight.
  abbrev pub about_relay : RelayKey → Config → RegisterRelay
  about_relay key config = record {
    key = key;
    address = config.public_address;
    port = config.port;
    weight = config.weight;
  }

  -- One registration after the other is sent to the authorities, whatever they answer.
  abbrev pub AreRegistered : RelayKey → Config → List Authority → World → World → Type 0
  AreRegistered key config [] w w' = w ≡ w'
  AreRegistered key config (a ∷ as') w w' =
      (http : HttpClient) × (connected : World) × (url : Url) × (client c g h a w
        ≡ (ok http, connected))
      × (register_url c g h a ≡ ok url)
      × AreRegistered key config as'
          (post http url (registration (about_relay key config)) connected).1 w'

  pub register-AreRegistered :
      (key : RelayKey) (config : Config) (authorities : List Authority) (used : List RelayKey)
      (w : World) (used' : List RelayKey) (w' : World)
      → register c g h key config authorities used w ≡ (ok used', w')
      → AreRegistered key config authorities w w'
  unfolding register
  register-AreRegistered key config [] used w used' w' e =
      ap (λ (r : Outcome (List RelayKey) × World). r.1) e
  register-AreRegistered key config (a ∷ as') used w used' w' e =
      let (http, w1, connects, e1) = after-ok (client c g h a w) _ used' w' e in
      let (url, asked, e2) = after_given-ok (register_url c g h a) w1 _ used' w' e1 in
      let sent = post http url (registration (about_relay key config)) in
      let (answer, w2, posted, e3) = after-ok (attempt (io network_error sent) w1) _ used' w' e2 in
      let later : (sent w1).1 ≡ w2 =
        sym (looked_at-world network_error (sent w1)) ∙ ap (λ r. r.1) posted in
      (
        http,
        w1,
        url,
        connects,
        asked,
        subst (λ (t : World). AreRegistered key config as' t w') (sym later)
            (register-AreRegistered key config as' (used ++ key ∷ []) w2 used' w' e3),
      )
