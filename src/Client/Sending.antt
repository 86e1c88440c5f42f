-- ===== src/Client/Sending.antt =====
-- How a client of aimless-onions/src/bin/client.rs finds a relay for an onion and what it sends.
use aimless_onions.Prelude.{
  ℕ, zero, suc, ◌<◌, ◌^◌, ◌≡◌, refl, ap, sym, ◌∙◌, arith, false, Option, List, [], ◌∷◌, ◌++◌,
  length, All, ltb,
}
use aimless_onions.Outcome.{ok, err, Error, no_relay_address, file_error}
use aimless_onions.Effects.{io, after}
use aimless_onions.ApiTypes.{Address}
use aimless_onions.NodeName.{NodeName}
use aimless_onions.Wire.{Bytes, Onion}
use aimless_onions.Shared.{Text, Message, timestamp}
use aimless_onions.Crypto.{Crypto, IsSound}
use aimless_onions.Onion.Route.{AreKeysOf}
use aimless_onions.Onion.Delivery.{IsDelivered, IsRouted, wrap-IsRouted, IsRouted-IsDelivered}
use aimless_onions.Net.{Http}
use aimless_onions.Client.{
  Authority, Config, draw, request_relay, post_onion, send_onion, build_onion, build_and_send,
}

pub length-draw :
    {Rng A : Type 0} (n : ℕ) (f : Rng → A × Rng) (rng : Rng) → length (draw n f rng).0 ≡ n
unfolding draw
length-draw zero f rng = refl
length-draw (suc n) f rng = ap suc (length-draw n f (f rng).1)

pub All-draw :
    {Rng A : Type 0} (P : A → Type 0) (n : ℕ) (f : Rng → A × Rng) (rng : Rng)
    → ((r : Rng) → P (f r).0)
    → All P (draw n f rng).0
unfolding draw
All-draw P zero f rng each = tt
All-draw P (suc n) f rng each = (each rng, All-draw P n f (f rng).1 each)

module _ (c : Crypto) (h : Http c.PublicKey c.PrivateKey) where
  open c use {Rng, PublicKey, PrivateKey}
  open h use {World, now}

  -- The authorities that are asked for a relay one after the other and all fail.
  abbrev pub Refuse : Onion → List Authority → World → World → Type 0
  Refuse o [] w w' = w ≡ w'
  Refuse o (a ∷ as') w w' =
      (x : Error) × (w1 : World) × (request_relay c h a o w ≡ (err x, w1)) × Refuse o as' w1 w'

  -- When the authorities before one fail to give a relay for the onion and that one gives an
  -- address, send_onion posts the onion there and ends as this post does; the authorities after it
  -- are not asked.
  pub send_onion-first :
      (o : Onion) (before : List Authority) (a : Authority) (others : List Authority)
      (w w1 w2 : World) (address : Address)
      → Refuse o before w w1
      → request_relay c h a o w1 ≡ (ok address, w2)
      → send_onion c h (before ++ a ∷ others) o w ≡ post_onion c h address o w2
  unfolding send_onion
  send_onion-first o [] a others w w1 w2 address same gives =
      rw (ap (request_relay c h a o) same ∙ gives) refl
  send_onion-first o (b ∷ before) a others w w1 w2 address (x, v, failed, refuse) gives =
      rw failed (send_onion-first o before a others v w1 w2 address refuse gives)

  -- When all authorities fail to give a relay for the onion, send_onion ends with an error, and
  -- nothing has been done but to ask them.
  pub send_onion_refused :
      (o : Onion) (authorities : List Authority) (w w1 : World)
      → Refuse o authorities w w1
      → send_onion c h authorities o w ≡ (err no_relay_address, w1)
  unfolding send_onion
  send_onion_refused o [] w w1 same = λ i. (err no_relay_address, same i)
  send_onion_refused o (b ∷ as') w w1 (x, v, failed, refuse) =
      rw failed (send_onion_refused o as' v w1 refuse)

  module _ (HasKey : PublicKey → NodeName → PrivateKey → Type 0) (sound : IsSound c HasKey)
      (gen_identity sample_delay : Rng → ℕ × Rng) (serialize_message : Message → Bytes)
      (log_wrapping : Text → World → Option {0} Unit × World) where
    -- The identities and delays that are drawn for an onion, and the content that it carries.
    abbrev pub drawn_identities : Rng → List ℕ
    drawn_identities rng = (draw 3 gen_identity rng).0

    abbrev pub drawn_delays : Rng → List ℕ
    drawn_delays rng =
        (draw (length (drawn_identities rng)) sample_delay (draw 3 gen_identity rng).1).0

    abbrev pub content_at : ℕ → Text → Bytes
    content_at time text = serialize_message (record { timestamp = timestamp time; content = text })

    -- The onion that is sent, whatever keys the relays have.
    pub build_and_send-IsRouted :
        (rng : Rng) (config : Config) (pks : List PublicKey) (text : Text) (w : World)
        → 0 < length pks
        → ((r : Rng) → (gen_identity r).0 < 2 ^ 64)
        → ((r : Rng) → (sample_delay r).0 < 2 ^ 32)
        → (o : Onion) × (build_and_send c h gen_identity sample_delay serialize_message log_wrapping
              rng config pks text w
            ≡ after (send_onion c h config.authority o w) (λ _. io file_error (log_wrapping text)))
          × IsRouted c HasKey sound pks
              (drawn_identities rng)
              (drawn_delays rng)
              (content_at (now w) text)
              o
    unfolding build_and_send build_onion
    build_and_send-IsRouted rng config pks text w some_keys ids delays =
        let rng1 = (draw 3 gen_identity rng).1 in
        let rng2 = (draw (length (drawn_identities rng)) sample_delay rng1).1 in
        let counts : length (drawn_identities rng) ≡ length (drawn_delays rng) =
          sym (length-draw (length (drawn_identities rng)) sample_delay rng1) in
        let (o, rng3, wrapped, delivered) =
          wrap-IsRouted c HasKey sound rng2 (drawn_identities rng) (drawn_delays rng) pks
            (content_at (now w) text) some_keys counts
            (All-draw (λ i. i < 2 ^ 64) 3 gen_identity rng ids)
            (All-draw (λ d. d < 2 ^ 32) (length (drawn_identities rng)) sample_delay rng1 delays) in
        let enough : ltb (length pks) 1 ≡ false = ground (arith, some_keys) in
        (o, rw (enough, wrapped) refl, delivered)

    -- With cryptography as IsSound describes it, at least one public key, and identities and delays
    -- that are drawn within the sizes of their types: build_and_send hands one onion to send_onion,
    -- ends with its error if it fails, and logs the wrapping if not. Relays that have keys for all
    -- identities unwrap that onion along the drawn identities and delays down to the message with
    -- the text and the time.
    pub build_and_send-IsDelivered :
        (rng : Rng) (config : Config) (pks : List PublicKey) (keys : ℕ → List PrivateKey)
        (text : Text) (w : World)
        → 0 < length pks
        → ((r : Rng) → (gen_identity r).0 < 2 ^ 64)
        → ((r : Rng) → (sample_delay r).0 < 2 ^ 32)
        → ((i : ℕ) → AreKeysOf c HasKey sound pks keys i)
        → (o : Onion) × (build_and_send c h gen_identity sample_delay serialize_message log_wrapping
              rng config pks text w
            ≡ after (send_onion c h config.authority o w) (λ _. io file_error (log_wrapping text)))
          × IsDelivered c HasKey sound pks keys
              (drawn_identities rng)
              (drawn_delays rng)
              (content_at (now w) text)
              o
    build_and_send-IsDelivered rng config pks keys text w some_keys ids delays has =
        let (o, run, routed) = build_and_send-IsRouted rng config pks text w some_keys ids delays in
        let counts : length (drawn_identities rng) ≡ length (drawn_delays rng) =
          sym (
            length-draw (length (drawn_identities rng)) sample_delay (draw 3 gen_identity rng).1) in
        (
          o,
          run,
          IsRouted-IsDelivered c HasKey sound (drawn_identities rng) (drawn_delays rng) pks keys
              (content_at (now w) text) o counts
              (All-draw (AreKeysOf c HasKey sound pks keys) 3 gen_identity rng
                (λ r. has (gen_identity r).0))
              routed,
        )
