-- ===== src/System/Posting.antt =====
-- A message that a client of aimless-onions/src/bin/client.rs sends, on its way to the board.
use aimless_onions.Prelude.{ℕ, ◌^◌, ◌<◌, ◌≡◌, ◌≢◌, sym, arith, Option, some, List, length, All}
use aimless_onions.Outcome.{file_error}
use aimless_onions.Effects.{io, after}
use aimless_onions.Wire.{Bytes, Onion}
use aimless_onions.NodeName.{NodeName}
use aimless_onions.Shared.{Text, Message}
use aimless_onions.Crypto.{Crypto, IsSound}
use aimless_onions.Net.{Http}
use aimless_onions.Client.{Config, draw, send_onion, build_and_send}
use aimless_onions.Client.Sending.{
  drawn_identities, drawn_delays, content_at, length-draw, build_and_send-IsRouted,
}
use aimless_onions.Relay.{Keygen, LiveAuthority}
use aimless_onions.Relay.Keys.{IsKeygen}
use aimless_onions.Relay.Forwarding.{KeyOf}
use aimless_onions.System.Journey.{Reaches, IsServed, but_last, IsRouted-Reaches}

module _ (c : Crypto) (h : Http c.PublicKey c.PrivateKey)
    (HasKey : c.PublicKey → NodeName → c.PrivateKey → Type 0) (sound : IsSound c HasKey)
    (g : Keygen c.PrivateKey c.Rng) (IsCache : c.PublicKey → g.Cache → Type 0)
    (keygen : (pk : c.PublicKey) → IsKeygen c g (KeyOf c HasKey sound g IsCache pk) (IsCache pk))
    (read_message : Bytes → Option Message) (relays : ℕ → List (LiveAuthority c g))
    (gen_identity sample_delay : c.Rng → ℕ × c.Rng) (serialize_message : Message → Bytes)
    (log_wrapping : Text → h.World → Option {0} Unit × h.World) where
  open c use {Rng, PublicKey}
  open h use {World, now}

  -- With cryptography as IsSound and key derivations as IsKeygen describe them, at least one public
  -- key, a generator of identities below 2 ^ 64 and of delays below 2 ^ 32 and a message that the relays
  -- can read: when no drawn identity is 0, and the relay of every drawn identity takes part in the epoch and has from
  -- every authority a key for a name over the identity, build_and_send hands to send_onion an onion
  -- that goes from relay to relay, with the drawn delays but the last one, and the last relay posts
  -- the message with the text and the time to the board.
  pub build_and_send-Reaches :
      (rng : Rng) (config : Config) (pks : List PublicKey) (text : Text) (w : World) (m : Message)
      → 0 < length pks
      → ((r : Rng) → (gen_identity r).0 < 2 ^ 64)
      → All
          (λ i. i ≢ 0)
          (drawn_identities c h HasKey sound gen_identity sample_delay serialize_message
            log_wrapping rng)
      → ((r : Rng) → (sample_delay r).0 < 2 ^ 32)
      → read_message (
          content_at c h HasKey sound gen_identity sample_delay serialize_message log_wrapping
            (now w)
            text)
        ≡ some m
      → All (IsServed c HasKey sound g IsCache keygen read_message relays pks) (
          drawn_identities c h HasKey sound gen_identity sample_delay serialize_message log_wrapping
            rng)
      → (o : Onion) × (build_and_send c h gen_identity sample_delay serialize_message log_wrapping
            rng config pks text w
          ≡ after (send_onion c h config.authority o w) (λ _. io file_error (log_wrapping text)))
        × Reaches c HasKey sound g IsCache keygen read_message relays o
            (but_last (
              drawn_delays c h HasKey sound gen_identity sample_delay serialize_message log_wrapping
                rng))
            m
  unfolding draw
  build_and_send-Reaches rng config pks text w m some_keys ids apart delays reads served =
      let (o, run, routed) =
        build_and_send-IsRouted c h HasKey sound gen_identity sample_delay serialize_message
          log_wrapping rng config pks text w some_keys ids delays in
      (
        o,
        run,
        IsRouted-Reaches c HasKey sound g IsCache keygen read_message relays pks
            (drawn_identities c h HasKey sound gen_identity sample_delay serialize_message
              log_wrapping rng)
            (drawn_delays c h HasKey sound gen_identity sample_delay serialize_message log_wrapping
              rng)
            _ o m (omega arith) (sym (length-draw 3 sample_delay (draw 3 gen_identity rng).1))
            served apart reads routed,
      )
