-- ===== src/Client/Main.antt =====
-- The end of `main` of aimless-onions/src/bin/client.rs: lines of input or random messages are sent.
use aimless_onions.Prelude.{ℕ, suc, Bool, Option, none, some, List, [], ◌∷◌, if◌then◌else◌}
use aimless_onions.Effects.{Action}
use aimless_onions.Shared.{Text, Message}
use aimless_onions.Wire.{Bytes}
use aimless_onions.Crypto.{Crypto}
use aimless_onions.Net.{Http}
use aimless_onions.Client.{Config, draw, random_message, send_lines, send_random}

-- The options of the command line but for the path of the configuration.
pub record Cli : Type 0 where
  pub interactive : Bool
  pub send_interval : ℕ
  pub message_count : ℕ

-- The thread that reads the input: a line that cannot be read, here `none`, is passed over, and the
-- channel keeps the order.
unfoldable pub read_inputs : List (Option Text) → List Text
read_inputs [] = []
read_inputs (none ∷ inputs) = read_inputs inputs
read_inputs (some line ∷ inputs) = line ∷ read_inputs inputs

-- `random_msg_iterator().take(message_count)`
unfoldable pub random_messages :
    {Rng : Type 0} → (Rng → ℕ × Rng) → (Rng → ℕ × Rng) → Cli → Rng → List Text × Rng
random_messages gen_range sample_char cli =
    draw cli.message_count (random_message gen_range sample_char)

module _ (c : Crypto) (h : Http c.PublicKey c.PrivateKey) where
  open c use {Rng, PublicKey}
  open h use {World}

  -- Each message is built with the generator and the keys that there are at its time.
  unfoldable pub with_keys :
      (ℕ → Rng × List PublicKey) → ℕ → List Text → List (Rng × List PublicKey × Text)
  with_keys at i [] = []
  with_keys at i (text ∷ texts) = ((at i).0, (at i).1, text) ∷ with_keys at (suc i) texts

  unfoldable pub send_messages :
      (gen_identity sample_delay : Rng → ℕ × Rng)
      → (Message → Bytes)
      → (Text → World → Option {0} Unit × World)
      → (gen_range sample_char : Rng → ℕ × Rng) → Cli
      → Config
      → (ℕ → Rng × List PublicKey)
      → List (Option Text)
      → Rng
      → Action World Unit
  send_messages gen_identity sample_delay serialize_message log_wrapping gen_range sample_char cli
        config at inputs rng =
      if cli.interactive
      then send_lines c h gen_identity sample_delay serialize_message log_wrapping config
          (with_keys at 0 (read_inputs inputs))
      else send_random c h gen_identity sample_delay serialize_message log_wrapping
          cli.send_interval config
          (with_keys at 0 (random_messages gen_range sample_char cli rng).0)
