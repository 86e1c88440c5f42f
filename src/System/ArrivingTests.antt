-- ===== src/System/ArrivingTests.antt =====
-- An epoch of aimless-onions/ with two authorities, two relays and a client.
use aimless_onions.Prelude.{if◌then◌else◌, List, [], ◌∷◌}
use aimless_onions.ApiTypes.{Address}
use aimless_onions.Wire.{bytes_eq}
use aimless_onions.Shared.{Message}
use aimless_onions.Sample.{sample}
use aimless_onions.Relay.{LiveAuthority}
use aimless_onions.Relay.Tests.{any_keygen}
use aimless_onions.System.Sample.{large, small}

abbrev at_address : Address → List (LiveAuthority sample any_keygen)
at_address address = if bytes_eq address.0 (97 ∷ []) then large else small

abbrev hello : Message
hello = record { timestamp = 0; content = 72 ∷ [] }
