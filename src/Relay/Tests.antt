-- ===== src/Relay/Tests.antt =====
-- Runs of the functions of aimless-onions/src/bin/relay.rs. A key is the depth of its name.
use aimless_onions.Prelude.{ℕ, suc, ◌≡◌, refl, ap, ◌∙◌, Option, some, [], ◌∷◌}
use aimless_onions.Outcome.{ok}
use aimless_onions.NodeName.{NodeName, number}
use aimless_onions.Wire.{Bytes}
use aimless_onions.Shared.{Message}
use aimless_onions.Onion.Tests.{key}
use aimless_onions.Sample.{sample, SampleKey, sample-IsSound}
use aimless_onions.Relay.Forwarding.{KeyOf}
use aimless_onions.Relay.{Keygen, LiveAuthority, get_private_key, split_last}
use aimless_onions.Relay.Keys.{IsKeygen, IsAnswer, get_private_key-IsAnswer}

abbrev pub depth_keygen : Keygen ℕ ℕ
depth_keygen = record {
  Cache = ℕ;
  derive_key = λ rng cache key digits child. (some (suc key), rng);
}

abbrev pub IsDepth : ℕ → NodeName → Type 0
IsDepth key n = n.len ≡ key

pub depth_keygen-IsKeygen : IsKeygen sample depth_keygen IsDepth (λ cache. Unit)
depth_keygen-IsKeygen = record {
  derives = λ rng cache key parent child digits deeper within above parts cached has.
      (suc key, refl, deeper ∙ ap suc has);
}

abbrev left_half : LiveAuthority sample depth_keygen
left_half = record {
  config = record { address = []; cert = [] };
  used_key = 1 ∷ [];
  public_key = 11;
  received_keys = (record { path = 0; len = 1 }, (0, 1)) ∷ [];
}

last_digit : split_last (1 ∷ 0 ∷ 1 ∷ []) ≡ some (1, 1 ∷ 0 ∷ [])
unfolding split_last
last_digit = refl

get_private_key-IsAnswer_example :
    (answer : Option ℕ) × (rng' : ℕ) × (get_private_key sample depth_keygen 7 left_half 5
      ≡ ok (answer, rng'))
    × IsAnswer sample depth_keygen IsDepth
        (λ cache. Unit)
        depth_keygen-IsKeygen
        (number 5)
        left_half.received_keys
        answer
get_private_key-IsAnswer_example =
    get_private_key-IsAnswer sample depth_keygen IsDepth (λ cache. Unit) depth_keygen-IsKeygen 7
      left_half 5 ((tt, refl), tt)

-- With keys for which every private key is good, an authority is one that covers the left half.
abbrev pub any_keygen : Keygen ℕ ℕ
any_keygen = record { Cache = ℕ; derive_key = λ rng cache key digits child. (some key, rng) }

abbrev pub AnyCache : ℕ → ℕ → Type 0
AnyCache pk cache = Unit

pub same_keygen :
    (pk : ℕ)
    → IsKeygen sample any_keygen
        (KeyOf sample SampleKey sample-IsSound any_keygen AnyCache pk)
        (AnyCache pk)
same_keygen pk = record {
  derives =
      λ rng cache key parent child digits deeper within above parts cached has. (key, refl, has);
}

abbrev pub read_message : Bytes → Option Message
read_message bytes = some (record { timestamp = 0; content = bytes })
