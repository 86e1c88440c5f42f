-- ===== src/Relay/Forwarding.antt =====
-- What a relay of aimless-onions/src/bin/relay.rs does with an onion for one of its identities.
use aimless_onions.Prelude.{
  ℕ, ◌≡◌, refl, ap, sym, ◌∙◌, true, false, Option, none, some, List, [], ◌∷◌, map, All,
  if◌then◌else◌,
}
use aimless_onions.Outcome.{ok, ◌>>=◌, or_panic}
use aimless_onions.NodeName.{NodeName, number}
use aimless_onions.Wire.{Bytes, Onion, HopInfo, is_final_destination}
use aimless_onions.Shared.{Message}
use aimless_onions.Crypto.{Crypto, IsSound}
use aimless_onions.Onion.{unwrap}
use aimless_onions.Onion.Shares.{HasKeys}
use aimless_onions.Relay.{
  Keygen, LiveAuthority, post_to_board, forward, get_private_key, private_keys, relay_onion,
}
use aimless_onions.Relay.Keys.{IsKeygen, AreKeys, IsAnswer, covers, get_private_key-IsAnswer}

false_not_true : ¬ (false ≡ true)
false_not_true h = cc

module _ (c : Crypto) (HasKey : c.PublicKey → NodeName → c.PrivateKey → Type 0)
    (sound : IsSound c HasKey) (g : Keygen c.PrivateKey c.Rng)
    (IsCache : c.PublicKey → g.Cache → Type 0) where
  open c use {Rng, PublicKey, PrivateKey}

  -- The keys of the public keys' schemes; a private key for a name is one that `HasKey` accepts.
  abbrev pub KeyOf : PublicKey → PrivateKey → NodeName → Type 0
  KeyOf pk sk n = HasKey pk n sk

  abbrev pub public_keys : List (LiveAuthority c g) → List PublicKey
  public_keys = map (λ (a : LiveAuthority c g). a.public_key)

  module _ (keygen : (pk : PublicKey) → IsKeygen c g (KeyOf pk) (IsCache pk)) where
    -- The relay has received keys that belong to their names, one of them for a name over the
    -- identity.
    pub record IsEquipped (identity : ℕ) (a : LiveAuthority c g) : Type 0 where
      pub good :
          AreKeys c g
            (KeyOf a.public_key)
            (IsCache a.public_key)
            (keygen a.public_key)
            a.received_keys
      pub covered :
          covers c g
            (KeyOf a.public_key)
            (IsCache a.public_key)
            (keygen a.public_key)
            (number identity)
            a.received_keys
          ≡ true

    key_in_answer :
        (rng rng' : Rng) (identity : ℕ) (a : LiveAuthority c g) (answer : Option PrivateKey)
        → IsEquipped identity a
        → get_private_key c g rng a identity ≡ ok (answer, rng')
        → IsAnswer c g
            (KeyOf a.public_key)
            (IsCache a.public_key)
            (keygen a.public_key)
            (number identity)
            a.received_keys
            answer
        → (key : PrivateKey) × (get_private_key c g rng a identity ≡ ok (some key, rng'))
          × HasKey a.public_key (number identity) key
    key_in_answer rng rng' identity a none equipped found h =
        let covered = equipped.covered in absurd (false_not_true (sym h ∙ covered))
    key_in_answer rng rng' identity a (some key) equipped found h = (key, found, h.1)

    one_key :
        (rng : Rng) (identity : ℕ) (a : LiveAuthority c g)
        → IsEquipped identity a
        → (key : PrivateKey) × (rng' : Rng) × (get_private_key c g rng a identity
            ≡ ok (some key, rng'))
          × HasKey a.public_key (number identity) key
    one_key rng identity a equipped =
        let (answer, rng', found, h) =
          get_private_key-IsAnswer c g (KeyOf a.public_key) (IsCache a.public_key)
            (keygen a.public_key) rng a identity equipped.good in
        let (key, found', has) = key_in_answer rng rng' identity a answer equipped found h in
        (key, rng', found', has)

    private_keys-HasKeys :
        (rng : Rng) (identity : ℕ) (as' : List (LiveAuthority c g))
        → All (IsEquipped identity) as'
        → (keys : List PrivateKey) × (rng' : Rng) × (private_keys c g rng as' identity
            ≡ ok (keys, rng'))
          × HasKeys c HasKey sound identity (public_keys as') keys
    unfolding private_keys
    private_keys-HasKeys rng identity [] equipped = ([], rng, refl, tt)
    private_keys-HasKeys rng identity (a ∷ as') equipped =
        let (key, rng1, found, has) = one_key rng identity a equipped.0 in
        let (keys, rng2, rest, all) = private_keys-HasKeys rng1 identity as' equipped.1 in
        (key ∷ keys, rng2, rw (found, rest), (has, all))

    -- What relay_onion does when the onion unwraps; the tag of the hop may depend on the keys.
    pub relay_onion-opened :
        (read_message : Bytes → Option Message) (rng : Rng) (as' : List (LiveAuthority c g))
        (o inner : Onion) (delay : ℕ)
        → All (IsEquipped o.identity) as'
        → ((sks : List PrivateKey)
            → HasKeys c HasKey sound o.identity (public_keys as') sks
            → (hop : HopInfo) × (unwrap c o (public_keys as') sks ≡ ok (hop, inner))
              × (hop.delay ≡ delay))
        → relay_onion c g read_message rng as' o ≡ (
            if is_final_destination inner
            then (or_panic (read_message inner.payload) >>= λ m. ok (post_to_board m))
            else ok (forward delay inner))
    unfolding relay_onion
    relay_onion-opened read_message rng as' o inner delay equipped opens =
        let (keys, rng', collected, has) = private_keys-HasKeys rng o.identity as' equipped in
        let (hop, opened, delayed) = opens keys has in
        rw (collected, opened)
          (ap
            (λ (d : ℕ).
              if is_final_destination inner
              then (or_panic (read_message inner.payload) >>= λ m. ok (post_to_board m))
              else ok (forward d inner))
            delayed)

    -- With cryptography as IsSound and a key derivation as IsKeygen describe them: when the relay
    -- has from every authority a key for a name over the onion's identity, and the onion unwraps
    -- with all keys that belong to the identity, relay_onion unwraps it and posts the message in it
    -- to the board if it is at its final destination, and forwards it after the delay of the hop if
    -- not.
    pub relay_onion-acts :
        (read_message : Bytes → Option Message) (rng : Rng) (as' : List (LiveAuthority c g))
        (o inner : Onion) (hop : HopInfo)
        → All (IsEquipped o.identity) as'
        → ((sks : List PrivateKey)
            → HasKeys c HasKey sound o.identity (public_keys as') sks
            → unwrap c o (public_keys as') sks ≡ ok (hop, inner))
        → relay_onion c g read_message rng as' o ≡ (
            if is_final_destination inner
            then (or_panic (read_message inner.payload) >>= λ m. ok (post_to_board m))
            else ok (forward hop.delay inner))
    relay_onion-acts read_message rng as' o inner hop equipped opens =
        relay_onion-opened read_message rng as' o inner hop.delay equipped
          (λ sks has. (hop, opens sks has, refl))
