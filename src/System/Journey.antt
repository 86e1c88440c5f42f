-- ===== src/System/Journey.antt =====
-- The way of an onion of a client through the relays of aimless-onions/src/bin/relay.rs to the board.
use aimless_onions.Prelude.{
  ℕ, ◌^◌, ◌<◌, ◌≡◌, ◌≢◌, refl, ap, sym, ◌∙◌, subst, arith, false, true, ◌==◌, Option, some, List,
  [], ◌∷◌, length, All, if◌then◌else◌,
}
use aimless_onions.Outcome.{ok, or_panic, ◌>>=◌}
use aimless_onions.NodeName.{NodeName}
use aimless_onions.Wire.{Bytes, Onion, HopInfo, is_final_destination}
use aimless_onions.Shared.{Message}
use aimless_onions.Crypto.{Crypto, IsSound}
use aimless_onions.Onion.{unwrap, wrap}
use aimless_onions.Onion.Path.{stops}
use aimless_onions.Onion.Shares.{HasKeys}
use aimless_onions.Onion.Route.{Leads}
use aimless_onions.Onion.Delivery.{IsRouted, wrap-IsRouted, stops-All}
use aimless_onions.Relay.{Keygen, LiveAuthority, post_to_board, forward, relay_onion}
use aimless_onions.Relay.Keys.{IsKeygen}
use aimless_onions.Relay.Forwarding.{KeyOf, public_keys, IsEquipped, relay_onion-opened}

abbrev pub but_last : List ℕ → List ℕ
but_last [] = []
but_last (d ∷ []) = []
but_last (d ∷ e ∷ ds) = d ∷ but_last (e ∷ ds)

-- The delays of the stops but for the last one.
abbrev pub waits : List (ℕ × ℕ) → List ℕ
waits [] = []
waits (s ∷ []) = []
waits (s ∷ t ∷ ss) = s.1 ∷ waits (t ∷ ss)

waits-stops : (is ds : List ℕ) → length is ≡ length ds → waits (stops is ds) ≡ but_last ds
unfolding stops
waits-stops [] [] e = refl
waits-stops [] (d ∷ ds) e = absurd (omega arith)
waits-stops (i ∷ is) [] e = absurd (omega arith)
waits-stops (i ∷ []) (d ∷ []) e = refl
waits-stops (i ∷ []) (d ∷ d' ∷ ds) e = absurd (omega arith)
waits-stops (i ∷ i' ∷ is) (d ∷ []) e = absurd (omega arith)
waits-stops (i ∷ i' ∷ is) (d ∷ d' ∷ ds) e =
    ap (◌∷◌ d) (waits-stops (i' ∷ is) (d' ∷ ds) (omega arith))

not_final : (o : Onion) (i : ℕ) → o.identity ≡ i → i ≢ 0 → is_final_destination o ≡ false
unfolding is_final_destination
not_final o i named some_identity =
    let other : (o.identity == 0) ≡ false = ground (arith, named, some_identity) in rw other

module _ (c : Crypto) (HasKey : c.PublicKey → NodeName → c.PrivateKey → Type 0)
    (sound : IsSound c HasKey) (g : Keygen c.PrivateKey c.Rng)
    (IsCache : c.PublicKey → g.Cache → Type 0)
    (keygen : (pk : c.PublicKey) → IsKeygen c g (KeyOf c HasKey sound g IsCache pk) (IsCache pk))
    (read_message : Bytes → Option Message) (relays : ℕ → List (LiveAuthority c g)) where
  open c use {Rng, PublicKey}

  -- From relay to relay: `relays i` are the live authorities of the relay that serves the identity
  -- `i`. Whatever it draws, each relay passes the onion on after a delay, and the last one posts the
  -- message to the board.
  pub data Reaches : Onion → List ℕ → Message → Type 0 where
    posted :
        {o : Onion} {m : Message}
        → ((rng : Rng)
            → relay_onion c g read_message rng (relays o.identity) o ≡ ok (post_to_board m))
        → Reaches o [] m
    forwarded :
        {o inner : Onion} {ds : List ℕ} {m : Message} (d : ℕ)
        → ((rng : Rng)
            → relay_onion c g read_message rng (relays o.identity) o ≡ ok (forward d inner))
        → Reaches inner ds m
        → Reaches o (d ∷ ds) m

  -- The relay of the identity takes part in the epoch of these public keys.
  pub record IsServed (pks : List PublicKey) (i : ℕ) : Type 0 where
    pub registered : public_keys c HasKey sound g IsCache (relays i) ≡ pks
    pub equipped : All (IsEquipped c HasKey sound g IsCache keygen i) (relays i)

  -- The onion unwraps with the keys of the identity.
  abbrev Opens : Onion → Onion → ℕ → ℕ → List PublicKey → Type 0
  Opens o inner d i pks =
      (sks : List c.PrivateKey)
      → HasKeys c HasKey sound i pks sks
      → (hop : HopInfo) × (unwrap c o pks sks ≡ ok (hop, inner)) × (hop.delay ≡ d)

  served-Opens :
      (pks : List PublicKey) (o inner : Onion) (i d : ℕ) (rng : Rng)
      → o.identity ≡ i
      → IsServed pks i
      → Opens o inner d i pks
      → relay_onion c g read_message rng (relays o.identity) o ≡ (
          if is_final_destination inner
          then (or_panic (read_message inner.payload) >>= λ m. ok (post_to_board m))
          else ok (forward d inner))
  served-Opens pks o inner i d rng named served opens =
      let served' : IsServed pks o.identity = subst (IsServed pks) (sym named) served in
      relay_onion-opened c HasKey sound g IsCache keygen read_message rng (relays o.identity) o
        inner d served'.equipped
        (subst (Opens o inner d o.identity) (sym served'.registered)
          (subst (λ (j : ℕ). Opens o inner d j pks) (sym named) opens))

  -- An onion reaches the board along the stops to which it leads.
  Leads-Reaches :
      (pks : List PublicKey) (m : Message) (s : ℕ × ℕ) (seen : List (ℕ × ℕ)) {o last : Onion}
      → is_final_destination last ≡ true
      → read_message last.payload ≡ some m
      → All (λ (t : ℕ × ℕ). IsServed pks t.0) (s ∷ seen)
      → All (λ (t : ℕ × ℕ). t.0 ≢ 0) seen
      → Leads c HasKey sound pks o (s ∷ seen) last
      → Reaches o (waits (s ∷ seen)) m
  Leads-Reaches pks m s [] {o} {last} final reads served apart
        (Leads.through i d named opens Leads.arrived) =
      posted (λ rng. served-Opens pks o last i d rng named served.0 opens ∙ rw (final, reads) refl)
  Leads-Reaches pks m s (t ∷ seen) {o} {last} final reads served apart
        (Leads.through {inner} i d named opens (Leads.through i' d' named' opens' onward)) =
      forwarded d
        (λ rng.
          served-Opens pks o inner i d rng named served.0 opens
          ∙ rw (not_final inner i' named' apart.0) refl)
        (Leads-Reaches pks m t seen final reads served.1 apart.1
          (Leads.through i' d' named' opens' onward))

  -- What is routed along served identities reaches the board.
  pub IsRouted-Reaches :
      (pks : List PublicKey) (ids delays : List ℕ) (content : Bytes) (o : Onion) (m : Message)
      → 0 < length ids
      → length ids ≡ length delays
      → All (IsServed pks) ids
      → All (λ i. i ≢ 0) ids
      → read_message content ≡ some m
      → IsRouted c HasKey sound pks ids delays content o
      → Reaches o (but_last delays) m
  unfolding stops
  IsRouted-Reaches pks [] delays content o m some_ids counts served apart reads routed =
      absurd (omega (arith, some_ids))
  IsRouted-Reaches pks (i ∷ ids) [] content o m some_ids counts served apart reads routed =
      absurd (omega (arith, counts))
  IsRouted-Reaches pks (i ∷ ids) (d ∷ delays) content o m some_ids counts served apart reads
        routed =
      let reads' : read_message routed.last.payload ≡ some m =
        ap read_message routed.arrives ∙ reads in
      subst (λ (ds : List ℕ). Reaches o ds m) (waits-stops (i ∷ ids) (d ∷ delays) counts)
        (Leads-Reaches pks m (i, d) (stops ids delays) routed.final reads'
          (served.0, stops-All (IsServed pks) ids delays served.1)
          (stops-All (λ i. i ≢ 0) ids delays apart.1) routed.leads)

  -- With cryptography as IsSound and key derivations as IsKeygen describe them, a message that the
  -- relays can read, at least one authority and one identity, identities that are not 0 and as many
  -- delays, of the sizes of their types: when the relay of every identity of the path takes part in
  -- the epoch and has from every authority a key for a name over the identity, `wrap` returns an onion
  -- that goes from relay to relay along the path, with the delays of all relays but the last one, and
  -- the last relay posts the message to the board, whatever random numbers the relays draw.
  pub wrap-Reaches :
      (rng : Rng) (ids delays : List ℕ) (pks : List PublicKey) (content : Bytes) (m : Message)
      → 0 < length pks
      → 0 < length ids
      → length ids ≡ length delays
      → All (λ i. i < 2 ^ 64) ids
      → All (λ d. d < 2 ^ 32) delays
      → All (λ i. i ≢ 0) ids
      → All (IsServed pks) ids
      → read_message content ≡ some m
      → (o : Onion) × (rng' : Rng) × (wrap c rng ids delays pks content ≡ ok (o, rng'))
        × Reaches o (but_last delays) m
  wrap-Reaches rng ids delays pks content m some_keys some_ids counts fi fd apart served reads =
      let (o, rng', made, routed) =
        wrap-IsRouted c HasKey sound rng ids delays pks content some_keys counts fi fd in
      (
        o,
        rng',
        made,
        IsRouted-Reaches pks ids delays content o m some_ids counts served apart reads routed,
      )
