-- ===== src/System/Parties.antt =====
-- The authorities of an epoch and the relays that fetched their keys from all of them, after
-- aimless-onions/src/bin/authority.rs and aimless-onions/src/bin/relay.rs.
use aimless_onions.Prelude.{ℕ, ◌≡◌, refl, ap, sym, ◌∙◌, subst, true, some, List, [], ◌∷◌, map, All}
use aimless_onions.Outcome.{Outcome, ok, ok_injective}
use aimless_onions.ApiTypes.{RelayKey, KeyPair}
use aimless_onions.NodeName.{NodeName, number}
use aimless_onions.Maps.{lookup, values}
use aimless_onions.Crypto.{Crypto, IsSound}
use aimless_onions.Net.{Http}
use aimless_onions.Allocation.{AllocationRequest, Allocation}
use aimless_onions.Allocation.Depth.{AreShallow}
use aimless_onions.Allocation.Shares.{IsWeighted}
use aimless_onions.Authority.{
  Bbg, InnerRequests, InnerAllocations, any_contains, handle_get_hibe_keys, allocate_epoch,
}
use aimless_onions.Authority.Agreement.{registered_weight}
use aimless_onions.Authority.Registry.{IsRegistry}
use aimless_onions.Relay.{Keygen, LiveAuthority}
use aimless_onions.Relay.Keys.{IsKeygen, AreKeys, covers}
use aimless_onions.Relay.Network.{receive_keys}
use aimless_onions.Relay.Forwarding.{KeyOf, IsEquipped, public_keys}
use aimless_onions.System.Received.{Issues, read_pair}
use aimless_onions.System.Issued.{HasKey}
use aimless_onions.System.Agreed.{agreed-HasKey}

module _ (b : Bbg) (c : Crypto) (h : Http c.PublicKey c.PrivateKey)
    (IsKeyFor : c.PublicKey → NodeName → c.PrivateKey → Type 0) (sound : IsSound c IsKeyFor)
    (g : Keygen c.PrivateKey c.Rng) (IsCache : c.PublicKey → g.Cache → Type 0)
    (keygen : (pk : c.PublicKey) → IsKeygen c g (KeyOf c IsKeyFor sound g IsCache pk) (IsCache pk))
    (make_cache : c.PublicKey → Outcome g.Cache) (read_key : b.PrivateKey → c.PrivateKey)
    (read_params : b.PublicParams → c.PublicKey) where
  open c use {Rng, PublicKey}
  open g use {Cache}

  abbrev pub public_key : InnerAllocations b → PublicKey
  public_key a = read_params a.public_params

  abbrev KeyFor : PublicKey → c.PrivateKey → NodeName → Type 0
  KeyFor = KeyOf c IsKeyFor sound g IsCache

  -- An authority with its registry and what its allocation gave out.
  pub record Party : Type 0 where
    pub rng : b.Rng
    pub registry : InnerRequests
    pub emptied : InnerRequests
    pub given : InnerAllocations b
    pub rng' : b.Rng
    pub in_order : IsRegistry registry
    pub allocated : allocate_epoch b rng registry ≡ ok (emptied, given, rng')
    pub issues :
        Issues b c g h make_cache
          (KeyFor (public_key given))
          (IsCache (public_key given))
          (keygen (public_key given))
          read_key
          given.public_params
          given.master_key
    pub cache : Cache
    pub made : make_cache (public_key given) ≡ ok cache
    pub cached : IsCache (public_key given) cache

  -- The relay asked the authority with its key and kept what it got.
  pub record Holds (k : RelayKey) (p : Party) (live : LiveAuthority c g) : Type 0 where
    pub asked : b.Rng
    pub pairs : List (KeyPair b.PrivateKey)
    pub rest : b.Rng
    pub handed : handle_get_hibe_keys b asked (record { key = k }) p.given ≡ ok (pairs, rest)
    pub kept :
        receive_keys c g h make_cache
          (public_key p.given)
          (map
            (read_pair b c g h make_cache
              (KeyFor (public_key p.given))
              (IsCache (public_key p.given))
              (keygen (public_key p.given))
              read_key)
            pairs)
          []
        ≡ ok live.received_keys
    pub named : live.public_key ≡ public_key p.given

  -- One live authority for each of them, in order.
  abbrev pub AreHeld : RelayKey → List Party → List (LiveAuthority c g) → Type 0
  AreHeld k [] [] = Unit
  AreHeld k [] (l ∷ ls) = ⊥
  AreHeld k (p ∷ ps) [] = ⊥
  AreHeld k (p ∷ ps) (l ∷ ls) = Holds k p l × AreHeld k ps ls

  abbrev pub all_public_keys : List Party → List PublicKey
  all_public_keys = map (λ (p : Party). public_key p.given)

  pub AreHeld-public_keys :
      (k : RelayKey) (ps : List Party) (ls : List (LiveAuthority c g))
      → AreHeld k ps ls
      → public_keys c IsKeyFor sound g IsCache ls ≡ all_public_keys ps
  AreHeld-public_keys k [] [] held = refl
  AreHeld-public_keys k [] (l ∷ ls) held = absurd held
  AreHeld-public_keys k (p ∷ ps) [] held = absurd held
  AreHeld-public_keys k (p ∷ ps) (l ∷ ls) held =
      rw held.0.named (ap (◌∷◌ (public_key p.given)) (AreHeld-public_keys k ps ls held.1))

  Holds-IsEquipped :
      (identity : ℕ) (k : RelayKey) (p : Party) (live : LiveAuthority c g) (drawn : Rng)
      (held : Holds k p live)
      → HasKey b c g h make_cache
          (KeyFor (public_key p.given))
          (IsCache (public_key p.given))
          (keygen (public_key p.given))
          read_key
          read_params
          identity
          p.given
          k
          held.asked
          drawn
      → IsEquipped c IsKeyFor sound g IsCache keygen identity live
  Holds-IsEquipped identity k p live drawn held has =
      let pk = public_key p.given in
      let read = read_pair b c g h make_cache (KeyFor pk) (IsCache pk) (keygen pk) read_key in
      let same_pairs : has.pairs ≡ held.pairs =
        ap (λ (t : List (KeyPair b.PrivateKey) × b.Rng). t.0)
          (ok_injective (sym has.handed ∙ held.handed)) in
      let same : has.received ≡ live.received_keys = ok_injective (
        sym has.kept
        ∙ ap (λ (t : List (KeyPair b.PrivateKey)). receive_keys c g h make_cache pk (map read t) [])
            same_pairs
        ∙ held.kept) in
      record {
        good =
            subst
              (λ (t : PublicKey). AreKeys c g (KeyFor t) (IsCache t) (keygen t) live.received_keys)
              (sym held.named)
              (subst (AreKeys c g (KeyFor pk) (IsCache pk) (keygen pk)) same has.good);
        covered =
            subst
              (λ (t : PublicKey).
                covers c g (KeyFor t) (IsCache t) (keygen t) (number identity) live.received_keys
                ≡ true)
              (sym held.named)
              (subst
                (λ (t : List (NodeName × (Cache × c.PrivateKey))).
                  covers c g (KeyFor pk) (IsCache pk) (keygen pk) (number identity) t ≡ true)
                same has.covered);
      }

  abbrev pub Agrees : Party → Party → Type 0
  Agrees p p' = (k : RelayKey) → registered_weight k p.registry ≡ registered_weight k p'.registry

  -- The keys that a relay of the first authority's list holds of one that agrees with it.
  pub held-IsEquipped :
      (first : Party) (identity : ℕ) (k : RelayKey) (q : AllocationRequest)
      (allocation : Allocation) (drawn : Rng)
      → IsWeighted (values first.registry.requests)
      → lookup k first.registry.requests ≡ some q
      → lookup k first.given.allocations ≡ some allocation
      → AreShallow allocation.nodes
      → any_contains (number identity) allocation.nodes ≡ true
      → (ps : List Party) (ls : List (LiveAuthority c g)) → All (Agrees first) ps
      → AreHeld k ps ls
      → All (IsEquipped c IsKeyFor sound g IsCache keygen identity) ls
  held-IsEquipped first identity k q allocation drawn weighted registered found shallow covering []
        [] agree held =
      tt
  held-IsEquipped first identity k q allocation drawn weighted registered found shallow covering []
        (l ∷ ls) agree held =
      absurd held
  held-IsEquipped first identity k q allocation drawn weighted registered found shallow covering
        (p ∷ ps) [] agree held =
      absurd held
  held-IsEquipped first identity k q allocation drawn weighted registered found shallow covering
        (p ∷ ps) (l ∷ ls) agree held =
      let pk = public_key p.given in
      (
        Holds-IsEquipped identity k p l drawn held.0 (
            agreed-HasKey b c g h make_cache (KeyFor pk) (IsCache pk) (keygen pk) read_key
              read_params first.rng p.rng first.rng' p.rng' first.registry p.registry first.emptied
              p.emptied first.given p.given identity k q allocation p.cache held.0.asked drawn
              first.in_order p.in_order agree.0 weighted first.allocated p.allocated p.issues p.made
              p.cached registered found shallow covering),
        held-IsEquipped first identity k q allocation drawn weighted registered found shallow
            covering ps ls agree.1 held.1,
      )
