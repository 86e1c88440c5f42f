-- ===== src/Onion/Route.antt =====
-- The way of an onion of aimless-onions/src/format.rs: every relay unwraps one layer with the keys of
-- the identity that the onion names.
use aimless_onions.Prelude.{ℕ, zero, suc, ◌≡◌, refl, subst, sym, List, [], ◌∷◌, length, All}
use mathlib.Core.Path.{ap₂}
use aimless_onions.Outcome.{Outcome, ok, ◌>>=◌}
use aimless_onions.NodeName.{NodeName}
use aimless_onions.Wire.{HopInfo, Onion}
use aimless_onions.Crypto.{Crypto, IsSound}
use aimless_onions.Onion.{unwrap}
use aimless_onions.Onion.Shares.{HasKeys}

module _ (c : Crypto) where
  open c use {Rng, PublicKey, PrivateKey}

  -- What `n` relays in a row see and what is left: each has the keys of the identity that the onion
  -- names and passes on what `unwrap` returns.
  unfoldable pub travel :
      List PublicKey → (ℕ → List PrivateKey) → ℕ → Onion → Outcome (List (ℕ × ℕ) × Onion)
  travel pks keys zero o = ok ([], o)
  travel pks keys (suc n) o = do
    (hop, inner) ← unwrap c o pks (keys o.identity)
    (seen, last) ← travel pks keys n inner
    ok ((o.identity, hop.delay) ∷ seen, last)

module _ (c : Crypto) (HasKey : c.PublicKey → NodeName → c.PrivateKey → Type 0)
    (sound : IsSound c HasKey) where
  open c use {PublicKey, PrivateKey}

  abbrev pub AreKeysOf : List PublicKey → (ℕ → List PrivateKey) → ℕ → Type 0
  AreKeysOf pks keys i = HasKeys c HasKey sound i pks (keys i)

  -- Whatever keys for it the relays of the identities have, an onion leads by these identities and
  -- delays to what is left in the end.
  pub data Leads (pks : List PublicKey) : Onion → List (ℕ × ℕ) → Onion → Type 0 where
    arrived : {o : Onion} → Leads pks o [] o
    through :
        {o inner last : Onion} {rest : List (ℕ × ℕ)} (i delay : ℕ)
        → o.identity ≡ i
        → ((sks : List PrivateKey)
            → HasKeys c HasKey sound i pks sks
            → (hop : HopInfo) × (unwrap c o pks sks ≡ ok (hop, inner)) × (hop.delay ≡ delay))
        → Leads pks inner rest last
        → Leads pks o ((i, delay) ∷ rest) last

  pub Leads-travel :
      (pks : List PublicKey) (keys : ℕ → List PrivateKey) {o last : Onion} {seen : List (ℕ × ℕ)}
      → All (λ (s : ℕ × ℕ). AreKeysOf pks keys s.0) seen
      → Leads pks o seen last
      → travel c pks keys (length seen) o ≡ ok (seen, last)
  unfolding travel
  Leads-travel pks keys has arrived = refl
  Leads-travel pks keys {o} {last} has (through {inner} {rest} i delay named opens onward) =
      let (hop, opened, delayed) = opens (keys i) has.0 in
      rw (subst (λ (k : ℕ). unwrap c o pks (keys k) ≡ ok (hop, inner)) (sym named) opened) (
        rw (Leads-travel pks keys has.1 onward)
          (ap₂ (λ (x y : ℕ). ok ((x, y) ∷ rest, last)) named delayed))
